-- ===== src/Distcc/Tests.antt =====
-- Tests of the Distcc controller, and its theorems at concrete inputs.
use k8cc.Prelude.{
  ◌*◌, ◌≡◌, ◌≢◌, ◌<◌, ◌↔◌, refl, true, false, Option, none, some, List, [], ◌∷◌, arith, eq_iff, ◌^◌,
  ◌-◌,
}
use k8cc.Prelude.Int.{ℤ, pos, negsuc}
use k8cc.Clock.{Time, add}
use k8cc.GoError.{ok, err, status, transient_error, StatusReason}
use k8cc.Kube.{Deployment, no_meta}
use k8cc.Types.{Distcc, DistccClaim}
use k8cc.Cluster.{Run}
use k8cc.Cluster.Writes.{Adds}
use k8cc.Samples.{sample_library, answering, Answers, nothing}
use k8cc.Samples.Objects.{dev, claim_until}
use k8cc.Distcc.{sync, desired_replicas}
use k8cc.Distcc.Replicas.{counts, replicas_for, need_scale}
use k8cc.Distcc.Objects.{new_deployment, new_service}
use k8cc.Distcc.Bounds.{
  clamp, ending_before, replicas_for-clamp, replicas_for_overflow, replicas_for-Expired,
}
use k8cc.Distcc.Scaling.{need_scale_iff, NeedsScale}
use k8cc.Distcc.Ownership.{IsOwnWrite, sync-IsOwnWrite}
use k8cc.Distcc.Reconcile.{
  downscale_window_held, sync_scales, scaling_unrecorded, scaling, recording,
}

-- The run begins at second 1100, inside the window of `dev`.
abbrev start : Run Time
start = record { world = 1_100_000_000_000; writes = [] }

abbrev deploy_with : Option ℤ → Deployment
deploy_with replicas = new_deployment dev replicas

abbrev in_place : Option ℤ → List DistccClaim → Answers
in_place replicas claims = record nothing {
  deployment = ok (deploy_with replicas);
  service = ok (new_service dev);
  claims = claims;
}

named : dev.spec.deployment_name ≢ ""
named e = ground (arith, eq_iff "dev-deploy" "")

service_named : dev.spec.service_name ≢ ""
service_named e = ground (arith, eq_iff "dev-svc" "")

-- One live claim: three replicas.
abbrev one_live : List DistccClaim
one_live = claim_until (some 1_500_000_000_000) ∷ []

desired_three :
    (desired_replicas ⦃cluster = answering (in_place (some (pos 3)) one_live)⦄ dev start).0
    ≡ ok (pos 3)
unfolding desired_replicas replicas_for
desired_three = refl

-- Eight replicas at the third second of the window: they stay.
downscale_window_held_example :
    sync ⦃cluster = answering (in_place (some (pos 8)) one_live)⦄ dev start
    ≡ ((false, none), record { world = 1_102_000_000_000; writes = [] })
unfolding desired_replicas replicas_for new_deployment new_service
downscale_window_held_example =
    downscale_window_held ⦃cluster = answering (in_place (some (pos 8)) one_live)⦄ dev start
      (deploy_with (some (pos 8))) (new_service dev) (pos 8) (pos 3) (pos 300_000_000_000)
      1_000_000_000_000 (named, refl) refl refl refl (omega arith) refl refl (omega arith)
      (service_named, refl) refl

-- One replica where three are wanted.
sync_scales_example : sync ⦃cluster = answering (in_place (some (pos 1)) one_live)⦄ dev start ≡ (
  (true, none),
  (recording ⦃cluster = answering (in_place (some (pos 1)) one_live)⦄ dev (pos 3) start).1,
)
unfolding desired_replicas replicas_for need_scale new_deployment new_service scaling recording
sync_scales_example =
    sync_scales ⦃cluster = answering (in_place (some (pos 1)) one_live)⦄ dev start
      (deploy_with (some (pos 1))) (deploy_with (some (pos 3))) (new_service dev) (pos 3)
      (named, refl) refl refl refl refl (service_named, refl) refl

-- The service cannot be read.
abbrev broken_service : Answers
broken_service = record (in_place (some (pos 1)) one_live) {
  service = err (status StatusReason.unavailable "try later");
}

scaling_unrecorded_example : sync ⦃cluster = answering broken_service⦄ dev start ≡ (
  (true, some (transient_error (status StatusReason.unavailable "try later"))),
  scaling ⦃cluster = answering broken_service⦄ dev (pos 3) start,
)
unfolding desired_replicas replicas_for need_scale new_deployment new_service scaling
scaling_unrecorded_example =
    scaling_unrecorded ⦃cluster = answering broken_service⦄ dev start (deploy_with (some (pos 1)))
      (deploy_with (some (pos 3))) (pos 3) (status StatusReason.unavailable "try later")
      (named, refl) refl refl refl refl service_named refl refl

-- A deployment with no owner.
abbrev ownerless : Deployment
ownerless = record {
  metadata = record no_meta { name = "dev-deploy"; namespace = "default" };
  spec = record {
    replicas = some (pos 2);
    selector = none;
    template = dev.spec.template;
    strategy = none;
  };
}

sync-IsOwnWrite_example :
    Adds (IsOwnWrite dev) start (sync ⦃cluster = answering nothing⦄ dev start).1
sync-IsOwnWrite_example = sync-IsOwnWrite ⦃cluster = answering nothing⦄ dev start

-- An empty cluster: the deployment is created, scaled to one replica, the service created, and the
-- Distcc updated.
sync_creates : (sync ⦃cluster = answering nothing⦄ dev start).0 ≡ (true, none)
unfolding sync replicas_for need_scale new_deployment new_service
sync_creates = refl

few_live : ending_before 1_600_000_000_000 one_live * 3 < 2 ^ 31
unfolding counts
few_live = omega arith

replicas_for-clamp_example :
    replicas_for dev.spec 1_600_000_000_000 one_live
    ≡ clamp dev.spec (pos (ending_before 1_600_000_000_000 one_live * 3))
replicas_for-clamp_example =
    replicas_for-clamp dev.spec 1_600_000_000_000 one_live 3 refl (omega arith) (omega arith)
      few_live

-- 2 ^ 31 replicas for each user, which an int32 has not, is the product of two claims and 2 ^ 30.
abbrev greedy : Distcc
greedy = record dev { spec = record dev.spec { user_replicas = pos (2 ^ 30); min_replicas = none } }

abbrev two_live : List DistccClaim
two_live = claim_until (some 1_500_000_000_000) ∷ one_live

replicas_for_overflow_example :
    replicas_for greedy.spec 1_600_000_000_000 two_live
    ≡ negsuc (2 ^ 32 - ending_before 1_600_000_000_000 two_live * 2 ^ 30 - 1)
unfolding counts
replicas_for_overflow_example =
    replicas_for_overflow greedy.spec 1_600_000_000_000 two_live (2 ^ 30) 8 refl refl refl
      (omega arith) (omega arith) (omega arith)

-- At second 2000 the claim has expired.
replicas_for-Expired_example :
    replicas_for dev.spec (add 2_000_000_000_000 dev.spec.lease_duration) one_live
    ≡ clamp dev.spec (pos (1 * 3))
replicas_for-Expired_example =
    replicas_for-Expired dev.spec 2_000_000_000_000 600_000_000_000 one_live 3 refl refl
      (omega arith) ((1_500_000_000_000, refl, omega arith), tt) (omega arith) (omega arith)

need_scale_iff_example :
    (need_scale 1_100_000_000_000 dev (deploy_with (some (pos 1))) (pos 3) ≡ true)
    ↔ NeedsScale 1_100_000_000_000 dev (deploy_with (some (pos 1))).spec.replicas (pos 3)
need_scale_iff_example = need_scale_iff 1_100_000_000_000 dev (deploy_with (some (pos 1))) (pos 3)
