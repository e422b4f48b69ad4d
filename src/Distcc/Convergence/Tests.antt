-- ===== src/Distcc/Convergence/Tests.antt =====
-- The first two Syncs of a Distcc in an empty cluster, and the theorems about them at this input.
use k8cc.Prelude.{◌+◌, Each, ◌≡◌, ◌≢◌, refl, false, none, some, List, [], ◌∷◌, arith, eq_iff}
use k8cc.Prelude.Int.{pos}
use k8cc.GoError.{status, StatusReason}
use k8cc.Types.{Distcc, DistccClaim}
use k8cc.Cluster.{Run}
use k8cc.Distcc.{sync}
use k8cc.Distcc.Reconcile.{later}
use k8cc.Distcc.Convergence.{HasReplicas, InOrder, OwnOrMissing, OwnServiceOrMissing, Demands}
use k8cc.Distcc.Convergence.Settling.{sync-sync_settled}
use k8cc.Distcc.Convergence.Leases.{Granted, wanted, leases-Demands, leases_served}
use k8cc.Samples.{sample_library}
use k8cc.Samples.Objects.{dev, claim_until}
use k8cc.Samples.Selectors.{selector_of}
use k8cc.Samples.Deploys.{Deploys, deploying, prompt_cluster}

-- Without a downscale window.
abbrev fast : Distcc
fast = record dev { spec = record dev.spec { downscale_window = none } }

abbrev two_claims : List DistccClaim
two_claims = claim_until (some 1_500_000_000_000) ∷ claim_until (some 1_600_000_000_000) ∷ []

abbrev empty_cluster : Run Deploys
empty_cluster = record {
  world = record { time = 1_100_000_000_000; deployment = none; service = none };
  writes = [];
}

named : fast.spec.deployment_name ≢ ""
named e = ground (arith, eq_iff "dev-deploy" "")

service_named : fast.spec.service_name ≢ ""
service_named e = ground (arith, eq_iff "dev-svc" "")

six : wanted fast two_claims 3 ≡ pos 6
six = refl

both-Granted : Each two_claims (Granted (1_100_000_000_000 + 600_000_000_000))
both-Granted =
    ((1_500_000_000_000, refl, omega arith), ((1_600_000_000_000, refl, omega arith), tt))

leases_served_example :
    ((sync ⦃cluster = deploying two_claims⦄ fast empty_cluster).0.1 ≡ none)
    × HasReplicas ⦃cluster = deploying two_claims⦄ fast
        (pos 6)
        (sync ⦃cluster = deploying two_claims⦄ fast empty_cluster).1.world
leases_served_example =
    leases_served ⦃cluster = deploying two_claims⦄ ⦃prompt = prompt_cluster two_claims⦄ fast
      two_claims (selector_of none) 600_000_000_000 3 empty_cluster named service_named refl
      (OwnOrMissing.missing (status StatusReason.not_found "not found") refl refl)
      (OwnServiceOrMissing.missing (status StatusReason.not_found "not found") refl refl) refl refl
      refl refl both-Granted (omega arith) (omega arith) (omega arith)

six_demanded :
    Demands ⦃cluster = deploying two_claims⦄ ⦃prompt = prompt_cluster two_claims⦄ fast
      (pos 6)
      empty_cluster.world
six_demanded =
    leases-Demands ⦃cluster = deploying two_claims⦄ ⦃prompt = prompt_cluster two_claims⦄ fast
      two_claims (selector_of none) 600_000_000_000 3 empty_cluster refl refl refl refl both-Granted
      (omega arith) (omega arith) (omega arith)

sync-sync_settled_example :
    ((sync ⦃cluster = deploying two_claims⦄ fast empty_cluster).0.1 ≡ none)
    × InOrder ⦃cluster = deploying two_claims⦄ fast
        (pos 6)
        (sync ⦃cluster = deploying two_claims⦄ fast empty_cluster).1.world
    × (sync ⦃cluster = deploying two_claims⦄ fast
          (sync ⦃cluster = deploying two_claims⦄ fast empty_cluster).1
        ≡ (
          (false, none),
          record (sync ⦃cluster = deploying two_claims⦄ fast empty_cluster).1 {
            world = later ⦃cluster = deploying two_claims⦄ (
                later ⦃cluster = deploying two_claims⦄
                  (sync ⦃cluster = deploying two_claims⦄ fast empty_cluster).1.world);
          },
        ))
sync-sync_settled_example =
    sync-sync_settled ⦃cluster = deploying two_claims⦄ ⦃prompt = prompt_cluster two_claims⦄ fast
      (pos 6) empty_cluster fast.status named service_named refl
      (OwnOrMissing.missing (status StatusReason.not_found "not found") refl refl)
      (OwnServiceOrMissing.missing (status StatusReason.not_found "not found") refl refl)
      six_demanded
