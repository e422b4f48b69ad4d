-- ===== src/Lifecycle/Asking.antt =====
-- What pkg/apiserver/service/service.go does to the life of claims.
use k8cc.Prelude.{
  String, ◌≤◌, ◌∙◌, ap, inl, inr, Bool, true, false, Option, none, some, arith, if◌then◌else◌,
}
use k8cc.Clock.{Time}
use k8cc.GoError.{Result, ok, err}
use k8cc.Types.{Distcc, DistccClaim, DistccClaimStatus}
use k8cc.Library.{Library}
use k8cc.Cluster.{Cluster, Run, read}
use k8cc.ApiService.Remote.{Store}
use k8cc.ApiService.Answers.{Tag, without_expiration}
use k8cc.ApiService.Claims.{make_claim_name, new_distcc_claim}
use k8cc.ApiService.Renewals.{claim_or_create, clear_expiration, ask_renewal, renew_distcc_lease}
use k8cc.ApiService.{deleting_getter}
use k8cc.Lifecycle.Spec.{ServiceStep, ServiceStep-trans, same, ask, gone}
use k8cc.Lifecycle.{Backend, run_of, lease_of, lease_state, view, Quiet}
use k8cc.Lifecycle.Granting.{Quiet-refl}

module _ {W : Type 0} ⦃cluster : Cluster W⦄ ⦃store : Store W⦄ ⦃backend : Backend W⦄
    (ns n : String) where
  abbrev pub Serves : W → W → Type 0
  Serves w v = (backend.clock w ≤ backend.clock v) × ServiceStep (view w ns n) (view v ns n)

  Quiet-Serves : (w v : W) → Quiet w v → Serves w v
  Quiet-Serves w v (later, kept) = (later, same (ap lease_of (kept ns n)))

  Serves-trans : (w u v : W) → Serves w u → Serves u v → Serves w v
  Serves-trans w u v (a, x) (b, y) = (omega arith, ServiceStep-trans _ _ _ x y)

module _ ⦃lib : Library⦄ {W : Type 0} ⦃cluster : Cluster W⦄ ⦃store : Store W⦄ ⦃backend : Backend W⦄
    (ns n : String) where
  Serves-if :
      {A : Type 0} (b : Bool) (w : W) (x y : A × Run W)
      → Serves ns n w x.1.world
      → Serves ns n w y.1.world
      → Serves ns n w (if b then x else y).1.world
  Serves-if true w x y a c = a
  Serves-if false w x y a c = c

  claim_or_create-Serves :
      (user : String) (distcc : Distcc) (r : Result DistccClaim) (s : Run W)
      → Serves ns n s.world (claim_or_create user distcc r s).1.world
  unfolding claim_or_create new_distcc_claim
  claim_or_create-Serves user distcc (ok claim) s =
      Quiet-Serves ns n s.world s.world (Quiet-refl s.world)
  claim_or_create-Serves user distcc (err e) s =
      let new = new_distcc_claim user distcc in
      Serves-if _ s.world _ _
        (
          backend.create_later new s.world,
          elim (backend.create_stored new s.world ns n) [
            | inl kept ↦ same (ap lease_of kept)
            | inr (c, put, status) ↦ ask (
                ap lease_of put
                ∙ ap (λ (x : DistccClaimStatus). lease_state x.expiration_time) status)
          ],
        )
        (Quiet-Serves ns n s.world s.world (Quiet-refl s.world))

  clear_expiration-Serves :
      (claim : DistccClaim) (t : Option Time) (s : Run W)
      → Serves ns n s.world (clear_expiration claim t s).1.world
  unfolding clear_expiration
  clear_expiration-Serves claim none s = Quiet-Serves ns n s.world s.world (Quiet-refl s.world)
  clear_expiration-Serves claim (some t) s =
      let cleared = without_expiration claim in
      (
        backend.update_later cleared s.world,
        elim (backend.update_stored cleared s.world ns n) [
          | inl kept ↦ same (ap lease_of kept)
          | inr (c, put, status) ↦ ask (
              ap lease_of put
              ∙ ap (λ (x : DistccClaimStatus). lease_state x.expiration_time) status)
        ],
      )

  ask_renewal-Serves :
      (r : Result DistccClaim) (s : Run W) → Serves ns n s.world (ask_renewal r s).1.world
  unfolding ask_renewal
  ask_renewal-Serves (err e) s = Quiet-Serves ns n s.world s.world (Quiet-refl s.world)
  ask_renewal-Serves (ok claim) s = clear_expiration-Serves claim claim.status.expiration_time s

  -- What an attempt to renew a lease does to the lease of any claim is a step of the service: it asks
  -- for a lease and never grants one.
  pub renew_distcc_lease-Serves :
      (user : String) (distcc : Distcc) (w : W)
      → Serves ns n w (renew_distcc_lease user distcc (run_of w)).1.world
  unfolding renew_distcc_lease
  renew_distcc_lease-Serves user distcc w =
      let get =
        store.get_claim distcc.metadata.namespace (make_claim_name user distcc.metadata.name) in
      let (got, t) = read get (run_of w) in
      let (r, u) = claim_or_create user distcc got t in
      let (e, v) = ask_renewal r u in
      Serves-trans ns n w t.world v.world
        (Quiet-Serves ns n w t.world (backend.get_later _ _ w, backend.get_stored _ _ w))
        (Serves-trans ns n t.world u.world v.world (claim_or_create-Serves user distcc got t)
          (ask_renewal-Serves r u))

  -- So is what a deletion does.
  pub deleting_getter-Serves :
      (user : String) (tag : Tag) (w : W)
      → Serves ns n w (deleting_getter user tag (run_of w)).1.world
  unfolding deleting_getter
  deleting_getter-Serves user tag w = (
    backend.delete_later _ _ w,
    elim (backend.delete_stored _ _ w ns n) [
      | inl kept ↦ same (ap lease_of kept)
      | inr removed ↦ gone (ap lease_of removed)
    ],
  )
