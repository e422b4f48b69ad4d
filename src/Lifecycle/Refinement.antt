-- ===== src/Lifecycle/Refinement.antt =====
-- The controller and the service implement the life of a claim that `Spec` describes.
use k8cc.Prelude.{ℕ, String, ◌+◌, ◌≤◌, ◌≡◌, ◌∙◌, ◌⊎◌, inl, inr, ap, sym, subst, none, some}
use k8cc.Clock.{Time}
use k8cc.Types.{DistccClaim}
use k8cc.Library.{Library}
use k8cc.Cluster.{Cluster}
use k8cc.ApiService.Remote.{Store}
use k8cc.Lifecycle.Spec.{
  until, IsBounded, ControllerStep, ServiceStep, ControllerStep-IsBounded, ServiceStep-IsBounded,
}
use k8cc.Lifecycle.Granting.{LeasesWithin, Controls, Quiet-Controls, sync-Controls}
use k8cc.Lifecycle.Asking.{Serves, renew_distcc_lease-Serves, deleting_getter-Serves}
use k8cc.Lifecycle.{
  Backend, view, lease_of, lease_state, Step, controller, renewal, deletion, elsewhere, Reach, here,
  next,
}

module _ ⦃lib : Library⦄ {W : Type 0} ⦃cluster : Cluster W⦄ ⦃store : Store W⦄ ⦃backend : Backend W⦄
    (longest : ℕ) (within : LeasesWithin W longest) (ns n : String) where
  -- Each step of the system is a step of the specification on the lease of each claim: of the
  -- controller, which grants only leases that have not ended and that are no longer than the longest
  -- lease of a Distcc from now, or of the service, which grants none.
  pub Step-refines :
      {w v : W}
      → Step w v
      → (backend.clock w ≤ backend.clock v)
        × (ControllerStep longest (backend.clock w) (backend.clock v) (view w ns n) (view v ns n)
            ⊎ ServiceStep (view w ns n) (view v ns n))
  Step-refines {w} {v} (controller claim e) =
      let (later, step) =
        subst (Controls longest ns n w) (sym e) (sync-Controls longest ns n within claim w) in
      (later, inl step)
  Step-refines {w} {v} (renewal user distcc e) =
      let (later, step) =
        subst (Serves ns n w) (sym e) (renew_distcc_lease-Serves ns n user distcc w) in
      (later, inr step)
  Step-refines {w} {v} (deletion user tag e) =
      let (later, step) = subst (Serves ns n w) (sym e) (deleting_getter-Serves ns n user tag w) in
      (later, inr step)
  Step-refines {w} {v} (elsewhere quiet) =
      let (later, step) = Quiet-Controls longest ns n w v quiet in (later, inl step)

  Step-IsBounded :
      {w v : W}
      → Step w v
      → IsBounded longest (backend.clock w) (view w ns n)
      → IsBounded longest (backend.clock v) (view v ns n)
  Step-IsBounded st b =
      let (later, steps) = Step-refines st in
      elim steps [
        | inl step ↦ ControllerStep-IsBounded longest _ _ _ _ later step b
        | inr step ↦ ServiceStep-IsBounded longest _ _ _ _ later step b
      ]

  Reach-IsBounded :
      {w v : W}
      → IsBounded longest (backend.clock w) (view w ns n)
      → Reach w v
      → IsBounded longest (backend.clock v) (view v ns n)
  Reach-IsBounded b here = b
  Reach-IsBounded b (next r st) = Step-IsBounded st (Reach-IsBounded b r)

  -- Whatever the controller and the service do, in any order, on copies of claims of any age and with
  -- calls that fail: from a world without the claim, its lease never goes beyond the longest lease of
  -- a Distcc from now.
  pub lease_bounded :
      {w v : W} {c : DistccClaim} {t : Time}
      → backend.stored w ns n ≡ none
      → Reach w v
      → backend.stored v ns n ≡ some c
      → c.status.expiration_time ≡ some t
      → t ≤ backend.clock v + longest
  lease_bounded {w} {v} {c} {t} fresh r stored set =
      let start : IsBounded longest (backend.clock w) (view w ns n) =
        subst (IsBounded longest (backend.clock w)) (sym (ap lease_of fresh)) tt in
      let granted : view v ns n ≡ until t = ap lease_of stored ∙ ap lease_state set in
      subst (IsBounded longest (backend.clock v)) granted (Reach-IsBounded start r)
