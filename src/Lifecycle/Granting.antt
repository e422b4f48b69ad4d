-- ===== src/Lifecycle/Granting.antt =====
-- What pkg/controller/distccclaim/distccclaim_controller.go does to the life of claims.
use k8cc.Prelude.{
  ℕ, String, ◌+◌, ◌≤◌, ◌≡◌, refl, ◌∙◌, ap, subst, inl, inr, Bool, true, false, arith, if◌then◌else◌,
  Bool-cases,
}
use k8cc.Clock.{Time, add, after}
use k8cc.GoError.{Result, ok, err}
use k8cc.Types.{Distcc, DistccClaim, DistccClaimStatus}
use k8cc.Library.{Library}
use k8cc.Lease.{renew, is_expired}
use k8cc.Lease.Renewal.{renew_bounds}
use k8cc.Cluster.{Cluster, Run}
use k8cc.Claim.{with_expiration, update_expiration, settle, sync_with, sync}
use k8cc.ApiService.Remote.{Store}
use k8cc.Lifecycle.Spec.{ControllerStep, keep, drop, grant, ControllerStep-earlier}
use k8cc.Lifecycle.{Backend, run_of, lease_of, lease_state, view, Quiet}

-- No lease of a Distcc in the cache is longer than `longest`.
abbrev pub LeasesWithin : (W : Type 0) ⦃cluster : Cluster W⦄ → ℕ → Type 0
LeasesWithin W ⦃cluster⦄ longest =
    (w : W) (ns n : String) (d : Distcc)
    → cluster.cached_distcc w ns n ≡ ok d
    → (t : Time) → add t d.spec.lease_duration ≤ t + longest

module _ {W : Type 0} ⦃cluster : Cluster W⦄ ⦃store : Store W⦄ ⦃backend : Backend W⦄ where
  pub Quiet-refl : (w : W) → Quiet w w
  Quiet-refl w = (omega arith, λ ns n. refl)

  now-Quiet : (w : W) → Quiet w (cluster.now w).1
  now-Quiet w = let (low, high) = backend.now_reading w in (omega arith, backend.now_stored w)

module _ {W : Type 0} ⦃cluster : Cluster W⦄ ⦃store : Store W⦄ ⦃backend : Backend W⦄ (longest : ℕ)
    (ns n : String) where
  abbrev pub Controls : W → W → Type 0
  Controls w v =
      (backend.clock w ≤ backend.clock v)
      × ControllerStep longest (backend.clock w) (backend.clock v) (view w ns n) (view v ns n)

  pub Quiet-Controls : (w v : W) → Quiet w v → Controls w v
  Quiet-Controls w v (later, kept) = (later, keep (ap lease_of (kept ns n)))

  -- A quiet step before a step of the controller is part of it.
  Quiet-then : (w u v : W) → Quiet w u → Controls u v → Controls w v
  Quiet-then w u v (later, kept) (still, step) = (
    omega arith,
    subst (λ x. ControllerStep longest (backend.clock w) (backend.clock v) x (view v ns n))
        (ap lease_of (kept ns n)) (ControllerStep-earlier longest _ _ _ _ _ later step),
  )

  deleted-Controls :
      (space name : String) (w : W) → Controls w (cluster.delete_claim space name w).1
  deleted-Controls space name w = (
    backend.delete_later space name w,
    elim (backend.delete_stored space name w ns n) [
      | inl kept ↦ keep (ap lease_of kept)
      | inr removed ↦ drop (ap lease_of removed)
    ],
  )

  -- An update that grants a lease, behind a quiet step.
  granted-Controls :
      (claim : DistccClaim) (t : Time) (w u : W)
      → Quiet w u
      → backend.clock w ≤ t
      → t ≤ backend.clock w + longest
      → Controls w (cluster.update_claim (with_expiration claim t) u).1
  unfolding with_expiration
  granted-Controls claim t w u (before, kept) low high =
      let later = backend.update_later (with_expiration claim t) u in
      (
        omega arith,
        elim (backend.update_stored (with_expiration claim t) u ns n) [
          | inl still ↦ keep (ap lease_of (still ∙ kept ns n))
          | inr (c, put, status) ↦
              grant t
                (ap lease_of put
                  ∙ ap (λ (x : DistccClaimStatus). lease_state x.expiration_time) status)
                low (omega arith)
        ],
      )

not_expired : (from now t : Time) → from ≤ now → after now t ≡ false → from ≤ t
not_expired from now t h live = ground arith

module _ ⦃lib : Library⦄ {W : Type 0} ⦃cluster : Cluster W⦄ ⦃store : Store W⦄ ⦃backend : Backend W⦄
    (longest : ℕ) (ns n : String) where
  settle-Controls :
      (claim : DistccClaim) (t : Time) (changed : Bool) (s : Run W)
      → (changed ≡ true → t ≤ backend.clock s.world + longest)
      → Controls longest ns n s.world (settle claim (t, changed) s).1.world
  unfolding settle is_expired
  settle-Controls claim t changed s high =
      let now = (cluster.now s.world).0 in
      let u = (cluster.now s.world).1 in
      let quiet = now-Quiet s.world in
      elim (Bool-cases (after now t)) [
        | inl expired ↦
            rw expired
              (Quiet-then longest ns n s.world u _ quiet (deleted-Controls longest ns n _ _ u))
        | inr live ↦ elim (Bool-cases changed) [
          | inl set ↦
              rw (live, set)
                (granted-Controls longest ns n claim t s.world u quiet
                  (not_expired _ _ _ (backend.now_reading s.world).0 live) (high set))
          | inr unset ↦ rw (live, unset) (Quiet-Controls longest ns n s.world u quiet)
        ]
      ]

  Controls-if :
      {A : Type 0} (b : Bool) (w : W) (x y : A × Run W)
      → Controls longest ns n w x.1.world
      → Controls longest ns n w y.1.world
      → Controls longest ns n w (if b then x else y).1.world
  Controls-if true w x y a c = a
  Controls-if false w x y a c = c

  sync_with-Controls :
      (claim : DistccClaim) (r : Result Distcc) (s : Run W)
      → ((d : Distcc) → r ≡ ok d → (t : Time) → add t d.spec.lease_duration ≤ t + longest)
      → Controls longest ns n s.world (sync_with claim r s).1.world
  unfolding sync_with update_expiration
  sync_with-Controls claim (err e) s within =
      Quiet-Controls longest ns n s.world s.world (Quiet-refl s.world)
  sync_with-Controls claim (ok d) s within =
      let now = (cluster.now s.world).0 in
      let u = (cluster.now s.world).1 in
      let r = renew (add now d.spec.lease_duration) claim.status.expiration_time in
      let most = within d refl now in
      let first = (renew_bounds (add now d.spec.lease_duration) claim.status.expiration_time).0 in
      let reading = (backend.now_reading s.world).1 in
      Controls-if _ s.world _ _
        (Quiet-then longest ns n s.world u _ (now-Quiet s.world)
          (settle-Controls claim r.0 r.1 (record s { world = u }) (λ _. omega arith)))
        (Quiet-Controls longest ns n s.world s.world (Quiet-refl s.world))

  -- What a Sync does to the lease of any claim is a step of the controller, or nothing; so too where the
  -- copy of the claim that it is given is not the one that is stored.
  pub sync-Controls :
      LeasesWithin W longest
      → (claim : DistccClaim) (w : W) → Controls longest ns n w (sync claim (run_of w)).1.world
  unfolding sync
  sync-Controls within claim w =
      Controls-if _ w _ _ (Quiet-Controls longest ns n w w (Quiet-refl w)) (
        sync_with-Controls claim _ (run_of w)
          (within w claim.metadata.namespace claim.spec.distcc_name))
