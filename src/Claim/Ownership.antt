-- ===== src/Claim/Ownership.antt =====
-- What `Sync` of pkg/controller/distccclaim/distccclaim_controller.go writes, and when it refuses.
use k8cc.Prelude.{◌≡◌, refl, Bool, some}
use k8cc.Clock.{Time}
use k8cc.GoError.{Result, ok, err}
use k8cc.Types.{Distcc, DistccClaim}
use k8cc.Library.{Library}
use k8cc.Lease.Renewal.{NotProlonged, renew_bounds}
use k8cc.Cluster.{Cluster, Run, Write, deleted_claim, updated_claim}
use k8cc.Cluster.Writes.{Adds, Adds-refl, Adds-trans, Adds-if, Adds-write, Adds-read}
use k8cc.Claim.{with_expiration, update_expiration, settle, sync_with, sync}

-- The deletion of this claim, or an update of it that sets an expiration, not behind the one that
-- was set, and leaves the metadata and the spec.
abbrev pub IsClaimWrite : DistccClaim → Write → Type 0
IsClaimWrite claim (deleted_claim namespace name) =
    (namespace ≡ claim.metadata.namespace) × (name ≡ claim.metadata.name)
IsClaimWrite claim (updated_claim c) =
    (c.metadata ≡ claim.metadata)
    × (c.spec ≡ claim.spec)
    × (t : Time) × (c.status.expiration_time ≡ some t)
    × NotProlonged claim.status.expiration_time t
IsClaimWrite claim _ = ⊥

module _ ⦃lib : Library⦄ {W : Type 0} ⦃cluster : Cluster W⦄ (claim : DistccClaim) where
  settle-Adds :
      (t : Time) (changed : Bool) (s : Run W)
      → NotProlonged claim.status.expiration_time t
      → Adds (IsClaimWrite claim) s (settle claim (t, changed) s).1
  unfolding settle
  settle-Adds t changed s h =
      let clock = Adds-read cluster.now s in
      let copy = with_expiration claim t in
      Adds-if _ _ _
        (Adds-trans clock (
          Adds-write (deleted_claim claim.metadata.namespace claim.metadata.name)
            (cluster.delete_claim _ _) _ (refl, refl)))
        (Adds-if changed _ _
          (Adds-trans clock (
            Adds-write (updated_claim copy) (cluster.update_claim copy) _ (refl, refl, t, refl, h)))
          clock)

  sync_with-Adds :
      (r : Result Distcc) (s : Run W) → Adds (IsClaimWrite claim) s (sync_with claim r s).1
  unfolding sync_with
  sync_with-Adds (err e) s = Adds-refl s
  sync_with-Adds (ok distcc) s =
      let (r, t) = update_expiration claim distcc s in
      Adds-if _ _ _
        (Adds-trans (Adds-read cluster.now s)
          (settle-Adds r.0 r.1 t (renew_bounds _ claim.status.expiration_time).1))
        (Adds-refl s)

  -- Whatever the caches hold and whichever calls fail, a Sync writes nothing but the deletion of its
  -- claim or an update of it, which sets an expiration, not behind the one that was set, and leaves
  -- the metadata and the spec as they are.
  pub sync-IsClaimWrite : (s : Run W) → Adds (IsClaimWrite claim) s (sync claim s).1
  unfolding sync
  sync-IsClaimWrite s = Adds-if _ _ _ (Adds-refl s) (
      sync_with-Adds (cluster.cached_distcc s.world claim.metadata.namespace claim.spec.distcc_name)
        s)
