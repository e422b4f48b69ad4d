-- ===== src/Lifecycle/Races.antt =====
-- What a Sync of an old copy of a claim does to a lease that has been renewed since.
use k8cc.Prelude.{◌≤◌, ◌<◌, ◌≡◌, none, some}
use k8cc.Clock.{Time}
use k8cc.Types.{Distcc, DistccClaim}
use k8cc.Library.{Library}
use k8cc.Cluster.{Cluster}
use k8cc.Claim.{sync}
use k8cc.Claim.Outcomes.{Matches, HasDistcc, limit, checked, deleting, sync_expired}
use k8cc.ApiService.Remote.{Store}
use k8cc.Lifecycle.{Backend, run_of}

module _ ⦃lib : Library⦄ {W : Type 0} ⦃cluster : Cluster W⦄ ⦃store : Store W⦄
    ⦃backend : Backend W⦄ where
  -- Whatever the API server stores: a Sync of a copy that has expired, and whose Distcc is cached
  -- and matches it, deletes the claim of that name, if its Delete succeeds. So it deletes a claim
  -- that a user has renewed since the copy was cached.
  pub renewal_lost :
      (old : DistccClaim) (distcc : Distcc) (t : Time) (w : W)
      → HasDistcc old w distcc
      → Matches distcc old
      → old.status.expiration_time ≡ some t
      → t ≤ limit distcc (run_of w)
      → t < (checked (run_of w)).0
      → (cluster.delete_claim old.metadata.namespace old.metadata.name (checked (run_of w)).1).0
        ≡ none
      → backend.stored (sync old (run_of w)).1.world old.metadata.namespace old.metadata.name ≡ none
  unfolding deleting
  renewal_lost old distcc t w has matches set within expired succeeded =
      rw (sync_expired old distcc (run_of w) t has matches set within expired)
        (backend.deleted old.metadata.namespace old.metadata.name (checked (run_of w)).1 succeeded)
