-- ===== src/Lifecycle.antt =====
-- The life of a claim over the API server, where the service of pkg/apiserver/service/service.go and
-- the controller of pkg/controller/distccclaim/distccclaim_controller.go meet: a history is a
-- sequence of renewals, deletions, Syncs of any copy of a claim that a cache may hold, and steps of
-- others that leave the claims alone. `Backend` is what both rely on.
pub mod Spec
pub mod Granting
pub mod Asking
pub mod Refinement
pub mod Races
mod Tests
use k8cc.Prelude.{String, ◌≤◌, ◌≡◌, ◌⊎◌, Option, none, some, []}
use k8cc.Clock.{Time}
use k8cc.Types.{Distcc, DistccClaim}
use k8cc.Library.{Library}
use k8cc.Cluster.{Cluster, Run}
use k8cc.Claim.{sync}
use k8cc.ApiService.Remote.{Store}
use k8cc.ApiService.Answers.{Tag}
use k8cc.ApiService.Renewals.{renew_distcc_lease}
use k8cc.ApiService.{deleting_getter}
use Spec.{LeaseState, absent, asked, until}

-- The claims that the API server stores, and the time.
pub record Backend (W : Type 0) ⦃cluster : Cluster W⦄ ⦃store : Store W⦄ : Type 0 where
  pub clock : W → Time
  pub stored : W → String → String → Option DistccClaim
  -- A reading of the clock is a time at which it is read.
  pub now_reading :
      (w : W) → (clock w ≤ (cluster.now w).0) × ((cluster.now w).0 ≤ clock (cluster.now w).1)
  pub now_stored : (w : W) (ns n : String) → stored (cluster.now w).1 ns n ≡ stored w ns n
  -- A Get changes nothing.
  pub get_later : (ns n : String) (w : W) → clock w ≤ clock (store.get_claim ns n w).1
  pub get_stored :
      (ns n : String) (w : W) (ns' n' : String)
      → stored (store.get_claim ns n w).1 ns' n' ≡ stored w ns' n'
  -- A Delete removes the claim of that name or, where it fails, may remove nothing.
  pub delete_later : (ns n : String) (w : W) → clock w ≤ clock (cluster.delete_claim ns n w).1
  pub delete_stored :
      (ns n : String) (w : W) (ns' n' : String)
      → (stored (cluster.delete_claim ns n w).1 ns' n' ≡ stored w ns' n')
        ⊎ (stored (cluster.delete_claim ns n w).1 ns' n' ≡ none)
  pub deleted :
      (ns n : String) (w : W)
      → (cluster.delete_claim ns n w).0 ≡ none
      → stored (cluster.delete_claim ns n w).1 ns n ≡ none
  -- An Update or a Create stores the claim with the status that it is given, or nothing.
  pub update_later : (c : DistccClaim) (w : W) → clock w ≤ clock (cluster.update_claim c w).1
  pub update_stored :
      (c : DistccClaim) (w : W) (ns n : String)
      → (stored (cluster.update_claim c w).1 ns n ≡ stored w ns n)
        ⊎ ((c' : DistccClaim) × (stored (cluster.update_claim c w).1 ns n ≡ some c')
            × (c'.status ≡ c.status))
  pub create_later : (c : DistccClaim) (w : W) → clock w ≤ clock (store.create_claim c w).1
  pub create_stored :
      (c : DistccClaim) (w : W) (ns n : String)
      → (stored (store.create_claim c w).1 ns n ≡ stored w ns n)
        ⊎ ((c' : DistccClaim) × (stored (store.create_claim c w).1 ns n ≡ some c')
            × (c'.status ≡ c.status))

abbrev pub run_of : {W : Type 0} → W → Run W
run_of w = record { world = w; writes = [] }

-- The lease of a claim, which is the abstract view of it.
abbrev pub lease_state : Option Time → LeaseState
lease_state none = asked
lease_state (some t) = until t

abbrev pub lease_of : Option DistccClaim → LeaseState
lease_of none = absent
lease_of (some c) = lease_state c.status.expiration_time

module _ {W : Type 0} ⦃cluster : Cluster W⦄ ⦃store : Store W⦄ ⦃backend : Backend W⦄ where
  abbrev pub view : W → String → String → LeaseState
  view w ns n = lease_of (backend.stored w ns n)

  -- The claims are as before, and time may have passed.
  abbrev pub Quiet : W → W → Type 0
  Quiet w v =
      (backend.clock w ≤ backend.clock v)
      × ((ns n : String) → backend.stored v ns n ≡ backend.stored w ns n)

module _ ⦃lib : Library⦄ {W : Type 0} ⦃cluster : Cluster W⦄ ⦃store : Store W⦄
    ⦃backend : Backend W⦄ where
  -- One step: a Sync of any claim, an attempt to renew a lease, one to delete a claim, or any step
  -- that leaves the claims alone.
  pub data Step (w v : W) : Type 0 where
    controller : (claim : DistccClaim) → v ≡ (sync claim (run_of w)).1.world → Step w v
    renewal :
        (user : String) (distcc : Distcc)
        → v ≡ (renew_distcc_lease user distcc (run_of w)).1.world
        → Step w v
    deletion :
        (user : String) (tag : Tag) → v ≡ (deleting_getter user tag (run_of w)).1.world → Step w v
    elsewhere : Quiet w v → Step w v

  pub data Reach (w : W) : W → Type 0 where
    here : Reach w w
    next : {u v : W} → Reach w u → Step u v → Reach w v
