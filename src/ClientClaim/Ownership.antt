-- ===== src/ClientClaim/Ownership.antt =====
-- What `Sync` of pkg/controller/distccclientclaim/distccclientclaim_controller.go writes.
use k8cc.Prelude.{◌≡◌, refl, Bool, true, false, Option, none, some, if◌then◌else◌}
use k8cc.Clock.{Time}
use k8cc.GoError.{Result, ok, err}
use k8cc.Kube.{ObjectMeta, Deployment, Service}
use k8cc.Types.{DistccClient, DistccClientClaim}
use k8cc.Library.{Library}
use k8cc.Lease.Renewal.{NotProlonged, renew_bounds}
use k8cc.Cluster.{
  Cluster, Run, Write, created_deployment, created_service, deleted_client_claim,
  updated_client_claim,
}
use k8cc.Cluster.Writes.{Adds, Adds-refl, Adds-trans, Adds-if, Adds-write, Adds-read}
use k8cc.ClientClaim.Objects.{new_deploy, new_service}
use k8cc.ClientClaim.{
  ComponentsChange, Phase, with_expiration, check_deploy, check_service, deploy_with, sync_deploy,
  service_with, sync_service, after_service, after_deploy, settle, sync_with, sync,
}

-- The claim has the same metadata and spec, and an expiration not behind the one that was set.
abbrev pub IsKept : DistccClientClaim → DistccClientClaim → Type 0
IsKept claim c =
    (c.metadata ≡ claim.metadata)
    × (c.spec ≡ claim.spec)
    × (t : Time) × (c.status.expiration_time ≡ some t)
    × NotProlonged claim.status.expiration_time t

IsKept-if :
    (claim : DistccClientClaim) (b : Bool) (x y : Phase)
    → IsKept claim x.0
    → IsKept claim y.0
    → IsKept claim (if b then x else y).0
IsKept-if claim true x y a b = a
IsKept-if claim false x y a b = b

module _ ⦃lib : Library⦄ where
  abbrev pub IsOwned : DistccClientClaim → ObjectMeta → Type 0
  IsOwned claim object =
      (lib.is_controlled_by object claim.metadata ≡ true)
      × (object.namespace ≡ claim.metadata.namespace)

  -- The creation of an object that the claim controls, in its namespace, the deletion of the claim, or
  -- an update of its status.
  abbrev pub IsOwnWrite : DistccClientClaim → Write → Type 0
  IsOwnWrite claim (created_deployment d) = IsOwned claim d.metadata
  IsOwnWrite claim (created_service s) = IsOwned claim s.metadata
  IsOwnWrite claim (deleted_client_claim namespace name) =
      (namespace ≡ claim.metadata.namespace) × (name ≡ claim.metadata.name)
  IsOwnWrite claim (updated_client_claim c) = IsKept claim c
  IsOwnWrite claim _ = ⊥

  new_deploy-IsOwned :
      (claim c : DistccClientClaim) (client : DistccClient)
      → c.metadata ≡ claim.metadata
      → IsOwned claim (new_deploy c client).metadata
  unfolding new_deploy
  new_deploy-IsOwned claim c client same =
      rw (← same) (lib.is_controlled_by_new (new_deploy c client).metadata c.metadata _ refl, refl)

  new_service-IsOwned :
      (claim c : DistccClientClaim) (client : DistccClient)
      → c.metadata ≡ claim.metadata
      → IsOwned claim (new_service c client).metadata
  unfolding new_service
  new_service-IsOwned claim c client same =
      rw (← same) (lib.is_controlled_by_new (new_service c client).metadata c.metadata _ refl, refl)

  check_deploy-IsKept :
      (claim c : DistccClientClaim) (r : Result Deployment)
      → IsKept claim c
      → IsKept claim (check_deploy c r).0
  unfolding check_deploy
  check_deploy-IsKept claim c (err e) kept = kept
  check_deploy-IsKept claim c (ok d) kept =
      IsKept-if claim (lib.is_controlled_by d.metadata c.metadata) _ _ kept kept

  check_service-IsKept :
      (claim c : DistccClientClaim) (r : Result Service)
      → IsKept claim c
      → IsKept claim (check_service c r).0
  unfolding check_service
  check_service-IsKept claim c (err e) kept = kept
  check_service-IsKept claim c (ok d) kept =
      IsKept-if claim (lib.is_controlled_by d.metadata c.metadata) _ _ kept kept

module _ ⦃lib : Library⦄ {W : Type 0} ⦃cluster : Cluster W⦄ (claim : DistccClientClaim) where
  -- A phase adds own writes, and keeps the claim.
  abbrev KeepsOwn : Run W → Phase × Run W → Type 0
  KeepsOwn s r = Adds (IsOwnWrite claim) s r.1 × IsKept claim r.0.0

  deploy_with-KeepsOwn :
      (c : DistccClientClaim) (client : DistccClient) (r : Result (Option Deployment)) (s : Run W)
      → IsKept claim c
      → KeepsOwn s (deploy_with c client r s)
  unfolding deploy_with
  deploy_with-KeepsOwn c client (err e) s kept = (Adds-refl s, kept)
  deploy_with-KeepsOwn c client (ok (some d)) s kept =
      (Adds-refl s, check_deploy-IsKept claim c (ok d) kept)
  deploy_with-KeepsOwn c client (ok none) s kept = (
    Adds-write (created_deployment (new_deploy c client)) (cluster.create_deployment _) s
        (new_deploy-IsOwned claim c client kept.0),
    check_deploy-IsKept claim c _ kept,
  )

  service_with-KeepsOwn :
      (c : DistccClientClaim) (client : DistccClient) (r : Result (Option Service)) (s : Run W)
      → IsKept claim c
      → KeepsOwn s (service_with c client r s)
  unfolding service_with
  service_with-KeepsOwn c client (err e) s kept = (Adds-refl s, kept)
  service_with-KeepsOwn c client (ok (some d)) s kept =
      (Adds-refl s, check_service-IsKept claim c (ok d) kept)
  service_with-KeepsOwn c client (ok none) s kept = (
    Adds-write (created_service (new_service c client)) (cluster.create_service _) s
        (new_service-IsOwned claim c client kept.0),
    check_service-IsKept claim c _ kept,
  )

  sync_deploy-KeepsOwn :
      (c : DistccClientClaim) (client : DistccClient) (s : Run W)
      → IsKept claim c
      → KeepsOwn s (sync_deploy c client s)
  unfolding sync_deploy
  sync_deploy-KeepsOwn c client s kept = deploy_with-KeepsOwn c client _ s kept

  sync_service-KeepsOwn :
      (c : DistccClientClaim) (client : DistccClient) (s : Run W)
      → IsKept claim c
      → KeepsOwn s (sync_service c client s)
  unfolding sync_service
  sync_service-KeepsOwn c client s kept = service_with-KeepsOwn c client _ s kept

  after_service-Adds :
      (changed : ComponentsChange) (p : Phase) (s : Run W)
      → IsKept claim p.0
      → Adds (IsOwnWrite claim) s (after_service changed p s).1
  unfolding after_service
  after_service-Adds changed (c, linked, some e) s kept = Adds-refl s
  after_service-Adds changed (c, linked, none) s kept =
      Adds-if _ _ _ (Adds-write (updated_client_claim c) (cluster.update_client_claim c) s kept)
        (Adds-refl s)

  after_deploy-Adds :
      (client : DistccClient) (changed : ComponentsChange) (p : Phase) (s : Run W)
      → IsKept claim p.0
      → Adds (IsOwnWrite claim) s (after_deploy client changed p s).1
  unfolding after_deploy
  after_deploy-Adds client changed (c, linked, some e) s kept = Adds-refl s
  after_deploy-Adds client changed (c, linked, none) s kept =
      let (added, still) = sync_service-KeepsOwn c client s kept in
      Adds-trans added (
        after_service-Adds (record changed { deploy = linked }) (sync_service c client s).0 _ still)

  settle-Adds :
      (client : DistccClient) (t : Time) (changed : Bool) (s : Run W)
      → NotProlonged claim.status.expiration_time t
      → Adds (IsOwnWrite claim) s (settle claim client (t, changed) s).1
  unfolding settle
  settle-Adds client t changed s h =
      let clock = Adds-read cluster.now s in
      let later : Run W = record { world = (cluster.now s.world).1; writes = s.writes } in
      let phase =
        sync_deploy-KeepsOwn (with_expiration claim t) client later (refl, refl, t, refl, h) in
      Adds-if _ _ _
        (Adds-trans clock (
          Adds-write (deleted_client_claim claim.metadata.namespace claim.metadata.name)
            (cluster.delete_client_claim _ _) _ (refl, refl)))
        (Adds-trans clock (
          Adds-trans phase.0 (
            after_deploy-Adds client
              (record { deploy = false; expiration = changed; service = false }) _ _ phase.1)))

  sync_with-Adds :
      (r : Result DistccClient) (s : Run W) → Adds (IsOwnWrite claim) s (sync_with claim r s).1
  unfolding sync_with
  sync_with-Adds (err e) s = Adds-if _ _ _ (Adds-refl s) (Adds-refl s)
  sync_with-Adds (ok client) s =
      Adds-trans (Adds-read cluster.now s)
        (settle-Adds client _ _ _ (renew_bounds _ claim.status.expiration_time).1)

  -- Whatever the caches hold and whichever calls fail, a Sync writes nothing but this: it creates
  -- deployments and services that the claim controls, in its namespace; it deletes the claim; or it
  -- updates the claim, leaves the metadata and the spec, and sets an expiration that is not behind
  -- the one that was set.
  pub client_sync-IsOwnWrite : (s : Run W) → Adds (IsOwnWrite claim) s (sync claim s).1
  unfolding sync
  client_sync-IsOwnWrite s = Adds-if _ _ _ (Adds-refl s) (
      sync_with-Adds
        (cluster.cached_client s.world claim.metadata.namespace claim.spec.distcc_client_name) s)
