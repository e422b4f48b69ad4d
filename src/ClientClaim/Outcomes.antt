-- ===== src/ClientClaim/Outcomes.antt =====
-- The outcomes of `Sync` of pkg/controller/distccclientclaim/distccclientclaim_controller.go.
use k8cc.Prelude.{◌≤◌, ◌<◌, ◌≡◌, ◌≢◌, true, false, none, some, [], ◌∷◌, ◌++◌, lt→ltb, le→ltb_false}
use k8cc.Prelude.Text.{◌<>◌, str_eq_ne, str_eq_refl}
use k8cc.Clock.{Time, add}
use k8cc.GoError.{GoError, ok, err}
use k8cc.Errors.{transient_or_nil, is_ambiguous_reference}
use k8cc.Kube.{LocalObjectReference, Deployment, Service}
use k8cc.Types.{DistccClient, DistccClientClaim}
use k8cc.Library.{Library}
use k8cc.Lease.Renewal.{renew_within}
use k8cc.Cluster.{Cluster, Run, deleted_client_claim}
use k8cc.Refs.{deployment_lister, service_lister, get_object_from_reference_or_selector}
use k8cc.Refs.Resolution.{reference_first}
use k8cc.ClientClaim.{link, warning, user_selector, settle, sync}

module _ ⦃lib : Library⦄ {W : Type 0} ⦃cluster : Cluster W⦄ where
  -- The client that the claim names is in the cache.
  abbrev pub HasClient : DistccClientClaim → W → DistccClient → Type 0
  HasClient claim w client =
      (claim.spec.distcc_client_name ≢ "")
      × (cluster.cached_client w claim.metadata.namespace claim.spec.distcc_client_name ≡ ok client)

  -- The limit of the expiration, at the first reading of the clock.
  abbrev pub limit : DistccClient → Run W → Time
  limit client s = add (cluster.now s.world).0 client.spec.lease_duration

  -- The second reading of the clock, and the world behind it.
  abbrev pub checked : Run W → Time × W
  checked s = cluster.now (cluster.now s.world).1

  unfoldable pub deleting : DistccClientClaim → Run W → Run W
  deleting claim s = record {
    world =
        (cluster.delete_client_claim claim.metadata.namespace claim.metadata.name (checked s).1).1;
    writes = s.writes ++ deleted_client_claim claim.metadata.namespace claim.metadata.name ∷ [];
  }

  -- The expiration is set, within the lease.
  abbrev pub IsLeased : DistccClientClaim → DistccClient → Time → Run W → Type 0
  IsLeased claim client t s =
      HasClient claim s.world client
      × (claim.status.expiration_time ≡ some t)
      × (t ≤ limit client s)

  -- The deployment that the claim refers to is in the cache, and the claim controls it.
  abbrev pub HasDeployment : DistccClientClaim → W → Deployment → Type 0
  HasDeployment claim w d =
      (claim.status.deployment ≡ some (record { name = d.metadata.name }))
      × (d.metadata.name ≢ "")
      × (cluster.cached_deployment w claim.metadata.namespace d.metadata.name ≡ ok d)
      × (lib.is_controlled_by d.metadata claim.metadata ≡ true)

  abbrev pub HasService : DistccClientClaim → W → Service → Type 0
  HasService claim w d =
      (claim.status.service ≡ some (record { name = d.metadata.name }))
      × (d.metadata.name ≢ "")
      × (cluster.cached_service w claim.metadata.namespace d.metadata.name ≡ ok d)
      × (lib.is_controlled_by d.metadata claim.metadata ≡ true)

  sync_leased :
      (claim : DistccClientClaim) (client : DistccClient) (t : Time) (s : Run W)
      → IsLeased claim client t s
      → sync claim s ≡ settle claim client (t, false) (record s { world = (cluster.now s.world).1 })
  unfolding sync
  sync_leased claim client t s leased =
      let ((named, has), set, within) = leased in
      simp (
        str_eq_ne claim.spec.distcc_client_name "" named,
        has,
        set,
        renew_within (limit client s) t within,
      )

  -- A claim whose expiration is within the lease and has passed is deleted, and that is all: nothing
  -- is created for it. The error of the deletion is reported as transient.
  pub client_claim_expired :
      (claim : DistccClientClaim) (client : DistccClient) (t : Time) (s : Run W)
      → IsLeased claim client t s
      → t < (checked s).0
      → sync claim s ≡ (
        (
          false,
          transient_or_nil
              (cluster.delete_client_claim claim.metadata.namespace claim.metadata.name
                (checked s).1).0,
        ),
        deleting claim s,
      )
  unfolding settle deleting
  client_claim_expired claim client t s leased gone =
      rw (sync_leased claim client t s leased) (simp (lt→ltb t (checked s).0 gone))

  -- A live claim is left as it is, without any write, once its deployment and its service are in the
  -- caches under the names in its status and are controlled by it.
  pub client_claim_settled :
      (claim : DistccClientClaim) (client : DistccClient) (t : Time) (d : Deployment) (v : Service)
      (s : Run W)
      → IsLeased claim client t s
      → (checked s).0 ≤ t
      → HasDeployment claim (checked s).1 d
      → HasService claim (checked s).1 v
      → sync claim s ≡ ((false, none), record s { world = (checked s).1 })
  unfolding settle link
  client_claim_settled claim client t d v s leased live deployed served =
      let reference : LocalObjectReference = record { name = d.metadata.name } in
      let service_reference : LocalObjectReference = record { name = v.metadata.name } in
      let (linked, named, cached, controlled) = deployed in
      let (linked_service, named_service, cached_service, controlled_service) = served in
      rw (sync_leased claim client t s leased) (
        simp (
          le→ltb_false t (checked s).0 live,
          linked,
          linked_service,
          reference_first (deployment_lister (checked s).1) claim.metadata.namespace reference
              (user_selector claim client) d cached,
          reference_first (service_lister (checked s).1) claim.metadata.namespace service_reference
              (user_selector claim client) v cached_service,
          controlled,
          controlled_service,
          str_eq_ne d.metadata.name "" named,
          str_eq_refl d.metadata.name,
          str_eq_ne v.metadata.name "" named_service,
          str_eq_refl v.metadata.name,
        ))

  -- If several deployments carry the labels of the user and the claim refers to none that is in the
  -- cache, a live claim gets no objects: the Sync ends with a warning for the user.
  pub ambiguous_deployments :
      (claim : DistccClientClaim) (client : DistccClient) (t : Time) (e : GoError) (s : Run W)
      → IsLeased claim client t s
      → (checked s).0 ≤ t
      → get_object_from_reference_or_selector
          (deployment_lister (checked s).1)
          claim.metadata.namespace
          claim.status.deployment
          (user_selector claim client)
        ≡ err e
      → is_ambiguous_reference e ≡ true
      → sync claim s ≡ (
        (
          false,
          some (
              warning "ErrAmbiguousMatch"
                ("Deployment" <> (" ref resolution failed: " <> lib.error_text e))),
        ),
        record s { world = (checked s).1 },
      )
  unfolding settle
  ambiguous_deployments claim client t e s leased live several ambiguous =
      rw (sync_leased claim client t s leased)
        (simp (le→ltb_false t (checked s).0 live, several, ambiguous))
