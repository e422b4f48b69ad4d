-- ===== src/ClientClaim/Serving.antt =====
-- The first Sync of a client claim, in pkg/controller/distccclientclaim/distccclientclaim_controller.go,
-- and the one after it.
use k8cc.Prelude.{
  ◌≤◌, ◌≡◌, ◌≢◌, true, false, none, some, List, [], ◌∷◌, ◌++◌, append_assoc, arith, ap, ◌∙◌,
  le→ltb_false,
}
use k8cc.Prelude.Text.{str_eq_ne}
use k8cc.Clock.{truncate, truncate_bounds}
use k8cc.GoError.{ok}
use k8cc.Kube.{Deployment, Service}
use k8cc.Types.{DistccClient, DistccClientClaim, DistccClientClaimStatus}
use k8cc.Library.{Library}
use k8cc.Lease.Renewal.{renew_missing}
use k8cc.Cluster.{Cluster, Run, Write, created_deployment, created_service, updated_client_claim}
use k8cc.Refs.{get_object_from_reference_or_selector}
use k8cc.ClientClaim.{user_selector, link, sync, with_expiration, with_deployment, with_service}
use k8cc.ClientClaim.Objects.{new_deploy, new_service}
use k8cc.ClientClaim.Outcomes.{HasClient, limit, checked, client_claim_settled}

-- The claim as the API makes it: its status is empty.
abbrev pub IsFresh : DistccClientClaim → Type 0
IsFresh claim =
    (claim.status.expiration_time ≡ none)
    × (claim.status.deployment ≡ none)
    × (claim.status.service ≡ none)

three_appended :
    (ws : List Write) (a b c : Write) → ((ws ++ a ∷ []) ++ b ∷ []) ++ c ∷ [] ≡ ws ++ a ∷ b ∷ c ∷ []
three_appended ws a b c =
    ap (λ (l : List Write). l ++ c ∷ []) (append_assoc ws (a ∷ []) (b ∷ []))
    ∙ append_assoc ws (a ∷ b ∷ []) (c ∷ [])

module _ ⦃lib : Library⦄ {W : Type 0} ⦃cluster : Cluster W⦄ (claim : DistccClientClaim)
    (client : DistccClient) (d : Deployment) (v : Service) where
  -- The claim with a whole lease, and with its objects.
  abbrev pub served : Run W → DistccClientClaim
  served s =
      with_service
        (with_deployment (with_expiration claim (truncate (limit client s)))
          (some (record { name = d.metadata.name })))
        (some (record { name = v.metadata.name }))

  -- The worlds behind the three writes.
  abbrev pub deploying : Run W → W
  deploying s = (cluster.create_deployment (new_deploy claim client) (checked s).1).1

  abbrev pub serving : Run W → W
  serving s = (cluster.create_service (new_service claim client) (deploying s)).1

  abbrev pub recording : Run W → W
  recording s = (cluster.update_client_claim (served s) (serving s)).1

  -- No deployment has the labels of the user, and the creation answers with one that has a name and
  -- is controlled by the claim; the same for the service.
  abbrev pub Deploys : Run W → Type 0
  Deploys s =
      (cluster.cached_deployments (checked s).1 claim.metadata.namespace
          (user_selector claim client)
        ≡ ok [])
      × ((cluster.create_deployment (new_deploy claim client) (checked s).1).0 ≡ ok d)
      × (d.metadata.name ≢ "")
      × (lib.is_controlled_by d.metadata claim.metadata ≡ true)

  abbrev pub Serves : Run W → Type 0
  Serves s =
      (cluster.cached_services (deploying s) claim.metadata.namespace (user_selector claim client)
        ≡ ok [])
      × ((cluster.create_service (new_service claim client) (deploying s)).0 ≡ ok v)
      × (v.metadata.name ≢ "")
      × (lib.is_controlled_by v.metadata claim.metadata ≡ true)

  -- The three writes of the first Sync.
  abbrev pub first_writes : Run W → List Write
  first_writes s =
      created_deployment (new_deploy claim client)
      ∷ created_service (new_service claim client)
      ∷ updated_client_claim (served s)
      ∷ []

  pub fresh_claim_served :
      (s : Run W) (stored : DistccClientClaim)
      → HasClient claim s.world client
      → IsFresh claim
      → (checked s).0 ≤ truncate (limit client s)
      → Deploys s
      → Serves s
      → (cluster.update_client_claim (served s) (serving s)).0 ≡ ok stored
      → sync claim s
        ≡ ((true, none), record { world = recording s; writes = s.writes ++ first_writes s })
  unfolding sync get_object_from_reference_or_selector link new_deploy new_service
  fresh_claim_served s stored (named, has) (unset, undeployed, unserved) live deploys serves
        updated =
      let (alone, created, given, controlled) = deploys in
      let (single, answered, called, owned) = serves in
      simp
        (
          str_eq_ne claim.spec.distcc_client_name "" named,
          has,
          unset,
          undeployed,
          unserved,
          renew_missing (limit client s),
          le→ltb_false (truncate (limit client s)) (checked s).0 live,
          alone,
          created,
          controlled,
          single,
          answered,
          owned,
          str_eq_ne d.metadata.name "" given,
          str_eq_ne v.metadata.name "" called,
          updated,
        )
        (ap (λ (ws : List Write). ((true, none), record { world = recording s; writes = ws }))
          (three_appended s.writes _ _ _))

  -- The caches of a later run have the client and both objects, and the lease still runs.
  abbrev pub CaughtUp : Run W → DistccClientClaim → Run W → Type 0
  CaughtUp s stored t =
      HasClient stored t.world client
      × (cluster.cached_deployment (checked t).1 stored.metadata.namespace d.metadata.name ≡ ok d)
      × (lib.is_controlled_by d.metadata stored.metadata ≡ true)
      × (cluster.cached_service (checked t).1 stored.metadata.namespace v.metadata.name ≡ ok v)
      × (lib.is_controlled_by v.metadata stored.metadata ≡ true)
      × (limit client s ≤ limit client t)
      × ((checked t).0 ≤ truncate (limit client s))

  -- The first Sync of a claim with an empty status and a client in the cache, whose user has no
  -- deployment and no service yet, and whose lease has not passed at the second reading of the
  -- clock: if the API server accepts the three writes, and what it creates has names and is
  -- controlled by the claim, the deployment is created, then the service, then the claim is updated
  -- to a whole lease in whole seconds with both references, and this is all. A later Sync of the
  -- stored claim, with the status of the update, writes nothing while the lease runs, once the
  -- caches have the client and both objects, which the claim controls, and if the clock has not
  -- gone back.
  pub fresh_claim_settles :
      (s t : Run W) (stored : DistccClientClaim)
      → HasClient claim s.world client
      → IsFresh claim
      → (checked s).0 ≤ truncate (limit client s)
      → Deploys s
      → Serves s
      → (cluster.update_client_claim (served s) (serving s)).0 ≡ ok stored
      → stored.status ≡ (served s).status
      → CaughtUp s stored t
      → (sync claim s
          ≡ ((true, none), record { world = recording s; writes = s.writes ++ first_writes s }))
        × (sync stored t ≡ ((false, none), record t { world = (checked t).1 }))
  fresh_claim_settles s t stored has fresh live deploys serves updated same caught =
      let (has_client, cached, ours, cached_service, ours_too, forward, running) = caught in
      (
        fresh_claim_served s stored has fresh live deploys serves updated,
        client_claim_settled stored client (truncate (limit client s)) d v t
            (
              has_client,
              ap (λ (x : DistccClientClaimStatus). x.expiration_time) same,
              omega (arith, truncate_bounds (limit client s), forward),
            )
            running
            (ap (λ (x : DistccClientClaimStatus). x.deployment) same, deploys.2, cached, ours)
            (
              ap (λ (x : DistccClientClaimStatus). x.service) same,
              serves.2,
              cached_service,
              ours_too,
            ),
      )
