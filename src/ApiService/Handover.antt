-- ===== src/ApiService/Handover.antt =====
-- The claim on a client from the request to the answer: pkg/apiserver/service/service.go asks, the
-- controller of client claims serves, and the next request of the user is answered.
use k8cc.Prelude.{String, ◌≤◌, ◌≡◌, ◌≢◌, ap, false, true, none, ◌++◌}
use k8cc.Clock.{truncate}
use k8cc.GoError.{ok}
use k8cc.Kube.{Deployment, Service, ServicePort}
use k8cc.Types.{DistccClient, DistccClientClaim, DistccClientClaimStatus, DistccClientClaimSpec}
use k8cc.Library.{Library}
use k8cc.Cluster.{Cluster, Run}
use k8cc.ClientClaim.{sync}
use k8cc.ClientClaim.Outcomes.{HasClient, limit, checked}
use k8cc.ClientClaim.Serving.{
  Deploys, Serves, IsFresh, served, serving, recording, first_writes, fresh_claim_served,
}
use k8cc.ApiService.Remote.{Store, Backoff}
use k8cc.ApiService.Claims.{new_distcc_client_claim}
use k8cc.ApiService.Answers.{Tag, returned}
use k8cc.ApiService.Served.{HasClaim, HasNodePort, lease_from, client_lease_served}
use k8cc.ApiService.{lease_client}

-- The claim that LeaseClient creates, with what the API server adds to its metadata.
abbrev pub IsAsked : String → DistccClient → String → DistccClientClaim → Type 0
IsAsked user client secret_name claim =
    (claim.spec ≡ (new_distcc_client_claim user client secret_name).spec)
    × (claim.status ≡ (new_distcc_client_claim user client secret_name).status)
    × (claim.metadata.namespace ≡ client.metadata.namespace)

module _ (user : String) (client : DistccClient) (secret_name : String)
    (claim : DistccClientClaim) where
  asked-IsFresh : IsAsked user client secret_name claim → IsFresh claim
  unfolding new_distcc_client_claim
  asked-IsFresh (spec, status, home) = (
    ap (λ (x : DistccClientClaimStatus). x.expiration_time) status,
    ap (λ (x : DistccClientClaimStatus). x.deployment) status,
    ap (λ (x : DistccClientClaimStatus). x.service) status,
  )

  asked-HasClient :
      ⦃lib : Library⦄ {W : Type 0} ⦃cluster : Cluster W⦄ (w : W)
      → IsAsked user client secret_name claim
      → client.metadata.name ≢ ""
      → cluster.cached_client w client.metadata.namespace client.metadata.name ≡ ok client
      → HasClient claim w client
  unfolding new_distcc_client_claim
  asked-HasClient w (spec, status, home) named cached =
      let same : claim.spec.distcc_client_name ≡ client.metadata.name =
        ap (λ (x : DistccClientClaimSpec). x.distcc_client_name) spec in
      rw (same, home) (named, cached)

module _ ⦃lib : Library⦄ {W : Type 0} ⦃cluster : Cluster W⦄ ⦃store : Store W⦄
    ⦃backoff : Backoff W⦄ where
  -- The claim that LeaseClient has created for a user without a deployment or a service, on a
  -- client with a name that is in the cache: one Sync, whose lease has not passed at the second
  -- reading of the clock and whose writes the API server accepts, with objects that have names and
  -- that the claim controls, creates both objects and links them. A later LeaseClient, for which
  -- the API server has the client, the claim with the status of that update, and the service with a
  -- node port, answers that port with a whole lease, if no call fails or is canceled.
  pub asked_client_served :
      (user : String) (tag : Tag) (client : DistccClient) (secret_name : String)
      (claim stored : DistccClientClaim) (d : Deployment) (v found : Service) (port : ServicePort)
      (s t : Run W)
      → IsAsked user client secret_name claim
      → client.metadata.name ≢ ""
      → cluster.cached_client s.world client.metadata.namespace client.metadata.name ≡ ok client
      → (checked s).0 ≤ truncate (limit client s)
      → Deploys claim client d v s
      → Serves claim client d v s
      → (cluster.update_client_claim (served claim client d v s) (serving claim client d v s)).0
        ≡ ok stored
      → stored.status ≡ (served claim client d v s).status
      → HasClaim user tag client stored found t.world
      → HasNodePort user tag client stored found (record { name = v.metadata.name }) port t.world
      → ((w : W) → backoff.canceled_first w ≡ false)
      → (sync claim s ≡ (
        (true, none),
        record {
          world = recording claim client d v s;
          writes = s.writes ++ first_writes claim client d v s;
        },
      ))
        × ((lease_client user tag t).0
            ≡ returned (
              lease_from user tag client stored found
                  (record { name = v.metadata.name })
                  port
                  t.world,
              none,
            ))
  asked_client_served user tag client secret_name claim stored d v found port s t asked named cached
        live deploys serves updated same has ported patient =
      (
        fresh_claim_served claim client d v s stored
            (asked-HasClient user client secret_name claim s.world asked named cached)
            (asked-IsFresh user client secret_name claim asked) live deploys serves updated,
        ap (λ x. x.0)
            (client_lease_served user tag client stored found t (truncate (limit client s))
              (record { name = d.metadata.name }) (record { name = v.metadata.name }) port has
              (ap (λ (x : DistccClientClaimStatus). x.expiration_time) same)
              (ap (λ (x : DistccClientClaimStatus). x.deployment) same)
              (ap (λ (x : DistccClientClaimStatus). x.service) same) ported patient),
      )
