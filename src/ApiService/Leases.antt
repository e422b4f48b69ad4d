-- ===== src/ApiService/Leases.antt =====
-- What the operations of pkg/apiserver/service/service.go return and write.
use k8cc.Prelude.{
  ℕ, String, ◌≡◌, ◌∙◌, ap, subst, refl, sym, Option, none, some, List, [], ◌∷◌, arith,
}
use k8cc.GoError.{GoError, Result, ok, err}
use k8cc.Clock.{Time, add}
use k8cc.Kube.{LocalObjectReference, Service, ServicePort}
use k8cc.Types.{Distcc, DistccClient, DistccClientClaim}
use k8cc.Library.{Library}
use k8cc.Cluster.{Cluster, Run}
use k8cc.ApiService.Remote.{Store, Backoff}
use k8cc.ApiService.Attempts.{Found, get_with_retry-Found}
use k8cc.ApiService.Answers.{
  Tag, ClientLease, Outcome, returned, panicked, first_node_port, with_node_port, ready_service,
  lease_at, client_lease_of,
}
use k8cc.ApiService.Renewals.{service_for, client_lease, await_service, renew_distcc_client_lease}
use k8cc.ApiService.{
  distcc_getter, client_getter, lease_found, lease_distcc, lease_client, client_found,
}

abbrev pub Returns : {A : Type 0} → Outcome A → Type 0
Returns {A = A} o = (a : A) × (o ≡ returned a)

-- The first port is there.
HasPort : Service → Type 0
HasPort service = (port : ℕ) × (first_node_port service.spec.ports ≡ some port)

with_node_port-HasPort :
    (service : Service) (ports : List ServicePort) (other : Service)
    → with_node_port service ports ≡ ok other
    → (service ≡ other) × (port : ℕ) × (first_node_port ports ≡ some port)
unfolding with_node_port first_node_port
with_node_port-HasPort service [] other h = absurd (ground arith)
with_node_port-HasPort service (port ∷ ports) other h = (ground arith, port.node_port, refl)

ready-HasPort :
    (r : Result Service) (service : Service) → ready_service r ≡ ok service → HasPort service
unfolding HasPort ready_service
ready-HasPort (err e) service h = absurd (ground arith)
ready-HasPort (ok service) other h =
    let (same, port, e) = with_node_port-HasPort service service.spec.ports other h in
    subst HasPort same (port, e)

client_lease_of-Returns :
    (object : Option (Outcome ClientLease)) (e : Option GoError)
    → (e ≡ none → Found Returns object)
    → Returns (client_lease_of (object, e))
unfolding client_lease_of
client_lease_of-Returns object (some e) found = (_, refl)
client_lease_of-Returns none none found = let (o, e, p) = found refl in absurd (ground arith)
client_lease_of-Returns (some (returned a)) none found = (_, refl)
client_lease_of-Returns (some panicked) none found =
    let (o, e, (a, p)) = found refl in absurd (ground arith)

module _ ⦃lib : Library⦄ {W : Type 0} ⦃cluster : Cluster W⦄ ⦃store : Store W⦄
    ⦃backoff : Backoff W⦄ where
  client_lease-Returns :
      (client : DistccClient) (r : Result Service) (s : Run W) (o : Outcome ClientLease)
      → ((service : Service) → r ≡ ok service → HasPort service)
      → (client_lease client r s).0 ≡ ok o
      → Returns o
  unfolding client_lease HasPort
  client_lease-Returns client (err e) s o ported h = absurd (ground arith)
  client_lease-Returns client (ok service) s o ported h =
      let (port, e) = ported service refl in
      let end : Time = add (cluster.now s.world).0 client.spec.lease_duration in
      let same : lease_at end (first_node_port service.spec.ports) ≡ o = ground arith in
      (record { expiration = end; node_port = port }, sym same ∙ ap (lease_at end) e)

  service_for-HasPort :
      (claim : DistccClientClaim) (a b : Option LocalObjectReference) (s : Run W)
      (service : Service)
      → (service_for claim a b s).0 ≡ ok service
      → HasPort service
  unfolding service_for
  service_for-HasPort claim none b s service h = absurd (ground arith)
  service_for-HasPort claim (some a) none s service h = absurd (ground arith)
  service_for-HasPort claim (some a) (some b) s service h =
      ready-HasPort (store.get_service claim.metadata.namespace a.name s.world).0 service h

  await_service-Returns :
      (client : DistccClient) (r : Result DistccClientClaim) (s : Run W) (o : Outcome ClientLease)
      → (await_service client r s).0 ≡ ok o
      → Returns o
  unfolding await_service
  await_service-Returns client (err e) s o h = absurd (ground arith)
  await_service-Returns client (ok claim) s o h =
      client_lease-Returns client _ _ o
        (λ service e.
          service_for-HasPort claim claim.status.service claim.status.deployment s service e)
        h

  renewal-Returns :
      (user : String) (client : DistccClient) (s : Run W) (o : Outcome ClientLease)
      → (renew_distcc_client_lease user client s).0 ≡ ok o
      → Returns o
  unfolding renew_distcc_client_lease
  renewal-Returns user client s o h = await_service-Returns client _ _ o h

  client_found-Returns :
      (user : String) (object : Option DistccClient) (e : Option GoError) (s : Run W)
      → (e ≡ none → Found (λ (_ : DistccClient). Unit {0}) object)
      → Returns (client_found user (object, e) s).0
  unfolding client_found
  client_found-Returns user object (some e) s found = (_, refl)
  client_found-Returns user none none s found = let (d, e, u) = found refl in absurd (ground arith)
  client_found-Returns user (some client) none s found = client_lease_of-Returns _ _ (
      get_with_retry-Found (renew_distcc_client_lease user client) Returns
        (renewal-Returns user client) s)

  -- LeaseClient always returns: it has a DistccClient and a lease where it takes them for granted, and
  -- the service that it reads the node port of has a port.
  pub lease_client-Returns :
      (user : String) (tag : Tag) (s : Run W) → Returns (lease_client user tag s).0
  unfolding lease_client
  lease_client-Returns user tag s =
      client_found-Returns user _ _ _
        (get_with_retry-Found (client_getter tag) (λ _. Unit {0}) (λ _ _ _. tt) s)

  lease_found-Returns :
      (user : String) (tag : Tag) (object : Option Distcc) (e : Option GoError) (s : Run W)
      → (e ≡ none → Found (λ (_ : Distcc). Unit {0}) object)
      → Returns (lease_found user tag (object, e) s).0
  unfolding lease_found
  lease_found-Returns user tag object (some e) s found = (_, refl)
  lease_found-Returns user tag none none s found =
      let (d, e, u) = found refl in absurd (ground arith)
  lease_found-Returns user tag (some d) none s found = (_, refl)

  -- LeaseDistcc always returns: it never fails at the assertion that it has a Distcc.
  pub lease_distcc-Returns :
      (user : String) (tag : Tag) (s : Run W) → Returns (lease_distcc user tag s).0
  unfolding lease_distcc
  lease_distcc-Returns user tag s =
      lease_found-Returns user tag _ _ _
        (get_with_retry-Found (distcc_getter tag) (λ _. Unit {0}) (λ _ _ _. tt) s)
