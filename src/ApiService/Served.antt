-- ===== src/ApiService/Served.antt =====
-- The leases on clients of pkg/apiserver/service/service.go before the controller of client claims,
-- pkg/controller/distccclientclaim/distccclientclaim_controller.go: what the user is answered once the
-- controller has been at work.
use k8cc.Prelude.{
  ℕ, String, ◌≡◌, ◌≢◌, ◌==◌, ap, ◌∙◌, refl, false, Option, none, some, List, [], ◌∷◌, ◌++◌, arith,
}
use k8cc.Clock.{Time, add}
use k8cc.GoError.{GoError, ok}
use k8cc.Kube.{Service, ServicePort, LocalObjectReference}
use k8cc.Types.{DistccClient, DistccClientClaim}
use k8cc.Library.{Library}
use k8cc.Cluster.{Cluster, Run, updated_client_claim}
use k8cc.ApiService.Remote.{Store, Backoff}
use k8cc.ApiService.Claims.{make_claim_name}
use k8cc.ApiService.Answers.{
  Tag, ClientLease, Outcome, returned, client_without_expiration, ready_service, with_node_port,
  first_node_port, lease_at, client_lease_of, updated_or_wrapped,
}
use k8cc.ApiService.Renewals.{renew_distcc_client_lease, await_service}
use k8cc.ApiService.Endings.{success_once}
use k8cc.ApiService.{client_getter, client_found, lease_client}

eq_zero_no : (n : ℕ) → n ≢ 0 → (n == 0) ≡ false
eq_zero_no n h = ground arith

module _ ⦃lib : Library⦄ {W : Type 0} ⦃cluster : Cluster W⦄ ⦃store : Store W⦄ ⦃backoff : Backoff W⦄
    (user : String) (tag : Tag) (client : DistccClient) (claim : DistccClientClaim)
    (service : Service) where
  -- The worlds behind the calls of LeaseClient.
  abbrev pub found : W → W
  found w = (store.get_client tag.namespace tag.name w).1

  abbrev pub got : W → W
  got w =
      (store.get_client_claim client.metadata.namespace (make_claim_name user client.metadata.name)
        (found w)).1

  abbrev pub asking : W → W
  asking w = (cluster.update_client_claim (client_without_expiration claim) (got w)).1

  abbrev pub looking : LocalObjectReference → W → W
  looking ref w = (store.get_service claim.metadata.namespace ref.name (asking w)).1

  -- The API server has the client and the claim of the user, and accepts its update.
  abbrev pub HasClaim : W → Type 0
  HasClaim w =
      ((store.get_client tag.namespace tag.name w).0 ≡ ok client)
      × ((store.get_client_claim client.metadata.namespace
            (make_claim_name user client.metadata.name) (found w)).0
          ≡ ok claim)
      × ((stored : DistccClientClaim) × ((cluster.update_client_claim
              (client_without_expiration claim) (got w)).0
            ≡ ok stored))

  -- The service is there, with a node port.
  abbrev pub HasNodePort : LocalObjectReference → ServicePort → W → Type 0
  HasNodePort ref port w =
      ((store.get_service claim.metadata.namespace ref.name (asking w)).0 ≡ ok service)
      × ((ports : List ServicePort) × (service.spec.ports ≡ port ∷ ports))
      × (port.node_port ≢ 0)

  abbrev pub lease_from : LocalObjectReference → ServicePort → W → ClientLease
  lease_from ref port w = record {
    expiration = add (cluster.now (looking ref w)).0 client.spec.lease_duration;
    node_port = port.node_port;
  }

  service_found :
      (ref : LocalObjectReference) (port : ServicePort) (w : W)
      → HasNodePort ref port w
      → ready_service (store.get_service claim.metadata.namespace ref.name (asking w)).0
        ≡ ok service
  unfolding ready_service with_node_port
  service_found ref port w (has_service, (ports, first), assigned) =
      simp (has_service, first, eq_zero_no port.node_port assigned)

  awaiting :
      (s : Run W) (deployment ref : LocalObjectReference) (port : ServicePort) (w : W)
      → s.world ≡ asking w
      → claim.status.deployment ≡ some deployment
      → claim.status.service ≡ some ref
      → HasNodePort ref port w
      → await_service client (ok (client_without_expiration claim)) s ≡ (
        ok (returned (lease_from ref port w)),
        record s { world = (cluster.now (looking ref w)).1 },
      )
  unfolding await_service first_node_port lease_at
  awaiting s deployment ref port w at deployed served ported =
      simp (at, deployed, served, service_found ref port w ported, (ported.1).1)

  renewal_served :
      (s : Run W) (t : Time) (deployment ref : LocalObjectReference) (port : ServicePort) (w : W)
      → s.world ≡ found w
      → HasClaim w
      → claim.status.expiration_time ≡ some t
      → claim.status.deployment ≡ some deployment
      → claim.status.service ≡ some ref
      → HasNodePort ref port w
      → renew_distcc_client_lease user client s ≡ (
        ok (returned (lease_from ref port w)),
        record {
          world = (cluster.now (looking ref w)).1;
          writes = s.writes ++ updated_client_claim (client_without_expiration claim) ∷ [];
        },
      )
  unfolding renew_distcc_client_lease updated_or_wrapped
  renewal_served s t deployment ref port w at (has_client, has_claim, (stored, updated)) set
        deployed served ported =
      simp (at, has_claim, set, updated)
        (awaiting _ deployment ref port w refl deployed served ported)

  -- The user of a claim that has an expiration, a deployment and a service with a node port is
  -- answered that port, and a whole lease from then on, if no call fails or is canceled: LeaseClient
  -- asks for the renewal by clearing the expiration, and writes nothing else.
  pub client_lease_served :
      (s : Run W) (t : Time) (deployment ref : LocalObjectReference) (port : ServicePort)
      → HasClaim s.world
      → claim.status.expiration_time ≡ some t
      → claim.status.deployment ≡ some deployment
      → claim.status.service ≡ some ref
      → HasNodePort ref port s.world
      → ((w : W) → backoff.canceled_first w ≡ false)
      → lease_client user tag s ≡ (
        returned (lease_from ref port s.world, none),
        record {
          world = (cluster.now (looking ref s.world)).1;
          writes = s.writes ++ updated_client_claim (client_without_expiration claim) ∷ [];
        },
      )
  unfolding lease_client client_getter client_found client_lease_of
  client_lease_served s t deployment ref port has set deployed served ported patient =
      let renewed =
        renewal_served (client_getter tag s).1 t deployment ref port s.world refl has set deployed
          served ported in
      ap (λ (x : (Option DistccClient × Option GoError) × Run W). client_found user x.0 x.1)
        (success_once (client_getter tag) s client (simp (has.0) refl) (patient _))
      ∙ ap
          (λ (x : (Option (Outcome ClientLease) × Option GoError) × Run W).
            (client_lease_of x.0, x.1))
          (success_once (renew_distcc_client_lease user client) (client_getter tag s).1
            (returned (lease_from ref port s.world)) (ap (λ x. x.0) renewed) (patient _))
      ∙ ap (λ x. (returned (lease_from ref port s.world, none), x.1)) renewed
