-- ===== src/ApiService/Renewals.antt =====
-- pkg/apiserver/service/service.go: one attempt to renew the lease of a user: `renewDistccLease` and
-- `renewDistccClientLease`.
use k8cc.Prelude.{Action, String, Option, none, some, if◌then◌else◌}
use k8cc.Prelude.Text.{◌<>◌}
use k8cc.Clock.{Time, add}
use k8cc.GoError.{GoError, message, transient_error, Result, ok, err, error_of}
use k8cc.Kube.{Service, LocalObjectReference}
use k8cc.Types.{Distcc, DistccClaim, DistccClient, DistccClientClaim}
use k8cc.Library.{Library}
use k8cc.Cluster.{
  Cluster, Run, read, write, created_claim, updated_claim, created_client_claim,
  updated_client_claim,
}
use k8cc.ApiService.Remote.{Store}
use k8cc.ApiService.Claims.{make_claim_name, new_distcc_claim, new_distcc_client_claim}
use k8cc.ApiService.Answers.{
  ClientLease, Outcome, without_expiration, client_without_expiration, transient_wrap, wrap_update,
  first_node_port, lease_at, wrap_claim, updated_or_wrapped, ready_service, secret_name_for,
}

module _ ⦃lib : Library⦄ {W : Type 0} ⦃cluster : Cluster W⦄ ⦃store : Store W⦄ where
  unfoldable pub claim_or_create :
      String → Distcc → Result DistccClaim → Action (Run W) (Result DistccClaim)
  unfolding new_distcc_claim
  claim_or_create user distcc (ok claim) s = (ok claim, s)
  claim_or_create user distcc (err e) s =
      let new = new_distcc_claim user distcc in
      if lib.is_not_found e
      then write (created_claim new) (store.create_claim new) s
      else (err e, s)

  -- Ask for a renewal, if the claim has an expiration.
  unfoldable pub clear_expiration : DistccClaim → Option Time → Action (Run W) (Option GoError)
  unfolding wrap_update
  clear_expiration claim none s = (none, s)
  clear_expiration claim (some t) s =
      let asked = without_expiration claim in
      let (r, u) = write (updated_claim asked) (cluster.update_claim asked) s in
      (wrap_update (error_of r), u)

  unfoldable pub ask_renewal : Result DistccClaim → Action (Run W) (Option GoError)
  unfolding clear_expiration
  ask_renewal (err e) s = (some (transient_wrap e "get/create distcc claim failed"), s)
  ask_renewal (ok claim) s = clear_expiration claim claim.status.expiration_time s

  unfoldable pub renew_distcc_lease : String → Distcc → Action (Run W) (Option GoError)
  unfolding claim_or_create ask_renewal make_claim_name
  renew_distcc_lease user distcc s =
      let (got, t) =
        read (store.get_claim distcc.metadata.namespace (make_claim_name user distcc.metadata.name))
          s in
      let (r, u) = claim_or_create user distcc got t in ask_renewal r u

  unfoldable pub create_client_claim_with :
      String → DistccClient → Result String → Action (Run W) (Result DistccClientClaim)
  unfolding new_distcc_client_claim wrap_claim
  create_client_claim_with user client (err e) s = (err e, s)
  create_client_claim_with user client (ok secret_name) s =
      let new = new_distcc_client_claim user client secret_name in
      let (r, t) = write (created_client_claim new) (store.create_client_claim new) s in
      (wrap_claim r, t)

  unfoldable pub client_claim_or_create :
      String → DistccClient → Result DistccClientClaim → Action (Run W) (Result DistccClientClaim)
  unfolding secret_name_for create_client_claim_with
  client_claim_or_create user client (ok claim) s = (ok claim, s)
  client_claim_or_create user client (err e) s =
      let secret_name = user <> "-ssh-key" in
      let (missing, t) = read (store.get_secret client.metadata.namespace secret_name) s in
      if lib.is_not_found e
      then create_client_claim_with user client (secret_name_for secret_name missing) t
      else (wrap_claim (err e), s)

  unfoldable pub clear_client_expiration :
      DistccClientClaim → Option Time → Action (Run W) (Result DistccClientClaim)
  unfolding updated_or_wrapped
  clear_client_expiration claim none s = (ok claim, s)
  clear_client_expiration claim (some t) s =
      let asked = client_without_expiration claim in
      let (r, u) = write (updated_client_claim asked) (cluster.update_client_claim asked) s in
      (updated_or_wrapped asked r, u)

  unfoldable pub service_for :
      DistccClientClaim
      → Option LocalObjectReference
      → Option LocalObjectReference
      → Action (Run W) (Result Service)
  unfolding ready_service
  service_for claim none deployment s =
      (err (transient_error (message "service for claim not present yet")), s)
  service_for claim (some service) none s =
      (err (transient_error (message "deploy for claim not present yet")), s)
  service_for claim (some service) (some deployment) s =
      let (r, t) = read (store.get_service claim.metadata.namespace service.name) s in
      (ready_service r, t)

  unfoldable pub get_service_for_claim : DistccClientClaim → Action (Run W) (Result Service)
  unfolding service_for
  get_service_for_claim claim s = service_for claim claim.status.service claim.status.deployment s

  -- The lease at the time of the answer.
  unfoldable pub client_lease :
      DistccClient → Result Service → Action (Run W) (Result (Outcome ClientLease))
  unfolding first_node_port lease_at
  client_lease client (err e) s = (err e, s)
  client_lease client (ok service) s =
      let (now, t) = read cluster.now s in
      (ok (lease_at (add now client.spec.lease_duration) (first_node_port service.spec.ports)), t)

  unfoldable pub await_service :
      DistccClient → Result DistccClientClaim → Action (Run W) (Result (Outcome ClientLease))
  unfolding get_service_for_claim client_lease
  await_service client (err e) s = (err e, s)
  await_service client (ok claim) s =
      let (r, t) = get_service_for_claim claim s in client_lease client r t

  unfoldable pub ask_client_renewal :
      Result DistccClientClaim → Action (Run W) (Result DistccClientClaim)
  unfolding clear_client_expiration
  ask_client_renewal (err e) s = (err e, s)
  ask_client_renewal (ok claim) s = clear_client_expiration claim claim.status.expiration_time s

  unfoldable pub renew_distcc_client_lease :
      String → DistccClient → Action (Run W) (Result (Outcome ClientLease))
  unfolding client_claim_or_create ask_client_renewal await_service
  renew_distcc_client_lease user client s =
      let (got, t) =
        read
          (store.get_client_claim client.metadata.namespace
            (make_claim_name user client.metadata.name))
          s in
      let (r, u) = client_claim_or_create user client got t in
      let (asked, v) = ask_client_renewal r u in await_service client asked v
