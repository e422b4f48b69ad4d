-- ===== src/ApiService.antt =====
-- pkg/apiserver/service/service.go: the leases that users ask for. `Claims` has the claims that the
-- service creates, `Retry` its retries, `Renewals` one attempt to renew a lease, this file the
-- operations. A lease is asked for by a claim without an expiration, which the controllers set.
pub mod Remote
pub mod Claims
pub mod Answers
pub mod Renewals
pub mod Retry
pub mod Attempts
pub mod Leases
pub mod Ownership
pub mod Granted
pub mod Transport
pub mod Operations
pub mod Middleware
pub mod Endpoints
pub mod Endings
pub mod Logged
pub mod Served
pub mod Handover
pub mod Codes
mod Tests
mod ServingTests
use k8cc.Prelude.{
  Action, ℕ, String, Bool, true, false, Option, none, some, List, [], ◌∷◌, ◌==◌, if◌then◌else◌,
}
use k8cc.Prelude.Int.{ℤ, pos}
use k8cc.Prelude.Text.{◌<>◌, join}
use k8cc.Clock.{Time, add}
use k8cc.GoError.{
  GoError, message, wrapped, sentinel, Sentinel, transient_error, Result, ok, err, error_of,
}
use k8cc.Errors.{transient_or_nil}
use k8cc.Kube.{Service, ServicePort, LocalObjectReference}
use k8cc.Types.{Distcc, DistccClaim, DistccClient, DistccClientClaim}
use k8cc.Library.{Library}
use k8cc.Cluster.{
  Cluster, Run, read, write, created_claim, updated_claim, deleted_claim, created_client_claim,
  updated_client_claim, deleted_client_claim,
}
use Remote.{Store, Backoff}
use Claims.{make_claim_name}
use Retry.{get_with_retry}
use Renewals.{renew_distcc_lease, renew_distcc_client_lease}
use Answers.{
  Tag, DistccLease, ClientLease, no_distcc_lease, no_client_lease, Outcome, without_expiration,
  client_without_expiration, transient_wrap, wrap_update, no_node_port, with_node_port,
  first_node_port, lease_at, wrap_claim, updated_or_wrapped, ready_service, found_or_transient,
  deleted_or_transient, only_error, secret_name_for, client_lease_of, returned, panicked,
}

module _ ⦃lib : Library⦄ {W : Type 0} ⦃cluster : Cluster W⦄ ⦃store : Store W⦄ where
  unfoldable pub distcc_getter : Tag → Action (Run W) (Result Distcc)
  unfolding found_or_transient
  distcc_getter tag s =
      let (r, t) = read (store.get_distcc tag.namespace tag.name) s in (found_or_transient r, t)

  unfoldable pub renewal_getter : String → Distcc → Action (Run W) (Result (Unit {0}))
  unfolding renew_distcc_lease
  renewal_getter user distcc s = let (e, t) = renew_distcc_lease user distcc s in (only_error e, t)

  unfoldable pub deleting_getter : String → Tag → Action (Run W) (Result (Unit {0}))
  unfolding make_claim_name deleted_or_transient
  deleting_getter user tag s =
      let name = make_claim_name user tag.name in
      let (e, t) =
        write (deleted_claim tag.namespace name) (cluster.delete_claim tag.namespace name) s in
      (deleted_or_transient e, t)

  unfoldable pub client_getter : Tag → Action (Run W) (Result DistccClient)
  unfolding found_or_transient
  client_getter tag s =
      let (r, t) = read (store.get_client tag.namespace tag.name) s in (found_or_transient r, t)

  unfoldable pub client_deleting_getter : String → Tag → Action (Run W) (Result (Unit {0}))
  unfolding make_claim_name deleted_or_transient
  client_deleting_getter user tag s =
      let name = make_claim_name user tag.name in
      let (e, t) =
        write (deleted_client_claim tag.namespace name)
          (cluster.delete_client_claim tag.namespace name) s in
      (deleted_or_transient e, t)

module _ ⦃lib : Library⦄ {W : Type 0} ⦃cluster : Cluster W⦄ ⦃store : Store W⦄
    ⦃backoff : Backoff W⦄ where
  -- The lease is returned beside the error of the renewal.
  unfoldable pub lease_found :
      String
      → Tag
      → Option Distcc × Option GoError
      → Action (Run W) (Outcome (DistccLease × Option GoError))
  unfolding renewal_getter get_with_retry
  lease_found user tag (object, some e) s =
      (returned (no_distcc_lease, some (wrapped e "failed to get Distcc object")), s)
  lease_found user tag (none, none) s = (panicked, s)
  lease_found user tag (some distcc, none) s =
      let ((object, e), t) = get_with_retry (renewal_getter user distcc) s in
      let (now, u) = read cluster.now t in
      (
        returned (
          record {
            expiration = add now distcc.spec.lease_duration;
            endpoints = join "." distcc.spec.service_name tag.namespace ∷ [];
            replicas = distcc.spec.user_replicas;
          },
          e,
        ),
        u,
      )

  unfoldable pub lease_distcc :
      String → Tag → Action (Run W) (Outcome (DistccLease × Option GoError))
  unfolding distcc_getter lease_found
  lease_distcc user tag s =
      let (r, t) = get_with_retry (distcc_getter tag) s in lease_found user tag r t

  unfoldable pub delete_distcc : String → Tag → Action (Run W) (Option GoError)
  unfolding deleting_getter get_with_retry
  delete_distcc user tag s =
      let ((object, e), t) = get_with_retry (deleting_getter user tag) s in (e, t)

  unfoldable pub client_found :
      String
      → Option DistccClient × Option GoError
      → Action (Run W) (Outcome (ClientLease × Option GoError))
  unfolding renew_distcc_client_lease get_with_retry client_lease_of
  client_found user (object, some e) s =
      (returned (no_client_lease, some (wrapped e "failed to get DistccClient object")), s)
  client_found user (none, none) s = (panicked, s)
  client_found user (some client, none) s =
      let (r, t) = get_with_retry (renew_distcc_client_lease user client) s in
      (client_lease_of r, t)

  unfoldable pub lease_client :
      String → Tag → Action (Run W) (Outcome (ClientLease × Option GoError))
  unfolding client_getter client_found
  lease_client user tag s =
      let (r, t) = get_with_retry (client_getter tag) s in client_found user r t

  unfoldable pub delete_client : String → Tag → Action (Run W) (Option GoError)
  unfolding client_deleting_getter get_with_retry
  delete_client user tag s =
      let ((object, e), t) = get_with_retry (client_deleting_getter user tag) s in (e, t)
