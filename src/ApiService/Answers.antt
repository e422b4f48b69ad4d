-- ===== src/ApiService/Answers.antt =====
-- pkg/apiserver/service/service.go: the values that the service returns, and its decisions that read
-- no state.
use k8cc.Prelude.{ℕ, String, Option, none, some, List, [], ◌∷◌, ◌==◌, if◌then◌else◌}
use k8cc.Prelude.Int.{ℤ, pos}
use k8cc.Clock.{Time}
use k8cc.GoError.{GoError, message, wrapped, sentinel, Sentinel, transient_error, Result, ok, err}
use k8cc.Kube.{Service, ServicePort}
use k8cc.Types.{DistccClaim, DistccClientClaim}
use k8cc.Library.{Library}

-- data.Tag; a data.User is a String
pub record Tag : Type 0 where
  pub namespace : String
  pub name : String

pub record DistccLease : Type 0 where
  pub expiration : Time
  pub endpoints : List String
  pub replicas : ℤ

pub record ClientLease : Type 0 where
  pub expiration : Time
  pub node_port : ℕ

-- The zero values that are returned beside an error; the zero time is the year 1.
abbrev pub no_distcc_lease : DistccLease
no_distcc_lease = record { expiration = 0; endpoints = []; replicas = pos 0 }

abbrev pub no_client_lease : ClientLease
no_client_lease = record { expiration = 0; node_port = 0 }

-- A call returns, or panics at a type assertion on a nil object.
pub data Outcome (A : Type 0) : Type 0 where
  returned : A → Outcome A
  panicked : Outcome A

abbrev pub without_expiration : DistccClaim → DistccClaim
without_expiration claim = record claim { status = record { expiration_time = none } }

abbrev pub client_without_expiration : DistccClientClaim → DistccClientClaim
client_without_expiration claim = record claim {
  status = record claim.status { expiration_time = none };
}

-- errors.Wrap and TransientError in front of an error
abbrev pub transient_wrap : GoError → String → GoError
transient_wrap e text = transient_error (wrapped e text)

-- TransientError(errors.Wrap(err, "update claim failed")): nil stays nil.
unfoldable pub wrap_update : Option GoError → Option GoError
wrap_update none = none
wrap_update (some e) = some (transient_wrap e "update claim failed")

abbrev pub no_node_port : GoError
no_node_port = transient_error (message "service for claim has no node port yet")

-- len(Ports) == 0 || Ports[0].NodePort == 0
unfoldable pub with_node_port : Service → List ServicePort → Result Service
with_node_port service [] = err no_node_port
with_node_port service (port ∷ ports) = if port.node_port == 0 then err no_node_port else ok service

-- Ports[0].NodePort, which panics without a port
unfoldable pub first_node_port : List ServicePort → Option ℕ
first_node_port [] = none
first_node_port (port ∷ ports) = some port.node_port

unfoldable pub lease_at : Time → Option ℕ → Outcome ClientLease
lease_at expiration none = panicked
lease_at expiration (some port) = returned (record { expiration = expiration; node_port = port })

unfoldable pub wrap_claim : Result DistccClientClaim → Result DistccClientClaim
wrap_claim (ok claim) = ok claim
wrap_claim (err e) = err (transient_wrap e "get/create client claim failed")

-- The claim with its expiration cleared, unless its update fails.
unfoldable pub updated_or_wrapped :
    DistccClientClaim → Result DistccClientClaim → Result DistccClientClaim
updated_or_wrapped asked (ok claim) = ok asked
updated_or_wrapped asked (err e) = err (transient_wrap e "update claim failed")

-- Any error of Get means that the service is not there yet.
unfoldable pub ready_service : Result Service → Result Service
unfolding with_node_port
ready_service (err e) = err (transient_error (message "service for claim not present yet"))
ready_service (ok service) = with_node_port service service.spec.ports

-- The tag is wrong where there is no such object: no retry then.
unfoldable pub found_or_transient {ℓ} : {A : Type ℓ} ⦃lib : Library⦄ → Result A → Result A
found_or_transient (ok a) = ok a
found_or_transient ⦃lib⦄ (err e) = if lib.is_not_found e then err e else err (transient_error e)

-- An absent claim cannot be deleted.
unfoldable pub deleted_or_transient : ⦃lib : Library⦄ → Option GoError → Result (Unit {0})
deleted_or_transient none = ok tt
deleted_or_transient ⦃lib⦄ (some e) =
    if lib.is_not_found e then err (sentinel Sentinel.err_not_found) else err (transient_error e)

-- The getter that has an error and no object.
abbrev pub only_error : Option GoError → Result (Unit {0})
only_error none = ok tt
only_error (some e) = err e

-- The name of the user's secret, or no name where there is none.
unfoldable pub secret_name_for : ⦃lib : Library⦄ → String → Option GoError → Result String
secret_name_for secret_name none = ok secret_name
secret_name_for ⦃lib⦄ secret_name (some e) =
    if lib.is_not_found e then ok "" else err (transient_wrap e "get secret failed")

unfoldable pub client_lease_of :
    Option (Outcome ClientLease) × Option GoError → Outcome (ClientLease × Option GoError)
client_lease_of (object, some e) = returned (no_client_lease, some e)
client_lease_of (some (returned lease), none) = returned (lease, none)
client_lease_of (some panicked, none) = panicked
client_lease_of (none, none) = panicked
