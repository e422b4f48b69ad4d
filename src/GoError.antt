-- ===== src/GoError.antt =====
-- The error values of the program: what the functions of pkg/errors/errors.go,
-- pkg/controller/refresolver.go and pkg/controller/kit/controller_kit.go build, beside those that
-- they receive. Go's `error` that may be nil is `Option GoError`; a function that returns a pointer
-- or an error returns a `Result`.
use k8cc.Prelude.{String, Option, none, some, ◌≡◌, refl, ◌⊎◌, inl, inr}

-- An event that is attached to an error and recorded on an object.
pub record Event : Type 0 where
  pub type : String
  pub reason : String
  pub message : String

-- The reason of an error that the Kubernetes API reports.
pub data StatusReason : Type 0 where
  not_found already_exists conflict unavailable : StatusReason

-- The package variables that are compared by identity. The last one is the retry library's.
pub data Sentinel : Type 0 where
  err_canceled err_not_found err_bad_routing err_wait_timeout : Sentinel

-- `status` comes from the API, `message` from `errors.New`, `wrapped` from `errors.Wrap`.
pub data GoError : Type 0 where
  status : StatusReason → String → GoError
  message : String → GoError
  sentinel : Sentinel → GoError
  wrapped : GoError → String → GoError
  transient_error : GoError → GoError
  ambiguous_reference_error : GoError → GoError
  eventful_error : GoError → Event → GoError

pub data Result {ℓ} (A : Type ℓ) : Type ℓ where
  ok : A → Result A
  err : GoError → Result A

-- The error beside the value, as Go returns it.
abbrev pub error_of {ℓ} : {A : Type ℓ} → Result A → Option GoError
error_of (ok a) = none
error_of (err e) = some e

pub Result-cases {ℓ} :
    {A : Type ℓ} (r : Result A) → ((a : A) × (r ≡ ok a)) ⊎ ((e : GoError) × (r ≡ err e))
Result-cases (ok a) = inl (a, refl)
Result-cases (err e) = inr (e, refl)
