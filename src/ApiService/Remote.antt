-- ===== src/ApiService/Remote.antt =====
-- What pkg/apiserver/service/service.go calls beside the operations of `Cluster`: the API server
-- itself instead of the caches, and the retries of k8s.io/apimachinery/pkg/util/wait.
use k8cc.Prelude.{ℕ, suc, String, ◌≡◌, Bool, true, false, Option, none, some, Action}
use k8cc.GoError.{GoError, Result, sentinel, Sentinel}
use k8cc.Kube.{Service}
use k8cc.Types.{Distcc, DistccClaim, DistccClient, DistccClientClaim}
use k8cc.Cluster.{Run}

-- Get and Create of the clientsets. Of the secret that Get finds, only the error is read.
pub record Store (W : Type 0) : Type 0 where
  pub get_distcc : String → String → W → Result Distcc × W
  pub get_claim : String → String → W → Result DistccClaim × W
  pub get_client : String → String → W → Result DistccClient × W
  pub get_client_claim : String → String → W → Result DistccClientClaim × W
  pub get_secret : String → String → W → Option GoError × W
  pub get_service : String → String → W → Result Service × W
  pub create_claim : DistccClaim → W → Result DistccClaim × W
  pub create_client_claim : DistccClientClaim → W → Result DistccClientClaim × W

-- What a condition decides: an error or true ends the loop.
abbrev pub decided : Bool × Option GoError → Option (Option GoError)
decided (done, some e) = some (some e)
decided (true, none) = some none
decided (false, none) = none

abbrev pub paused {ℓ} : {W : Type 0} {A : Type ℓ} → (W → W) → A × Run W → A × Run W
paused pause (a, s) = (a, record s { world = pause s.world })

-- wait.ExponentialBackoff "repeats a condition check [...] up to Steps times. If the condition never
-- returns true, ErrWaitTimeout is returned. All other errors terminate immediately." `pause` is the
-- time between two checks; `canceled_first` is the choice of a `select` between the end of the
-- context and the end of the call.
pub record Backoff (W : Type 0) : Type 1 where
  pub pause : W → W
  pub canceled_first : W → Bool
  pub exponential_backoff :
      {A : Type 0}
      → ℕ
      → Action (A × Run W) (Bool × Option GoError)
      → Action (A × Run W) (Option GoError)
  pub backoff_decided :
      {A : Type 0} (steps : ℕ) (condition : Action (A × Run W) (Bool × Option GoError))
      (s : A × Run W) (r : Option GoError)
      → decided (condition s).0 ≡ some r
      → exponential_backoff (suc steps) condition s ≡ (r, (condition s).1)
  pub backoff_timeout :
      {A : Type 0} (condition : Action (A × Run W) (Bool × Option GoError)) (s : A × Run W)
      → decided (condition s).0 ≡ none
      → exponential_backoff 1 condition s
        ≡ (some (sentinel Sentinel.err_wait_timeout), (condition s).1)
  pub backoff_again :
      {A : Type 0} (steps : ℕ) (condition : Action (A × Run W) (Bool × Option GoError))
      (s : A × Run W)
      → decided (condition s).0 ≡ none
      → exponential_backoff (suc (suc steps)) condition s
        ≡ exponential_backoff (suc steps) condition (paused pause (condition s).1)
