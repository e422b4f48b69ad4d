-- ===== src/ApiService/Retry.antt =====
-- pkg/apiserver/service/service.go: `getWithRetry`. The getter runs in a goroutine of its own, which
-- the attempt waits for in both cases of its `select`. An error comes without an object: no caller
-- looks at the object beside an error.
use k8cc.Prelude.{ℕ, Action, Bool, true, false, Option, none, some, if◌then◌else◌}
use k8cc.GoError.{GoError, Result, ok, err, sentinel, Sentinel}
use k8cc.Errors.{is_transient}
use k8cc.Library.{Library}
use k8cc.Cluster.{Run}
use k8cc.ApiService.Remote.{Backoff}

-- backoff.Steps
abbrev pub steps : ℕ
steps = 12

abbrev pub value_of {ℓ} : {A : Type ℓ} → Result A → Option A
value_of (ok a) = some a
value_of (err e) = none

module _ ⦃lib : Library⦄ {A : Type 0} where
  -- What the condition answers to the getter: a transient error asks for another attempt.
  unfoldable pub verdict : Result A → Bool × Option GoError
  verdict (ok a) = (true, none)
  verdict (err e) = if is_transient e then (false, none) else (false, some e)

module _ ⦃lib : Library⦄ {W : Type 0} ⦃backoff : Backoff W⦄ {A : Type 0} where
  -- The condition: one call of the getter.
  unfoldable pub attempt :
      Action (Run W) (Result A) → Action (Option A × Run W) (Bool × Option GoError)
  unfolding verdict
  attempt getter (object, s) =
      let (r, t) = getter s in
      if backoff.canceled_first t.world
      then ((false, some (sentinel Sentinel.err_canceled)), (value_of r, t))
      else (verdict r, (value_of r, t))

  unfoldable pub get_with_retry :
      Action (Run W) (Result A) → Action (Run W) (Option A × Option GoError)
  unfolding attempt
  get_with_retry getter s =
      let (e, (object, t)) = backoff.exponential_backoff steps (attempt getter) (none, s) in
      ((object, e), t)
