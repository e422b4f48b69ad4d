-- ===== src/Lease/Renewal.antt =====
-- What the renewal of an expiration guarantees.
use k8cc.Prelude.{◌+◌, ◌≤◌, ◌<◌, ◌≡◌, true, false, Option, none, some, arith}
use k8cc.Clock.{Time, truncate, second}
use k8cc.Library.{Library}
use k8cc.Conv.{to_kube_time_lem}
use k8cc.Lease.{renew}

-- The expiration is set and within the limit.
abbrev pub Within : Time → Option Time → Type 0
Within limit none = ⊥
Within limit (some t) = t ≤ limit

-- A lease that is set is not prolonged.
abbrev pub NotProlonged : Option Time → Time → Type 0
NotProlonged none t = Unit
NotProlonged (some old) t = t ≤ old

module _ ⦃lib : Library⦄ where
  pub renew_within : (limit t : Time) → t ≤ limit → renew limit (some t) ≡ (t, false)
  unfolding renew
  renew_within limit t h = ground arith

  pub renew_beyond : (limit t : Time) → limit < t → renew limit (some t) ≡ (truncate limit, true)
  unfolding renew
  renew_beyond limit t h = ground (arith, to_kube_time_lem limit)

  pub renew_missing : (limit : Time) → renew limit none ≡ (truncate limit, true)
  unfolding renew
  renew_missing limit = ground (arith, to_kube_time_lem limit)

  -- A renewal takes an expiration to at most the limit, never behind the one that was set, and loses
  -- less than a second of the limit where it sets a new one.
  pub renew_bounds :
      (limit : Time) (e : Option Time)
      → ((renew limit e).0 ≤ limit)
        × NotProlonged e (renew limit e).0
        × ((renew limit e).1 ≡ true → limit < (renew limit e).0 + second)
        × ((renew limit e).1 ≡ false → e ≡ some (renew limit e).0)
  unfolding renew
  renew_bounds limit none = ground (arith, to_kube_time_lem limit)
  renew_bounds limit (some t) = ground (arith, to_kube_time_lem limit)

  -- A renewal settles: against the same limit or a later one nothing is set any more.
  pub renew-renew :
      (limit later : Time) (e : Option Time)
      → limit ≤ later
      → renew later (some (renew limit e).0) ≡ ((renew limit e).0, false)
  renew-renew limit later e h =
      renew_within later (renew limit e).0 (omega (arith, (renew_bounds limit e).0))
