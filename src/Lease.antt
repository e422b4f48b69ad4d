-- ===== src/Lease.antt =====
-- The expiration of a claim: what `updateExpiration` and `isExpired` do in both claim controllers,
-- pkg/controller/distccclaim/distccclaim_controller.go and
-- pkg/controller/distccclientclaim/distccclientclaim_controller.go, which have the same text.
-- `isExpired` reads the expiration through a pointer that `updateExpiration` has just set.
pub mod Renewal
use k8cc.Prelude.{
  ℕ, ◌+◌, ◌-◌, ◌≤◌, ◌<◌, ◌≡◌, refl, ◌∙◌, Bool, true, false, Option, none, some, arith, ltb,
  if◌then◌else◌, Bool-cases, inl, inr, ◌⊎◌,
}
use k8cc.Clock.{Time, after, truncate, second, truncate_bounds}
use k8cc.Library.{Library}
use k8cc.Conv.{to_kube_time, to_kube_time_lem}

-- ExpirationTime == nil || ExpirationTime.After(maxExpiration)
unfoldable pub exceeds : Time → Option Time → Bool
exceeds max_expiration none = true
exceeds max_expiration (some expiration) = after expiration max_expiration

-- The expiration that a claim keeps when it is not renewed; a missing one is always renewed.
unfoldable pub kept : Time → Option Time → Time
kept limit none = limit
kept limit (some expiration) = expiration

module _ ⦃lib : Library⦄ where
  -- The expiration behind `updateExpiration`, and whether it was set.
  unfoldable pub renew : Time → Option Time → Time × Bool
  unfolding exceeds kept to_kube_time
  renew max_expiration expiration =
      if exceeds max_expiration expiration
      then (to_kube_time max_expiration, true)
      else (kept max_expiration expiration, false)

-- c.now().After(claim.Status.ExpirationTime.Time)
unfoldable pub is_expired : Time → Time → Bool
is_expired now expiration = after now expiration
