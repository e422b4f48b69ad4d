-- ===== src/Distcc/Replicas.antt =====
-- pkg/controller/distcc/distcc_controller.go: the arithmetic of `desiredReplicas` and `needScale`.
use k8cc.Prelude.{Bool, true, false, Option, none, some, List, [], ◌∷◌, if◌then◌else◌}
use k8cc.Prelude.Int.{ℤ, pos, ◌+ℤ◌, ◌*ℤ◌, ltb_ℤ, leb_ℤ, eq_ℤ, wrap32}
use k8cc.Clock.{Time, Duration, add, after, before}
use k8cc.Kube.{Deployment}
use k8cc.Types.{Distcc, DistccSpec, DistccClaim}

-- expiration != nil && expiration.Time.Before(maxExpiration)
unfoldable pub counts : Time → Option Time → Bool
counts max_expiration none = false
counts max_expiration (some expiration) = before expiration max_expiration

-- The loop over the claims, `validClaims++` on an int32.
unfoldable pub valid_claims : Time → ℤ → List DistccClaim → ℤ
valid_claims max_expiration count [] = count
valid_claims max_expiration count (claim ∷ claims) =
    valid_claims max_expiration
      (if counts max_expiration claim.status.expiration_time
        then wrap32 (count +ℤ pos 1)
        else count)
      claims

-- minReplicas != nil && idealReplicas < *minReplicas
unfoldable pub at_least : Option ℤ → ℤ → ℤ
at_least none ideal = ideal
at_least (some low) ideal = if ltb_ℤ ideal low then low else ideal

-- Comply with min and max replicas.
unfoldable pub comply : DistccSpec → ℤ → ℤ
unfolding at_least
comply spec ideal =
    if leb_ℤ spec.max_replicas ideal then spec.max_replicas else at_least spec.min_replicas ideal

-- idealReplicas := validClaims * distcc.Spec.UserReplicas, then the bounds
unfoldable pub replicas_for : DistccSpec → Time → List DistccClaim → ℤ
unfolding valid_claims comply counts wrap32 ◌+ℤ◌ ◌*ℤ◌
replicas_for spec max_expiration claims =
    comply spec (wrap32 (valid_claims max_expiration (pos 0) claims *ℤ spec.user_replicas))

-- The downscale window: it has passed, or nothing asks for one.
unfoldable pub window_passed : Time → Option Duration → Option Time → Bool
window_passed now none last = true
window_passed now (some window) none = true
window_passed now (some window) (some last) = after now (add last window)

unfoldable pub need_scale_from : Time → Distcc → Option ℤ → ℤ → Bool
unfolding window_passed
need_scale_from now distcc none desired = true
need_scale_from now distcc (some current) desired =
    if ltb_ℤ current desired
    then true
    else if eq_ℤ current desired
    then false
    else window_passed now distcc.spec.downscale_window distcc.status.last_scale_time

unfoldable pub need_scale : Time → Distcc → Deployment → ℤ → Bool
unfolding need_scale_from
need_scale now distcc deploy desired = need_scale_from now distcc deploy.spec.replicas desired
