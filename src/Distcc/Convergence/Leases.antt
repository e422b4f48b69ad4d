-- ===== src/Distcc/Convergence/Leases.antt =====
-- From leases to replicas: what the claims in the cache get from one `Sync`.
use k8cc.Prelude.{
  ℕ, ◌+◌, ◌*◌, ◌^◌, ◌<◌, ◌≤◌, List, [], ◌∷◌, Each, length, ◌≡◌, ◌≢◌, ◌∙◌, refl, ap, none, some,
  arith,
}
use k8cc.Prelude.Int.{ℤ, pos}
use k8cc.Clock.{Time}
use k8cc.GoError.{ok}
use k8cc.Kube.{Selector}
use k8cc.Types.{Distcc, DistccClaim}
use k8cc.Library.{Library}
use k8cc.Cluster.{Cluster, Run}
use k8cc.Distcc.{sync, desired_replicas, replicas_with}
use k8cc.Distcc.Replicas.{counts, replicas_for}
use k8cc.Distcc.Bounds.{ending_before, clamp, MinLeMax, replicas_for-clamp}
use k8cc.Distcc.Convergence.{Prompt, OwnOrMissing, OwnServiceOrMissing, HasReplicas, Demands}
use k8cc.Distcc.Convergence.Settling.{sync_reaches}

-- The claim has an expiration, and it is no more than a lease away.
abbrev pub Granted : Time → DistccClaim → Type 0
Granted limit claim = (t : Time) × (claim.status.expiration_time ≡ some t) × (t < limit)

ending_before-Granted :
    (limit now : Time) (claims : List DistccClaim)
    → limit ≤ now
    → Each claims (Granted limit)
    → ending_before now claims ≡ length claims
unfolding counts
ending_before-Granted limit now [] h granted = refl
ending_before-Granted limit now (claim ∷ claims) h ((t, set, near), granted) =
    rw set (ground (arith, ending_before-Granted limit now claims h granted))

-- The replicas of a user for each of the claims, cut to the bounds of the spec.
abbrev pub wanted : Distcc → List DistccClaim → ℕ → ℤ
wanted distcc claims users = clamp distcc.spec (pos (length claims * users))

module _ ⦃lib : Library⦄ {W : Type 0} ⦃cluster : Cluster W⦄ ⦃prompt : Prompt W⦄ (distcc : Distcc)
    (claims : List DistccClaim) (selector : Selector) (lease users : ℕ) where
  pub leases-Demands :
      (s : Run W)
      → lib.label_selector_as_selector distcc.spec.selector ≡ ok selector
      → cluster.cached_claims s.world distcc.metadata.namespace selector ≡ ok claims
      → distcc.spec.lease_duration ≡ pos lease
      → distcc.spec.user_replicas ≡ pos users
      → Each claims (Granted (prompt.clock s.world + lease))
      → MinLeMax distcc.spec
      → length claims < 2 ^ 31
      → length claims * users < 2 ^ 31
      → Demands distcc (wanted distcc claims users) s.world
  unfolding desired_replicas replicas_with replicas_for
  leases-Demands s valid cached leased per_user granted bounds few fits t (passed, same) =
      let now = (cluster.now t.world).0 in
      let (low, high) = prompt.now_reading t.world in
      let (deployments, services, claims_same) = prompt.now_same t.world in
      let listed =
        claims_same distcc.metadata.namespace selector
        ∙ same distcc.metadata.namespace selector
        ∙ cached in
      let all =
        ending_before-Granted (prompt.clock s.world + lease) (now + lease) claims (omega arith)
          granted in
      let count =
        replicas_for-clamp distcc.spec (now + lease) claims users per_user bounds few
          (rw all fits) in
      rw (valid, replicas_with, listed, leased)
        (ap ok (count ∙ ap (λ (n : ℕ). clamp distcc.spec (pos (n * users))) all))

  -- In a cluster that takes its writes: where each claim in the cache that the Distcc selects is granted,
  -- for no longer than a lease from now, one Sync of a Distcc with both names set, no downscale window, a
  -- minimum that is not above the maximum, and no negative lease or replicas of a user, whose deployment
  -- and service are missing or its own, gives the deployment the replicas of a user for each claim, cut
  -- to the bounds of the spec, if the arithmetic fits an int32.
  pub leases_served :
      (s : Run W)
      → distcc.spec.deployment_name ≢ ""
      → distcc.spec.service_name ≢ ""
      → distcc.spec.downscale_window ≡ none
      → OwnOrMissing distcc s.world
      → OwnServiceOrMissing distcc s.world
      → lib.label_selector_as_selector distcc.spec.selector ≡ ok selector
      → cluster.cached_claims s.world distcc.metadata.namespace selector ≡ ok claims
      → distcc.spec.lease_duration ≡ pos lease
      → distcc.spec.user_replicas ≡ pos users
      → Each claims (Granted (prompt.clock s.world + lease))
      → MinLeMax distcc.spec
      → length claims < 2 ^ 31
      → length claims * users < 2 ^ 31
      → ((sync distcc s).0.1 ≡ none)
        × HasReplicas distcc (wanted distcc claims users) (sync distcc s).1.world
  leases_served s named service_named windowless deployment service valid cached leased per_user
        granted bounds few fits =
      let demands = leases-Demands s valid cached leased per_user granted bounds few fits in
      let (fine, order, passes) =
        sync_reaches distcc (wanted distcc claims users) s named service_named windowless deployment
          service demands in
      (fine, order.0)
