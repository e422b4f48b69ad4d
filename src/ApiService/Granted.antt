-- ===== src/ApiService/Granted.antt =====
-- The claims of pkg/apiserver/service/service.go before the controller of claims,
-- pkg/controller/distccclaim/distccclaim_controller.go, and the names of the claims.
use k8cc.Prelude.{ℕ, String, ◌+◌, ◌≤◌, ◌≡◌, ◌≢◌, ◌∙◌, ap, sym, refl, true, Option, some, arith}
use k8cc.Prelude.Int.{pos}
use k8cc.Prelude.Text.{avoids, cut_at, cut_at-append}
use k8cc.Clock.{second, truncate}
use k8cc.GoError.{ok}
use k8cc.Types.{Distcc}
use k8cc.Library.{Library}
use k8cc.Cluster.{Cluster, Run}
use k8cc.Claim.{sync}
use k8cc.Claim.Outcomes.{checked, updating, fresh_claim_granted}
use k8cc.ApiService.Claims.{make_claim_name, new_distcc_claim}

-- Two users without a dash in their names never share the name of a claim, nor does one user for two
-- resources.
pub make_claim_name-injective :
    (u v a b : String)
    → avoids b'-' u ≡ true
    → avoids b'-' v ≡ true
    → make_claim_name u a ≡ make_claim_name v b
    → (u ≡ v) × (a ≡ b)
unfolding make_claim_name
make_claim_name-injective u v a b h k same =
    let parts : ◌≡◌ {A = Option (String × String)} (some (u, a)) (some (v, b)) =
      sym (cut_at-append "-" u a h) ∙ ap (cut_at b'-') same ∙ cut_at-append "-" v b k in
    ground arith

module _ ⦃lib : Library⦄ {W : Type 0} ⦃cluster : Cluster W⦄ where
  -- The controller grants the lease that the service asks for: the new claim of a user on a Distcc
  -- that is in the cache is updated with the end of the lease in whole seconds, if the lease has a
  -- second more than the clock moves between its two readings.
  pub created_claim_granted :
      (user : String) (distcc : Distcc) (s : Run W) (d : ℕ)
      → distcc.metadata.name ≢ ""
      → cluster.cached_distcc s.world distcc.metadata.namespace distcc.metadata.name ≡ ok distcc
      → distcc.spec.lease_duration ≡ pos d
      → (checked s).0 + second ≤ (cluster.now s.world).0 + d
      → (sync (new_distcc_claim user distcc) s).1
        ≡ updating (new_distcc_claim user distcc) (truncate ((cluster.now s.world).0 + d)) s
  unfolding new_distcc_claim
  created_claim_granted user distcc s d named cached lease slow =
      fresh_claim_granted (new_distcc_claim user distcc) distcc s d (named, cached) (λ k v h. h)
        refl lease slow
