-- ===== src/Lifecycle/Tests.antt =====
-- A history of a claim, and the theorems about histories at it.
use k8cc.Prelude.{
  ℕ, String, ◌+◌, ◌≤◌, ◌≡◌, subst, ◌≢◌, refl, ◌⊎◌, Option, none, some, arith, eq_iff,
}
use k8cc.Clock.{add}
use k8cc.GoError.{ok}
use k8cc.Types.{Distcc, DistccClaim}
use k8cc.Claim.{sync}
use k8cc.ApiService.Claims.{new_distcc_claim}
use k8cc.ApiService.Renewals.{renew_distcc_lease}
use k8cc.Samples.{sample_library, Answers, nothing}
use k8cc.Samples.Objects.{dev, claim_until}
use k8cc.Samples.Selectors.{from_set}
use k8cc.Samples.Servers.{Server, serving, keeping, kept}
use k8cc.Lifecycle.Spec.{ControllerStep, ServiceStep}
use k8cc.Lifecycle.Granting.{LeasesWithin}
use k8cc.Lifecycle.Refinement.{Step-refines, lease_bounded}
use k8cc.Lifecycle.Races.{renewal_lost}
use k8cc.Lifecycle.{controller, renewal, here, next, run_of, view}

abbrev with_dev : Answers
with_dev = record nothing { distcc = ok dev }

abbrev fresh : Server
fresh = record { time = 1_000_500_000_000; claim = none }

-- The user "mike" asks for a lease, and the controller grants it.
abbrev asked_for : Server
asked_for = record { time = 1_000_500_000_000; claim = some (new_distcc_claim "mike" dev) }

abbrev granted : Server
granted = record { time = 1_002_500_000_000; claim = some (claim_until (some 1_600_000_000_000)) }

asking :
    asked_for
    ≡ (renew_distcc_lease ⦃cluster = serving with_dev⦄ ⦃store = keeping with_dev⦄ "mike" dev
        (run_of fresh)).1.world
unfolding renew_distcc_lease
asking = refl

granting :
    granted ≡ (sync ⦃cluster = serving with_dev⦄ (claim_until none) (run_of asked_for)).1.world
unfolding sync from_set
granting = refl

abbrev longest : ℕ
longest = 600_000_000_000

within : LeasesWithin Server ⦃cluster = serving with_dev⦄ longest
within w ns n d e t =
    let same : dev ≡ d = ground arith in
    subst (λ (d : Distcc). add t d.spec.lease_duration ≤ t + longest) same (omega arith)

Step-refines_example :
    (1_000_500_000_000 ≤ 1_002_500_000_000)
    × (ControllerStep longest 1_000_500_000_000 1_002_500_000_000
          (view ⦃cluster = serving with_dev⦄ ⦃store = keeping with_dev⦄ ⦃backend = kept with_dev⦄
            asked_for "default" "mike-dev")
          (view ⦃cluster = serving with_dev⦄ ⦃store = keeping with_dev⦄ ⦃backend = kept with_dev⦄
            granted "default" "mike-dev")
        ⊎ ServiceStep
            (view ⦃cluster = serving with_dev⦄ ⦃store = keeping with_dev⦄ ⦃backend = kept with_dev⦄
              asked_for "default" "mike-dev")
            (view ⦃cluster = serving with_dev⦄ ⦃store = keeping with_dev⦄ ⦃backend = kept with_dev⦄
              granted "default" "mike-dev"))
Step-refines_example =
    Step-refines ⦃cluster = serving with_dev⦄ ⦃store = keeping with_dev⦄ ⦃backend = kept with_dev⦄
      longest within "default" "mike-dev" (controller (claim_until none) granting)

lease_bounded_example : 1_600_000_000_000 ≤ 1_002_500_000_000 + longest
lease_bounded_example =
    lease_bounded ⦃cluster = serving with_dev⦄ ⦃store = keeping with_dev⦄ ⦃backend = kept with_dev⦄
      longest within "default" "mike-dev" {w = fresh} {v = granted} refl
      (next (next here (renewal "mike" dev asking)) (controller (claim_until none) granting)) refl
      refl

named : ◌≢◌ {A = String} "dev" ""
named e = ground (arith, eq_iff "dev" "")

-- The claim has been renewed, and a cache still has the copy that has expired.
renewal_lost_example :
    ◌≡◌ {A = Option DistccClaim}
      (sync ⦃cluster = serving with_dev⦄
        (claim_until (some 900_000_000_000))
        (run_of asked_for)).1.world.claim
      none
renewal_lost_example =
    renewal_lost ⦃cluster = serving with_dev⦄ ⦃store = keeping with_dev⦄ ⦃backend = kept with_dev⦄
      (claim_until (some 900_000_000_000)) dev 900_000_000_000 asked_for (named, refl) (λ k v h. h)
      refl (omega arith) (omega arith) refl
