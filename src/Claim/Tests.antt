-- ===== src/Claim/Tests.antt =====
-- Tests of the controller of claims, and its theorems at concrete inputs.
use k8cc.Prelude.{
  String, ◌+◌, ◌≤◌, ◌<◌, ◌≡◌, ◌≢◌, refl, true, false, Option, none, some, [], arith, eq_iff,
}
use k8cc.Prelude.Int.{pos}
use k8cc.Clock.{Time, second}
use k8cc.GoError.{ok}
use k8cc.Types.{Distcc}
use k8cc.Cluster.{Run}
use k8cc.Cluster.Writes.{Adds}
use k8cc.Lease.{renew}
use k8cc.Lease.Renewal.{NotProlonged, renew_bounds}
use k8cc.Samples.{sample_library, answering, Answers, nothing}
use k8cc.Samples.Objects.{dev, claim_until}
use k8cc.Claim.{sync}
use k8cc.Claim.Outcomes.{Matches, updating, fresh_claim_granted}
use k8cc.Claim.Ownership.{IsClaimWrite, sync-IsClaimWrite}

-- Half a second past second 1000.
abbrev start : Run Time
start = record { world = 1_000_500_000_000; writes = [] }

abbrev with_dev : Answers
with_dev = record nothing { distcc = ok dev }

named : ◌≢◌ {A = String} "dev" ""
named e = ground (arith, eq_iff "dev" "")

same_labels : (t : Option Time) → Matches dev (claim_until t)
same_labels t k v h = h

fresh_claim_granted_example :
    (sync ⦃cluster = answering with_dev⦄ (claim_until none) start).1
    ≡ updating ⦃cluster = answering with_dev⦄ (claim_until none) 1_600_000_000_000 start
fresh_claim_granted_example =
    fresh_claim_granted ⦃cluster = answering with_dev⦄ (claim_until none) dev start 600_000_000_000
      (named, refl) (same_labels none) refl refl (omega arith)

-- A lease of a tenth of a second.
abbrev hasty : Distcc
hasty = record dev { spec = record dev.spec { lease_duration = pos 100_000_000 } }

abbrev with_hasty : Answers
with_hasty = record nothing { distcc = ok hasty }

sync-IsClaimWrite_example :
    Adds
      (IsClaimWrite (claim_until none))
      start
      (sync ⦃cluster = answering with_dev⦄ (claim_until none) start).1
sync-IsClaimWrite_example =
    sync-IsClaimWrite ⦃cluster = answering with_dev⦄ (claim_until none) start

renew_bounds_example :
    ((renew 1_600_500_000_000 none).0 ≤ 1_600_500_000_000)
    × NotProlonged none (renew 1_600_500_000_000 none).0
    × ((renew 1_600_500_000_000 none).1 ≡ true
        → 1_600_500_000_000 < (renew 1_600_500_000_000 none).0 + second)
    × ((renew 1_600_500_000_000 none).1 ≡ false
        → ◌≡◌ {A = Option Time} none (some (renew 1_600_500_000_000 none).0))
renew_bounds_example = renew_bounds 1_600_500_000_000 none
