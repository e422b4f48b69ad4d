-- ===== src/Claim/Outcomes.antt =====
-- The outcomes of `Sync` of pkg/controller/distccclaim/distccclaim_controller.go.
use k8cc.Prelude.{
  ℕ, String, ◌+◌, ◌≤◌, ◌<◌, ◌≡◌, ◌≢◌, ◌∙◌, ap, Bool, true, false, Option, none, some, [], ◌∷◌, ◌++◌,
  arith, lt→ltb, le→ltb_false,
}
use k8cc.Prelude.Int.{pos}
use k8cc.Prelude.Text.{str_eq_ne}
use k8cc.Clock.{Time, add, truncate, second, add_positive}
use k8cc.GoError.{GoError, ok, error_of}
use k8cc.Errors.{transient_or_nil}
use k8cc.Kube.{lookup}
use k8cc.Types.{Distcc, DistccClaim}
use k8cc.Library.{Library}
use k8cc.Lease.{renew}
use k8cc.Lease.Renewal.{renew_within, renew_beyond, renew_missing}
use k8cc.Cluster.{Cluster, Run, deleted_claim, updated_claim}
use k8cc.Claim.{with_expiration, settle, sync}

-- Each label of the Distcc is a label of the claim.
abbrev pub Matches : Distcc → DistccClaim → Type 0
Matches distcc claim =
    (k v : String)
    → lookup k distcc.metadata.labels ≡ some v
    → lookup k claim.metadata.labels ≡ some v

-- The expiration is missing or beyond the limit.
abbrev pub Exceeds : Time → Option Time → Type 0
Exceeds limit none = Unit
Exceeds limit (some t) = limit < t

module _ ⦃lib : Library⦄ where
  renew_exceeding :
      (limit : Time) (e : Option Time) → Exceeds limit e → renew limit e ≡ (truncate limit, true)
  renew_exceeding limit none h = renew_missing limit
  renew_exceeding limit (some t) h = renew_beyond limit t h

module _ ⦃lib : Library⦄ {W : Type 0} ⦃cluster : Cluster W⦄ where
  -- The Distcc that the claim names is in the cache.
  abbrev pub HasDistcc : DistccClaim → W → Distcc → Type 0
  HasDistcc claim w distcc =
      (claim.spec.distcc_name ≢ "")
      × (cluster.cached_distcc w claim.metadata.namespace claim.spec.distcc_name ≡ ok distcc)

  -- The limit of the expiration, at the first reading of the clock.
  abbrev pub limit : Distcc → Run W → Time
  limit distcc s = add (cluster.now s.world).0 distcc.spec.lease_duration

  -- The second reading of the clock, and the world behind it.
  abbrev pub checked : Run W → Time × W
  checked s = cluster.now (cluster.now s.world).1

  unfoldable pub deleting : DistccClaim → Run W → Run W
  deleting claim s = record {
    world = (cluster.delete_claim claim.metadata.namespace claim.metadata.name (checked s).1).1;
    writes = s.writes ++ deleted_claim claim.metadata.namespace claim.metadata.name ∷ [];
  }

  unfoldable pub updating : DistccClaim → Time → Run W → Run W
  updating claim expiration s = record {
    world = (cluster.update_claim (with_expiration claim expiration) (checked s).1).1;
    writes = s.writes ++ updated_claim (with_expiration claim expiration) ∷ [];
  }

  sync_leased :
      (claim : DistccClaim) (distcc : Distcc) (s : Run W)
      → HasDistcc claim s.world distcc
      → Matches distcc claim
      → sync claim s
        ≡ settle claim
            (renew (limit distcc s) claim.status.expiration_time)
            (record s { world = (cluster.now s.world).1 })
  unfolding sync
  sync_leased claim distcc s has matches = simp (
    str_eq_ne claim.spec.distcc_name "" has.0,
    has.1,
    lib.as_selector_covers distcc.metadata.labels claim.metadata.labels matches,
  )

  -- A claim whose expiration is within the lease and has not passed is left as it is.
  pub sync_live :
      (claim : DistccClaim) (distcc : Distcc) (s : Run W) (t : Time)
      → HasDistcc claim s.world distcc
      → Matches distcc claim
      → claim.status.expiration_time ≡ some t
      → t ≤ limit distcc s
      → (checked s).0 ≤ t
      → sync claim s ≡ ((false, none), record s { world = (checked s).1 })
  unfolding settle
  sync_live claim distcc s t has matches set within live =
      rw (sync_leased claim distcc s has matches)
        (simp (set, renew_within (limit distcc s) t within, le→ltb_false t (checked s).0 live))

  -- A claim whose expiration is within the lease and has passed is deleted, and that is all; the
  -- error of the deletion is reported as transient.
  pub sync_expired :
      (claim : DistccClaim) (distcc : Distcc) (s : Run W) (t : Time)
      → HasDistcc claim s.world distcc
      → Matches distcc claim
      → claim.status.expiration_time ≡ some t
      → t ≤ limit distcc s
      → t < (checked s).0
      → sync claim s ≡ (
        (
          false,
          transient_or_nil
              (cluster.delete_claim claim.metadata.namespace claim.metadata.name (checked s).1).0,
        ),
        deleting claim s,
      )
  unfolding settle deleting
  sync_expired claim distcc s t has matches set within gone =
      rw (sync_leased claim distcc s has matches)
        (simp (set, renew_within (limit distcc s) t within, lt→ltb t (checked s).0 gone))

  -- A claim with no expiration, or with one beyond the lease, is updated: its expiration becomes the
  -- end of the lease in whole seconds, unless that has passed at the second reading of the clock.
  pub sync_renews :
      (claim : DistccClaim) (distcc : Distcc) (s : Run W)
      → HasDistcc claim s.world distcc
      → Matches distcc claim
      → Exceeds (limit distcc s) claim.status.expiration_time
      → (checked s).0 ≤ truncate (limit distcc s)
      → sync claim s ≡ (
        (
          true,
          transient_or_nil (
              error_of
                (cluster.update_claim
                  (with_expiration claim (truncate (limit distcc s)))
                  (checked s).1).0),
        ),
        updating claim (truncate (limit distcc s)) s,
      )
  unfolding settle updating
  sync_renews claim distcc s has matches over live = rw (sync_leased claim distcc s has matches) (
      simp (
        renew_exceeding (limit distcc s) claim.status.expiration_time over,
        le→ltb_false (truncate (limit distcc s)) (checked s).0 live,
      ))

  -- A lease of a second or more is granted: a claim with no expiration is updated and not deleted, if
  -- the clock moves by no more than the lease less a second between its two readings.
  pub fresh_claim_granted :
      (claim : DistccClaim) (distcc : Distcc) (s : Run W) (d : ℕ)
      → HasDistcc claim s.world distcc
      → Matches distcc claim
      → claim.status.expiration_time ≡ none
      → distcc.spec.lease_duration ≡ pos d
      → (checked s).0 + second ≤ (cluster.now s.world).0 + d
      → (sync claim s).1 ≡ updating claim (truncate ((cluster.now s.world).0 + d)) s
  fresh_claim_granted claim distcc s d has matches unset lease slow =
      let ends : limit distcc s ≡ (cluster.now s.world).0 + d =
        add_positive (cluster.now s.world).0 d distcc.spec.lease_duration lease in
      let over : Exceeds (limit distcc s) claim.status.expiration_time = rw unset tt in
      let live : (checked s).0 ≤ truncate (limit distcc s) = rw ends (omega arith) in
      ap (λ (r : (Bool × Option GoError) × Run W). r.1)
        (sync_renews claim distcc s has matches over live)
      ∙ ap (λ (t : Time). updating claim (truncate t) s) ends
