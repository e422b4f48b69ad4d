-- ===== src/ApiService/Ownership.antt =====
-- What the leases of pkg/apiserver/service/service.go write.
use k8cc.Prelude.{String, ◌≡◌, refl, subst, Option, none, some, Bool-cases, inl, inr, arith}
use k8cc.Prelude.Text.{join}
use k8cc.Clock.{Time}
use k8cc.GoError.{GoError, Result, ok, err}
use k8cc.Types.{Distcc, DistccClaim}
use k8cc.Library.{Library}
use k8cc.Cluster.{Cluster, Run, Write, created_claim, updated_claim}
use k8cc.Cluster.Writes.{Adds, Adds-refl, Adds-trans, Adds-if, Adds-write, Adds-read}
use k8cc.ApiService.Remote.{Store, Backoff}
use k8cc.ApiService.Attempts.{Found, get_with_retry-Adds, get_with_retry-Found}
use k8cc.ApiService.Claims.{make_claim_name, new_distcc_claim}
use k8cc.ApiService.Answers.{Tag, without_expiration, found_or_transient}
use k8cc.ApiService.Renewals.{renew_distcc_lease, clear_expiration, ask_renewal, claim_or_create}
use k8cc.ApiService.{distcc_getter, renewal_getter, lease_found, lease_distcc}

-- A claim of the user on the Distcc, without an expiration.
abbrev pub IsNewClaim : String → Distcc → DistccClaim → Type 0
IsNewClaim user distcc c =
    (c.metadata.name ≡ join "-" user distcc.metadata.name)
    × (c.metadata.namespace ≡ distcc.metadata.namespace)
    × (c.metadata.labels ≡ distcc.metadata.labels)
    × (c.spec.distcc_name ≡ distcc.metadata.name)
    × (c.spec.user_name ≡ user)
    × (c.status.expiration_time ≡ none)

module _ {W : Type 0} (store : Store W) (user : String) where
  -- The Distcc that the API server answers for the tag.
  abbrev pub IsTagged : Tag → Distcc → Type 0
  IsTagged tag distcc = (w : W) × ((store.get_distcc tag.namespace tag.name w).0 ≡ ok distcc)

  -- The claim of the user as the API server answers it: it was there, or it is a new one.
  pub data Answered (distcc : Distcc) (claim : DistccClaim) : Type 0 where
    stored :
        (w : W)
        → (store.get_claim distcc.metadata.namespace (join "-" user distcc.metadata.name) w).0
          ≡ ok claim
        → Answered distcc claim
    created :
        (c : DistccClaim) (w : W)
        → IsNewClaim user distcc c
        → (store.create_claim c w).0 ≡ ok claim
        → Answered distcc claim

  -- The claim of the user without the expiration that it had, and otherwise as it was.
  abbrev pub IsRenewal : Distcc → DistccClaim → Type 0
  IsRenewal distcc c =
      (claim : DistccClaim) × (t : Time) × Answered distcc claim
      × (claim.status.expiration_time ≡ some t)
      × (c ≡ record claim { status = record { expiration_time = none } })

  -- What LeaseDistcc may write.
  abbrev pub AsksLease : Tag → Write → Type 0
  AsksLease tag (created_claim c) =
      (distcc : Distcc) × IsTagged tag distcc × IsNewClaim user distcc c
  AsksLease tag (updated_claim c) = (distcc : Distcc) × IsTagged tag distcc × IsRenewal distcc c
  AsksLease tag _ = ⊥

found-tagged :
    ⦃lib : Library⦄ (r : Result Distcc) (distcc : Distcc)
    → found_or_transient r ≡ ok distcc
    → r ≡ ok distcc
unfolding found_or_transient
found-tagged (ok a) distcc h = h
found-tagged (err e) distcc h = absurd (ground arith)

module _ ⦃lib : Library⦄ {W : Type 0} ⦃cluster : Cluster W⦄ ⦃store : Store W⦄ (user : String)
    (tag : Tag) where
  module _ (distcc : Distcc) (tagged : IsTagged store user tag distcc) where
    new_claim_lem : IsNewClaim user distcc (new_distcc_claim user distcc)
    unfolding new_distcc_claim make_claim_name
    new_claim_lem = (refl, refl, refl, refl, refl, refl)

    claim_or_create-Adds :
        (r : Result DistccClaim) (s : Run W)
        → Adds (AsksLease store user tag) s (claim_or_create user distcc r s).1
    unfolding claim_or_create
    claim_or_create-Adds (ok claim) s = Adds-refl s
    claim_or_create-Adds (err e) s =
        let new = new_distcc_claim user distcc in
        Adds-if _ _ _
          (Adds-write (created_claim new) (store.create_claim new) s
            (distcc, tagged, new_claim_lem))
          (Adds-refl s)

    claim_or_create-Answered :
        (r : Result DistccClaim) (s : Run W) (claim : DistccClaim)
        → ((c : DistccClaim) → r ≡ ok c → Answered store user distcc c)
        → (claim_or_create user distcc r s).0 ≡ ok claim
        → Answered store user distcc claim
    unfolding claim_or_create
    claim_or_create-Answered (ok c) s claim known h = known claim h
    claim_or_create-Answered (err e) s claim known h = elim (Bool-cases (lib.is_not_found e)) [
      | inl missing ↦ created (new_distcc_claim user distcc) s.world new_claim_lem (rw missing at h)
      | inr broken ↦ absurd (let failed : err e ≡ ok claim = rw broken at h in ground arith)
    ]

    clear_expiration-Adds :
        (claim : DistccClaim) (t : Option Time) (s : Run W)
        → claim.status.expiration_time ≡ t
        → Answered store user distcc claim
        → Adds (AsksLease store user tag) s (clear_expiration claim t s).1
    unfolding clear_expiration
    clear_expiration-Adds claim none s has known = Adds-refl s
    clear_expiration-Adds claim (some t) s has known =
        Adds-write (updated_claim (without_expiration claim)) (cluster.update_claim _) s
          (distcc, tagged, (claim, t, known, has, refl))

    ask_renewal-Adds :
        (r : Result DistccClaim) (s : Run W)
        → ((claim : DistccClaim) → r ≡ ok claim → Answered store user distcc claim)
        → Adds (AsksLease store user tag) s (ask_renewal r s).1
    unfolding ask_renewal
    ask_renewal-Adds (err e) s known = Adds-refl s
    ask_renewal-Adds (ok claim) s known =
        clear_expiration-Adds claim claim.status.expiration_time s refl (known claim refl)

    renew_distcc_lease-Adds :
        (s : Run W) → Adds (AsksLease store user tag) s (renew_distcc_lease user distcc s).1
    unfolding renew_distcc_lease make_claim_name
    renew_distcc_lease-Adds s = Adds-trans (Adds-read (store.get_claim _ _) s) (
        Adds-trans (claim_or_create-Adds _ _) (
          ask_renewal-Adds _ _
            (λ claim h. claim_or_create-Answered _ _ claim (λ c got. stored s.world got) h)))

  module _ ⦃backoff : Backoff W⦄ where
    lease_found-Adds :
        (object : Option Distcc) (e : Option GoError) (s : Run W)
        → (e ≡ none → Found (IsTagged store user tag) object)
        → Adds (AsksLease store user tag) s (lease_found user tag (object, e) s).1
    unfolding lease_found renewal_getter
    lease_found-Adds object (some e) s known = Adds-refl s
    lease_found-Adds none none s known = Adds-refl s
    lease_found-Adds (some distcc) none s known =
        let (same, e, tagged) = known refl in
        let ours : IsTagged store user tag distcc =
          subst (IsTagged store user tag) (ground arith) tagged in
        Adds-trans
          (get_with_retry-Adds (renewal_getter user distcc) (AsksLease store user tag)
            (renew_distcc_lease-Adds distcc ours) s)
          (Adds-read cluster.now _)

    -- LeaseDistcc writes nothing but this, over all its attempts, with the Distcc that the API server
    -- answers for the tag: it creates the claim of the user on it, under the name of both and in the
    -- namespace and with the labels of the Distcc, without an expiration; or it updates the claim of
    -- that name, as the API server has answered it, to have no expiration, and leaves the rest.
    pub lease_distcc-AsksLease :
        (s : Run W) → Adds (AsksLease store user tag) s (lease_distcc user tag s).1
    unfolding lease_distcc distcc_getter
    lease_distcc-AsksLease s =
        Adds-trans
          (get_with_retry-Adds (distcc_getter tag) (AsksLease store user tag)
            (λ t. Adds-read (store.get_distcc tag.namespace tag.name) t) s)
          (lease_found-Adds _ _ _ (
            get_with_retry-Found (distcc_getter tag) (IsTagged store user tag)
              (λ t distcc h. (t.world, found-tagged _ distcc h)) s))
