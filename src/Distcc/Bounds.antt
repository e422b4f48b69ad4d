-- ===== src/Distcc/Bounds.antt =====
-- The number of replicas that pkg/controller/distcc/distcc_controller.go asks for, against the
-- formula that it is meant to compute, and where the int32 arithmetic leaves it.
use k8cc.Prelude.{
  ℕ, suc, ◌+◌, ◌-◌, ◌*◌, ◌^◌, ◌≤◌, ◌<◌, ◌≡◌, refl, ◌∙◌, ap, Bool, false, Option, ltb, none, some,
  List, [], ◌∷◌, arith, length, Each, Bool-cases, inl, inr, if◌then◌else◌,
}
use k8cc.Prelude.Int.{
  ℤ, pos, negsuc, ◌+ℤ◌, ◌*ℤ◌, ◌≤ℤ◌, leb_ℤ, wrap32, wrap32_fits, pos-*ℤ-pos, pos-+ℤ-pos,
}
use k8cc.Clock.{Time, add}
use k8cc.Types.{DistccSpec, DistccClaim}
use k8cc.Distcc.Replicas.{counts, valid_claims, comply, replicas_for}

-- The claim has an expiration before the limit.
abbrev pub ends_before : Time → Option Time → Bool
ends_before limit none = false
ends_before limit (some t) = ltb t limit

-- How many claims have an expiration before the limit, be it in the past or not.
abbrev pub ending_before : Time → List DistccClaim → ℕ
ending_before limit [] = 0
ending_before limit (claim ∷ claims) =
    let rest = ending_before limit claims in
    if ends_before limit claim.status.expiration_time then suc rest else rest

abbrev pub min_ℤ : ℤ → ℤ → ℤ
min_ℤ a b = if leb_ℤ a b then a else b

abbrev pub max_ℤ : ℤ → ℤ → ℤ
max_ℤ a b = if leb_ℤ a b then b else a

-- An ideal number of replicas, cut to the bounds of the spec.
abbrev pub clamp : DistccSpec → ℤ → ℤ
clamp spec ideal =
    min_ℤ spec.max_replicas (elim spec.min_replicas [ none ↦ ideal | some low ↦ max_ℤ low ideal ])

abbrev pub MinLeMax : DistccSpec → Type 0
MinLeMax spec = elim spec.min_replicas [ none ↦ Unit | some low ↦ low ≤ℤ spec.max_replicas ]

counts_lem : (limit : Time) (e : Option Time) → counts limit e ≡ ends_before limit e
unfolding counts
counts_lem limit none = refl
counts_lem limit (some t) = refl

count_up : (n : ℕ) → n + 1 < 2 ^ 31 → wrap32 (pos n +ℤ pos 1) ≡ pos (n + 1)
count_up n h = rw (pos-+ℤ-pos n 1) (wrap32_fits (pos (n + 1)) (omega arith, omega arith))

-- The counter does not wrap while it stays an int32.
pub valid_claims-ending_before :
    (limit : Time) (n : ℕ) (claims : List DistccClaim)
    → n + length claims < 2 ^ 31
    → valid_claims limit (pos n) claims ≡ pos (n + ending_before limit claims)
unfolding valid_claims
valid_claims-ending_before limit n [] h = ap pos (omega arith)
valid_claims-ending_before limit n (claim ∷ claims) h =
    elim (Bool-cases (ends_before limit claim.status.expiration_time)) [
      | inl live_one ↦
          rw (counts_lem limit claim.status.expiration_time, live_one, count_up n (omega arith))
            (valid_claims-ending_before limit (n + 1) claims (omega arith) ∙ ap pos (omega arith))
      | inr dead ↦
          rw (counts_lem limit claim.status.expiration_time, dead)
            (valid_claims-ending_before limit n claims (omega arith))
    ]

pub comply-clamp :
    (spec : DistccSpec) (ideal : ℤ) → MinLeMax spec → comply spec ideal ≡ clamp spec ideal
unfolding comply
comply-clamp spec ideal h = ground arith

pub ending_before-le-length :
    (limit : Time) (claims : List DistccClaim) → ending_before limit claims ≤ length claims
ending_before-le-length limit [] = omega arith
ending_before-le-length limit (claim ∷ claims) =
    ground (arith, ending_before-le-length limit claims)

-- The ideal number, before the bounds.
pub ideal_lem :
    (limit : Time) (claims : List DistccClaim) (users : ℕ)
    → length claims < 2 ^ 31
    → wrap32 (valid_claims limit (pos 0) claims *ℤ pos users)
      ≡ wrap32 (pos (ending_before limit claims * users))
ideal_lem limit claims users h =
    rw (valid_claims-ending_before limit 0 claims (omega arith), pos-*ℤ-pos)
      (ap (λ (n : ℕ). wrap32 (pos (n * users))) (omega arith))

-- Where the replicas of a user are not negative, and their product with the number of claims that
-- have an expiration before the limit, expired ones included, fits an int32, the controller asks for
-- that product, cut to the maximum and then to the minimum, if the minimum is not above the
-- maximum.
pub replicas_for-clamp :
    (spec : DistccSpec) (limit : Time) (claims : List DistccClaim) (users : ℕ)
    → spec.user_replicas ≡ pos users
    → MinLeMax spec
    → length claims < 2 ^ 31
    → ending_before limit claims * users < 2 ^ 31
    → replicas_for spec limit claims ≡ clamp spec (pos (ending_before limit claims * users))
unfolding replicas_for
replicas_for-clamp spec limit claims users hu hm hl fits =
    rw
      (
        hu,
        ideal_lem limit claims users hl,
        wrap32_fits (pos (ending_before limit claims * users)) (omega arith, omega arith),
      )
      (comply-clamp spec (pos (ending_before limit claims * users)) hm)

comply_bounds :
    (spec : DistccSpec) (ideal low : ℤ)
    → MinLeMax spec
    → (comply spec ideal ≤ℤ spec.max_replicas)
      × (spec.min_replicas ≡ some low → low ≤ℤ comply spec ideal)
unfolding comply
comply_bounds spec ideal low h = (ground arith, λ e. ground arith)

-- Whatever the claims are, and also where the arithmetic wraps, the number is between the minimum
-- and the maximum of the spec, if these are in order.
pub replicas_for_bounds :
    (spec : DistccSpec) (limit : Time) (claims : List DistccClaim) (low : ℤ)
    → MinLeMax spec
    → (replicas_for spec limit claims ≤ℤ spec.max_replicas)
      × (spec.min_replicas ≡ some low → low ≤ℤ replicas_for spec limit claims)
unfolding replicas_for
replicas_for_bounds spec limit claims low h =
    comply_bounds spec (wrap32 (valid_claims limit (pos 0) claims *ℤ spec.user_replicas)) low h

clamp_mono : (spec : DistccSpec) (a b : ℕ) → a ≤ b → clamp spec (pos a) ≤ℤ clamp spec (pos b)
clamp_mono spec a b h = ground arith

ending_before-cons :
    (limit : Time) (claim : DistccClaim) (claims : List DistccClaim)
    → (ending_before limit claims ≤ ending_before limit (claim ∷ claims))
      × (ending_before limit (claim ∷ claims) ≤ ending_before limit claims + 1)
ending_before-cons limit claim claims = ground arith

mul_mono : (a b u : ℕ) → a ≤ b → a * u ≤ b * u
mul_mono a b u h = grind arith

-- One more claim never lowers the number of replicas, while the arithmetic fits.
pub replicas_for-cons_le :
    (spec : DistccSpec) (limit : Time) (claim : DistccClaim) (claims : List DistccClaim) (users : ℕ)
    → spec.user_replicas ≡ pos users
    → MinLeMax spec
    → length claims + 1 < 2 ^ 31
    → (ending_before limit claims + 1) * users < 2 ^ 31
    → replicas_for spec limit claims ≤ℤ replicas_for spec limit (claim ∷ claims)
replicas_for-cons_le spec limit claim claims users hu hm hl fits =
    let (more, few) = ending_before-cons limit claim claims in
    let grow =
      mul_mono (ending_before limit claims) (ending_before limit (claim ∷ claims)) users more in
    let stay =
      mul_mono (ending_before limit (claim ∷ claims)) (ending_before limit claims + 1) users few in
    rw
      (
        replicas_for-clamp spec limit claims users hu hm (omega arith) (omega arith),
        replicas_for-clamp spec limit (claim ∷ claims) users hu hm (omega arith) (omega arith),
      )
      (clamp_mono spec (ending_before limit claims * users)
        (ending_before limit (claim ∷ claims) * users) grow)

wrapped :
    (spec : DistccSpec) (n top : ℕ)
    → spec.min_replicas ≡ none
    → spec.max_replicas ≡ pos top
    → 2 ^ 31 ≤ n
    → n < 2 ^ 32
    → comply spec (wrap32 (pos n)) ≡ negsuc (2 ^ 32 - n - 1)
unfolding comply wrap32
wrapped spec n top hmin hmax low high = ground arith

-- Where the product of the replicas of a user and the number of claims that have an expiration before
-- the limit leaves the int32 range for the negative numbers, and no minimum is set, the controller
-- asks for a negative number of replicas.
pub replicas_for_overflow :
    (spec : DistccSpec) (limit : Time) (claims : List DistccClaim) (users top : ℕ)
    → spec.user_replicas ≡ pos users
    → spec.min_replicas ≡ none
    → spec.max_replicas ≡ pos top
    → length claims < 2 ^ 31
    → 2 ^ 31 ≤ ending_before limit claims * users
    → ending_before limit claims * users < 2 ^ 32
    → replicas_for spec limit claims ≡ negsuc (2 ^ 32 - ending_before limit claims * users - 1)
unfolding replicas_for
replicas_for_overflow spec limit claims users top hu hmin hmax hl low high =
    rw (hu, ideal_lem limit claims users hl)
      (wrapped spec (ending_before limit claims * users) top hmin hmax low high)

-- The claim has an expiration, and it has passed.
abbrev pub Expired : Time → DistccClaim → Type 0
Expired now claim = (t : Time) × (claim.status.expiration_time ≡ some t) × (t < now)

ending_before-Expired :
    (now lease : ℕ) (claims : List DistccClaim)
    → Each claims (Expired now)
    → ending_before (now + lease) claims ≡ length claims
unfolding counts
ending_before-Expired now lease [] h = refl
ending_before-Expired now lease (claim ∷ claims) h =
    let (t, set, past) = h.0 in rw set (ground (arith, ending_before-Expired now lease claims h.1))

-- Where every claim has an expiration in the past, the lease and the replicas of a user are not
-- negative, the minimum is not above the maximum, and the arithmetic fits an int32, the controller asks
-- for the product of all the claims and the replicas of a user, cut to the bounds: an expired claim
-- counts like a live one.
pub replicas_for-Expired :
    (spec : DistccSpec) (now lease : ℕ) (claims : List DistccClaim) (users : ℕ)
    → spec.lease_duration ≡ pos lease
    → spec.user_replicas ≡ pos users
    → MinLeMax spec
    → Each claims (Expired now)
    → length claims < 2 ^ 31
    → length claims * users < 2 ^ 31
    → replicas_for spec (add now spec.lease_duration) claims
      ≡ clamp spec (pos (length claims * users))
replicas_for-Expired spec now lease claims users hl hu hm gone short fits =
    let all_live = ending_before-Expired now lease claims gone in
    simp hl (
      replicas_for-clamp spec (now + lease) claims users hu hm short (rw all_live fits)
      ∙ ap (λ (n : ℕ). clamp spec (pos (n * users))) all_live)
