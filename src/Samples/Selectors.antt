-- ===== src/Samples/Selectors.antt =====
-- The selectors of the sample library.
use k8cc.Prelude.{
  String, [], ◌∷◌, ◌≡◌, refl, ◌↔◌, Bool, true, false, ◌&&◌, Option, none, some, arith, eq_iff, inl,
  inr, Bool-cases, if◌then◌else◌,
}
use k8cc.Prelude.Text.{str_eq, avoids}
use k8cc.Kube.{Labels, lookup, LabelSelector, Selector}

-- What is wanted is there.
abbrev present : Option String → Option String → Bool
present none have = true
present (some v) none = false
present (some v) (some w) = str_eq v w

covers : Labels → Labels → Labels → Bool
covers [] want have = true
covers ((k, v) ∷ rest) want have = present (lookup k want) (lookup k have) && covers rest want have

unfoldable covers_all : Labels → Selector
unfolding covers lookup
covers_all want have = covers want want have

present_iff :
    (want have : Option String)
    → (present want have ≡ true) ↔ ((v : String) → want ≡ some v → have ≡ some v)
present_iff none have = (λ _ v e. absurd (ground arith), λ _. refl)
present_iff (some v) none =
    (λ h w e. absurd (ground arith), λ h. absurd (let gone = h v refl in ground arith))
present_iff (some v) (some w) =
    (λ h u e. ground (arith, eq_iff v w), λ h. let same = h v refl in ground (arith, eq_iff v w))

covers_found :
    (rest want have : Labels) (k v : String)
    → covers rest want have ≡ true
    → lookup k rest ≡ some v
    → present (lookup k want) (lookup k have) ≡ true
unfolding covers lookup
covers_found [] want have k v h e = absurd (ground arith)
covers_found ((j, w) ∷ rest) want have k v h e = elim (Bool-cases (str_eq j k)) [
  | inl same ↦ rw (← (eq_iff j k).0 same) (ground arith)
  | inr other ↦ covers_found rest want have k v (ground arith) (rw other at e)
]

covers_of_all :
    (rest want have : Labels)
    → ((k v : String) → lookup k want ≡ some v → lookup k have ≡ some v)
    → covers rest want have ≡ true
unfolding covers
covers_of_all [] want have h = refl
covers_of_all ((k, v) ∷ rest) want have h =
    simp ((present_iff (lookup k want) (lookup k have)).1 (h k), covers_of_all rest want have h)

covers_all_iff :
    (want have : Labels)
    → (covers_all want have ≡ true)
      ↔ ((k v : String) → lookup k want ≡ some v → lookup k have ≡ some v)
unfolding covers_all
covers_all_iff want have = (
  λ h k v e.
      (present_iff (lookup k want) (lookup k have)).0 (covers_found want want have k v h e) v e,
  covers_of_all want want have,
)

-- A value with a slash is no label value.
abbrev valid_value : Option String → Bool
valid_value none = true
valid_value (some v) = avoids b'/' v

all_valid : Labels → Labels → Bool
all_valid [] want = true
all_valid ((k, v) ∷ rest) want = valid_value (lookup k want) && all_valid rest want

unfoldable pub from_set : Labels → Selector
unfolding covers_all all_valid lookup
from_set want have = if all_valid want want then covers_all want have else true

all_valid_of :
    (rest want : Labels)
    → ((k v : String) → lookup k want ≡ some v → avoids b'/' v ≡ true)
    → all_valid rest want ≡ true
unfolding all_valid
all_valid_of [] want h = refl
all_valid_of ((k, v) ∷ rest) want h = simp (one (lookup k want) (h k), all_valid_of rest want h)
  where
    one :
        (o : Option String)
        → ((u : String) → o ≡ some u → avoids b'/' u ≡ true)
        → valid_value o ≡ true
    one none each = refl
    one (some u) each = each u refl

not_valid :
    (rest want : Labels) (k v w : String)
    → lookup k rest ≡ some v
    → lookup k want ≡ some w
    → avoids b'/' w ≡ false
    → all_valid rest want ≡ false
unfolding all_valid lookup
not_valid [] want k v w h e bad = absurd (ground arith)
not_valid ((j, u) ∷ rest) want k v w h e bad = elim (Bool-cases (str_eq j k)) [
  | inl same ↦ rw ((eq_iff j k).0 same, e, bad) refl
  | inr other ↦
      let rest_bad = not_valid rest want k v w (rw other at h) e bad in ground (arith, rest_bad)
]

pub from_set_covers :
    (want have : Labels)
    → ((k v : String) → lookup k want ≡ some v → lookup k have ≡ some v)
    → from_set want have ≡ true
unfolding from_set
from_set_covers want have h =
    let covered = (covers_all_iff want have).1 h in ground (arith, covered)

pub from_set_valid :
    (want have : Labels)
    → ((k v : String) → lookup k want ≡ some v → avoids b'/' v ≡ true)
    → from_set want have ≡ true
    → (k v : String) → lookup k want ≡ some v
    → lookup k have ≡ some v
unfolding from_set
from_set_valid want have valid found =
    (covers_all_iff want have).0 (rw (all_valid_of want want valid) at found)

pub from_set_invalid :
    (want have : Labels) (k v : String)
    → lookup k want ≡ some v
    → avoids b'/' v ≡ false
    → from_set want have ≡ true
unfolding from_set
from_set_invalid want have k v e bad = rw (not_valid want want k v v e e bad) refl

-- metav1.LabelSelectorAsSelector for selectors without expressions: none selects nothing.
abbrev labels_or_none : Option Labels → Labels
labels_or_none none = []
labels_or_none (some ls) = ls

unfoldable pub selector_of : Option LabelSelector → Selector
unfolding covers_all
selector_of none have = false
selector_of (some s) have = covers_all (labels_or_none s.match_labels) have
