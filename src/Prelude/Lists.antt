-- ===== src/Prelude/Lists.antt =====
-- Lists measured by native numbers, and predicates on every element.
use Prim.Native.Nat.{ℕ, suc, ◌+◌}
use mathlib.Core.Path.{◌≡◌}
use mathlib.Core.List.{List, [], ◌∷◌, ◌++◌}
use native.Mathlib.Omega.{arith}

module _ {ℓ} {A : Type ℓ} where
  abbrev pub length : List A → ℕ
  length [] = 0
  length (x ∷ xs) = suc (length xs)

  pub length-append : (xs ys : List A) → length (xs ++ ys) ≡ length xs + length ys
  length-append [] ys = omega arith
  length-append (x ∷ xs) ys = omega (arith, length-append xs ys)

  -- Every element satisfies the predicate.
  abbrev pub Each {κ} : List A → (A → Type κ) → Type κ
  Each [] holds = Unit
  Each (x ∷ xs) holds = holds x × Each xs holds

  pub Each-append {κ} :
      (front back : List A) (holds : A → Type κ)
      → Each front holds
      → Each back holds
      → Each (front ++ back) holds
  Each-append [] back holds _ there = there
  Each-append (x ∷ front) back holds here there =
      (here.0, Each-append front back holds here.1 there)
