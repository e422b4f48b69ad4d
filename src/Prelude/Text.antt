-- ===== src/Prelude/Text.antt =====
-- Texts: concatenation under a name of its own beside that of lists, and equality as a test.
pub use Prim.Native.String.{◌++◌ as ◌<>◌}
pub use text.Mathlib.Text.{◌==◌ as str_eq}
use Prim.Native.Char.{Char, code}
use Prim.Native.Nat.{ℕ}
use Prim.Native.String.{String, [], ◌∷◌}
use k8cc.Prelude.Tests.{◌==◌, if◌then◌else◌}
use mathlib.Core.Bool.{Bool, true, false, not, ◌&&◌}
use mathlib.Core.Logic.{◌≢◌}
use mathlib.Core.Option.{Option, none, some}
use mathlib.Core.Path.{◌≡◌, refl}
use native.Mathlib.Omega.{arith}
use text.Mathlib.TextEquality.{eq_iff}
use text.Mathlib.TextLemmas.{nil-append, cons-append}
use text.Mathlib.TextPositions.{eq_refl}

pub str_eq_refl : (s : String) → str_eq s s ≡ true
str_eq_refl s = eq_refl s

pub str_eq_ne : (s t : String) → s ≢ t → str_eq s t ≡ false
str_eq_ne s t h = ground (arith, eq_iff s t)

-- The text has no character of this code.
abbrev pub avoids : ℕ → String → Bool
avoids sep [] = true
avoids sep (c ∷ s) = not (code c == sep) && avoids sep s

-- What stands before and behind the first character of this code.
abbrev pub cut_at : ℕ → String → Option (String × String)
cut_at sep [] = none
cut_at sep (c ∷ s) =
    let rest = cut_at sep s in
    if code c == sep
    then some ([], s)
    else (elim rest [ none ↦ none | some (before, behind) ↦ some (c ∷ before, behind) ])

-- Two texts with a character between them.
abbrev pub join : Char → String → String → String
join sep s t = s <> (sep ∷ t)

-- A text in two parts is cut between them, if the first part has no separator.
pub cut_at-append :
    (sep : Char) (s t : String)
    → avoids (code sep) s ≡ true
    → cut_at (code sep) (join sep s t) ≡ some (s, t)
cut_at-append sep [] t h = rw nil-append (ground arith)
cut_at-append sep (c ∷ s) t h = rw cons-append (ground (arith, cut_at-append sep s t))

pub cut_at-avoids : (sep : ℕ) (s : String) → avoids sep s ≡ true → cut_at sep s ≡ none
cut_at-avoids sep [] h = refl
cut_at-avoids sep (c ∷ s) h = ground (arith, cut_at-avoids sep s)
