-- ===== src/Cluster/Writes.antt =====
-- What a part of a run added to the writes, for the theorems on what the program writes.
use mathlib.Core.List.{append-nil, append_assoc}
use k8cc.Prelude.{
  List, [], ◌∷◌, ◌++◌, ◌≡◌, refl, sym, ◌∙◌, ap, Each, Each-append, Bool, true, false, if◌then◌else◌,
}
use k8cc.Cluster.{Run, Write, read, write}

-- The run went from `s` to `t` by writes that satisfy `P`.
pub record Adds {W : Type 0} (P : Write → Type 0) (s t : Run W) : Type 0 where
  pub added : List Write
  pub appended : t.writes ≡ s.writes ++ added
  pub satisfied : Each added P

module _ {W : Type 0} {P : Write → Type 0} where
  pub Adds-refl : (s : Run W) → Adds P s s
  Adds-refl s = record { added = []; appended = sym (append-nil s.writes); satisfied = tt }

  pub Adds-trans : {s t u : Run W} → Adds P s t → Adds P t u → Adds P s u
  Adds-trans {s} {t} {u} a b = record {
    added = a.added ++ b.added;
    appended =
        b.appended ∙ ap (λ ws. ws ++ b.added) a.appended ∙ append_assoc s.writes a.added b.added;
    satisfied = Each-append a.added b.added P a.satisfied b.satisfied;
  }

module _ {W A : Type 0} {P : Write → Type 0} where
  pub Adds-write :
      (entry : Write) (call : W → A × W) (s : Run W) → P entry → Adds P s (write entry call s).1
  Adds-write entry call s p = record { added = entry ∷ []; appended = refl; satisfied = (p, tt) }

  pub Adds-read : (call : W → A × W) (s : Run W) → Adds P s (read call s).1
  Adds-read call s = record { added = []; appended = sym (append-nil s.writes); satisfied = tt }

  pub Adds-if :
      (b : Bool) {s : Run W} (x y : A × Run W)
      → Adds P s x.1
      → Adds P s y.1
      → Adds P s (if b then x else y).1
  Adds-if true x y a b = a
  Adds-if false x y a b = b
