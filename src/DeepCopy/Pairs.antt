-- ===== src/DeepCopy/Pairs.antt =====
-- Deep copies of structs, pointers and slices from those of their parts.
use k8cc.Prelude.{ℕ, ◌≤◌, refl, ◌∙◌, Action, arith}
use k8cc.DeepCopy.Memory.{Heap, Agree-trans, Agree-narrow, Located, CopiedAt, Copyable}

le_self : (n : ℕ) → n ≤ n
le_self n = omega arith

-- A value without addresses is copied by assignment.
abbrev pub flat : (C A : Type 0) → Located C A A
flat C A = record {
  value = λ h a. a;
  Within = λ lo hi h a. Unit;
  within_frame = λ lo hi h k a inside agree. (tt, refl);
  within_widen = λ lo hi lo' hi' h a low high inside. tt;
}

pub flat-copied : {C A : Type 0} (hi : ℕ) (h : Heap C) (a : A) → CopiedAt (flat C A) h a (a, h)
flat-copied hi h a = record {
  grown = le_self h.next;
  untouched = λ p low high. refl;
  separate = tt;
  same_value = refl;
}

abbrev pub plain : (C A : Type 0) → Copyable C A A
plain C A = record {
  place = flat C A;
  copy = λ a h. (a, h);
  copied = λ hi h a inside below. flat-copied hi h a;
}

module _ {C A V B U : Type 0} (c : Located C A V) (d : Located C B U) where
  abbrev pub pair_value : Heap C → A × B → V × U
  pair_value h (a, b) = (c.value h a, d.value h b)

  abbrev pub PairWithin : ℕ → ℕ → Heap C → A × B → Type 0
  PairWithin lo hi h (a, b) = c.Within lo hi h a × d.Within lo hi h b

  abbrev pub pair : Located C (A × B) (V × U)
  pair = record {
    value = pair_value;
    Within = PairWithin;
    within_frame = λ lo hi h k x inside agree.
        let (v, e) = c.within_frame lo hi h k x.0 inside.0 agree in
        let (w, f) = d.within_frame lo hi h k x.1 inside.1 agree in ((v, w), λ i. (e i, f i));
    within_widen = λ lo hi lo' hi' h x low high inside. (
      c.within_widen lo hi lo' hi' h x.0 low high inside.0,
      d.within_widen lo hi lo' hi' h x.1 low high inside.1,
    );
  }

  -- One part is copied, and then the other.
  pub pair-copied :
      (hi : ℕ) (h k l : Heap C) (a a' : A) (b b' : B)
      → PairWithin 0 hi h (a, b)
      → hi ≤ h.next
      → CopiedAt c h a (a', k)
      → (d.Within 0 hi k b → hi ≤ k.next → CopiedAt d k b (b', l))
      → CopiedAt pair h (a, b) ((a', b'), l)
  pair-copied hi h k l a a' b b' (in_a, in_b) below first rest =
      let old = Agree-narrow 0 h.next 0 hi h k (omega arith) below first.untouched in
      let (still_b, value_b) = d.within_frame 0 hi h k b in_b old in
      let second = rest still_b (omega (arith, first.grown)) in
      let grown = first.grown in
      let grown' = second.grown in
      let mine =
        Agree-narrow 0 k.next h.next k.next k l (omega arith) (omega arith) second.untouched in
      let (kept_a, value_a) = c.within_frame h.next k.next k l a' first.separate mine in
      record {
        grown = omega arith;
        untouched =
            Agree-trans 0 h.next h k l first.untouched
              (Agree-narrow 0 k.next 0 h.next k l (omega arith) grown second.untouched);
        separate = (
          c.within_widen h.next k.next h.next l.next l a' (omega arith) grown' kept_a,
          d.within_widen k.next l.next h.next l.next l b' grown (omega arith) second.separate,
        );
        same_value = λ i. ((value_a ∙ first.same_value) i, (second.same_value ∙ value_b) i);
      }

module _ {C A V B U : Type 0} (c : Copyable C A V) (d : Copyable C B U) where
  abbrev pub copy_both : A × B → Action (Heap C) (A × B)
  copy_both (a, b) h = let (a', k) = c.copy a h in let (b', l) = d.copy b k in ((a', b'), l)

  pub both-copied :
      (hi : ℕ) (h : Heap C) (x : A × B)
      → PairWithin c.place d.place 0 hi h x
      → hi ≤ h.next
      → CopiedAt (pair c.place d.place) h x (copy_both x h)
  both-copied hi h (a, b) inside below =
      let (a', k) = c.copy a h in
      let (b', l) = d.copy b k in
      pair-copied c.place d.place hi h k l a a' b b' inside below (c.copied hi h a inside.0 below)
        (d.copied hi k b)

  abbrev pub both : Copyable C (A × B) (V × U)
  both = record { place = pair c.place d.place; copy = copy_both; copied = both-copied }
