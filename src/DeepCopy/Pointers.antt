-- ===== src/DeepCopy/Pointers.antt =====
-- Deep copies of slices' elements, of what a pointer points to, and of structs by their fields.
use k8cc.Prelude.{
  ℕ, ◌+◌, ◌≤◌, ◌<◌, ◌≡◌, refl, ◌∙◌, ap, sym, subst, Action, Option, none, some, List, [], ◌∷◌,
  arith,
}
use k8cc.DeepCopy.Memory.{
  Heap, Agree, store, new, Agree-trans, Agree-narrow, store-Agree, store-Agree_behind, new-Agree,
  cell-store, Located, CopiedAt, Copyable,
}
use k8cc.DeepCopy.Pairs.{pair-copied}

module _ {C A V : Type 0} (c : Located C A V) where
  abbrev pub list_value : Heap C → List A → List V
  list_value h [] = []
  list_value h (a ∷ rest) = c.value h a ∷ list_value h rest

  abbrev pub ListWithin : ℕ → ℕ → Heap C → List A → Type 0
  ListWithin lo hi h [] = Unit
  ListWithin lo hi h (a ∷ rest) = c.Within lo hi h a × ListWithin lo hi h rest

  pub list_frame :
      (lo hi : ℕ) (h k : Heap C) (rest : List A)
      → ListWithin lo hi h rest
      → Agree lo hi h k
      → ListWithin lo hi k rest × (list_value k rest ≡ list_value h rest)
  list_frame lo hi h k [] inside agree = (tt, refl)
  list_frame lo hi h k (a ∷ rest) (x, xs) agree =
      let (v, e) = c.within_frame lo hi h k a x agree in
      let (vs, es) = list_frame lo hi h k rest xs agree in ((v, vs), λ i. e i ∷ es i)

  pub list_widen :
      (lo hi lo' hi' : ℕ) (h : Heap C) (rest : List A)
      → lo' ≤ lo
      → hi ≤ hi'
      → ListWithin lo hi h rest
      → ListWithin lo' hi' h rest
  list_widen lo hi lo' hi' h [] low high inside = tt
  list_widen lo hi lo' hi' h (a ∷ rest) low high (x, xs) =
      (c.within_widen lo hi lo' hi' h a low high x, list_widen lo hi lo' hi' h rest low high xs)

  abbrev pub list : Located C (List A) (List V)
  list = record {
    value = list_value;
    Within = ListWithin;
    within_frame = list_frame;
    within_widen = list_widen;
  }

module _ {C A V : Type 0} (c : Copyable C A V) where
  -- for i := range *in { (*in)[i].DeepCopyInto(&(*out)[i]) }
  unfoldable pub copy_each : List A → Action (Heap C) (List A)
  copy_each [] h = ([], h)
  copy_each (a ∷ rest) h =
      let (a', k) = c.copy a h in let (rest', l) = copy_each rest k in (a' ∷ rest', l)

  pub each-copied :
      (hi : ℕ) (h : Heap C) (rest : List A)
      → ListWithin c.place 0 hi h rest
      → hi ≤ h.next
      → CopiedAt (list c.place) h rest (copy_each rest h)
  unfolding copy_each
  each-copied hi h [] inside below = record {
    grown = omega arith;
    untouched = λ p low high. refl;
    separate = tt;
    same_value = refl;
  }
  each-copied hi h (a ∷ rest) (x, xs) below =
      let (a', k) = c.copy a h in
      let (rest', l) = copy_each rest k in
      let done =
        pair-copied c.place (list c.place) hi h k l a a' rest rest' (x, xs) below
          (c.copied hi h a x below) (λ still bound. each-copied hi k rest still bound) in
      record {
        grown = done.grown;
        untouched = done.untouched;
        separate = done.separate;
        same_value = ap (λ (p : V × List V). p.0 ∷ p.1) done.same_value;
      }

  abbrev pub each : Copyable C (List A) (List V)
  each = record { place = list c.place; copy = copy_each; copied = each-copied }

-- A type of values that is a struct of others: `to` has its fields, `out` builds what it stands for.
module _ {C A V R U : Type 0} (c : Copyable C A V) (to : R → A) (out : V → U)
    (copy : R → Action (Heap C) R)
    (fields : (r : R) (h : Heap C) → (to (copy r h).0, (copy r h).1) ≡ c.copy (to r) h) where
  abbrev pub struct_place : Located C R U
  struct_place = record {
    value = λ h r. out (c.place.value h (to r));
    Within = λ lo hi h r. c.place.Within lo hi h (to r);
    within_frame = λ lo hi h k r inside agree.
        let (v, e) = c.place.within_frame lo hi h k (to r) inside agree in (v, ap out e);
    within_widen = λ lo hi lo' hi' h r low high inside.
        c.place.within_widen lo hi lo' hi' h (to r) low high inside;
  }

  pub struct-copied :
      (hi : ℕ) (h : Heap C) (r : R)
      → struct_place.Within 0 hi h r
      → hi ≤ h.next
      → CopiedAt struct_place h r (copy r h)
  struct-copied hi h r inside below =
      let done : CopiedAt c.place h (to r) (to (copy r h).0, (copy r h).1) =
        subst (λ x. CopiedAt c.place h (to r) x) (sym (fields r h))
          (c.copied hi h (to r) inside below) in
      record {
        grown = done.grown;
        untouched = done.untouched;
        separate = done.separate;
        same_value = ap out done.same_value;
      }

  abbrev pub struct : Copyable C R U
  struct = record { place = struct_place; copy = copy; copied = struct-copied }

-- A pointer, which may be nil, to a cell that holds an `A`.
module _ {C A V : Type 0} (c : Copyable C A V) (wrap : A → C) (unwrap : C → A) (zero_value : A)
    (held : (a : A) → unwrap (wrap a) ≡ a) where
  -- *out = new(T), and the copy of *in into it
  unfoldable pub copy_pointer : Option ℕ → Action (Heap C) (Option ℕ)
  unfolding new store
  copy_pointer none h = (none, h)
  copy_pointer (some p) h =
      let (q, k) = new (wrap zero_value) h in
      let (a, l) = c.copy (unwrap (k.cell p)) k in (some q, store q (wrap a) l)

  abbrev pub pointer_value : Heap C → Option ℕ → Option V
  pointer_value h none = none
  pointer_value h (some p) = some (c.place.value h (unwrap (h.cell p)))

  abbrev pub PointerWithin : ℕ → ℕ → Heap C → Option ℕ → Type 0
  PointerWithin lo hi h none = Unit
  PointerWithin lo hi h (some p) = (lo ≤ p) × (p < hi) × c.place.Within lo hi h (unwrap (h.cell p))

  pub pointer_frame :
      (lo hi : ℕ) (h k : Heap C) (r : Option ℕ)
      → PointerWithin lo hi h r
      → Agree lo hi h k
      → PointerWithin lo hi k r × (pointer_value k r ≡ pointer_value h r)
  pointer_frame lo hi h k none inside agree = (tt, refl)
  pointer_frame lo hi h k (some p) (low, high, inside) agree =
      let (v, e) = c.place.within_frame lo hi h k (unwrap (h.cell p)) inside agree in
      rw (agree p low high) ((low, high, v), ap some e)

  pub pointer_widen :
      (lo hi lo' hi' : ℕ) (h : Heap C) (r : Option ℕ)
      → lo' ≤ lo
      → hi ≤ hi'
      → PointerWithin lo hi h r
      → PointerWithin lo' hi' h r
  pointer_widen lo hi lo' hi' h none low high inside = tt
  pointer_widen lo hi lo' hi' h (some p) low high (a, b, inside) =
      (omega arith, omega arith, c.place.within_widen lo hi lo' hi' h _ low high inside)

  abbrev pub pointer_place : Located C (Option ℕ) (Option V)
  pointer_place = record {
    value = pointer_value;
    Within = PointerWithin;
    within_frame = pointer_frame;
    within_widen = pointer_widen;
  }

  -- The content of a new cell, copied behind it.
  pub filled-copied :
      (h k l : Heap C) (p : ℕ) (a : A)
      → k.next ≡ h.next + 1
      → Agree 0 h.next h k
      → p < h.next
      → k.cell p ≡ h.cell p
      → CopiedAt c.place k (unwrap (h.cell p)) (a, l)
      → c.place.value k (unwrap (h.cell p)) ≡ c.place.value h (unwrap (h.cell p))
      → CopiedAt pointer_place h (some p) (some h.next, store h.next (wrap a) l)
  unfolding store
  filled-copied h k l p a one old inside same done still =
      let m : Heap C = store h.next (wrap a) l in
      let grown = done.grown in
      let behind : Agree k.next l.next l m =
        Agree-narrow (h.next + 1) l.next k.next l.next l m (omega arith) (omega arith)
          (store-Agree_behind h.next l.next (wrap a) l) in
      let (w, e) = c.place.within_frame k.next l.next l m a done.separate behind in
      let content : unwrap (m.cell h.next) ≡ a =
        ap unwrap (cell-store h.next (wrap a) l) ∙ held a in
      let wide =
        c.place.within_widen k.next l.next h.next l.next m a (omega arith) (omega arith) w in
      record {
        grown = omega arith;
        untouched = Agree-trans 0 h.next h k m old (
            Agree-trans 0 h.next k l m
              (Agree-narrow 0 k.next 0 h.next k l (omega arith) (omega arith) done.untouched)
              (store-Agree h.next (wrap a) l));
        separate = (
          omega arith,
          omega arith,
          subst (λ x. c.place.Within h.next l.next m x) (sym content) wide,
        );
        same_value = ap some (ap (c.place.value m) content ∙ e ∙ done.same_value ∙ still);
      }

  pub pointer-copied :
      (hi : ℕ) (h : Heap C) (r : Option ℕ)
      → PointerWithin 0 hi h r
      → hi ≤ h.next
      → CopiedAt pointer_place h r (copy_pointer r h)
  unfolding copy_pointer
  pointer-copied hi h none inside below = record {
    grown = omega arith;
    untouched = λ p low high. refl;
    separate = tt;
    same_value = refl;
  }
  pointer-copied hi h (some p) (low, high, inside) below =
      let k : Heap C = (new (wrap zero_value) h).1 in
      let old = new-Agree (wrap zero_value) h in
      let same = old p low (omega arith) in
      let (still, e) =
        c.place.within_frame 0 hi h k (unwrap (h.cell p)) inside
          (Agree-narrow 0 h.next 0 hi h k (omega arith) below old) in
      let done = c.copied hi k (unwrap (h.cell p)) still (omega arith) in
      rw same (
        filled-copied h k (c.copy (unwrap (h.cell p)) k).1 p (c.copy (unwrap (h.cell p)) k).0 refl
          old (omega arith) same done e)

  abbrev pub pointer : Copyable C (Option ℕ) (Option V)
  pointer = record { place = pointer_place; copy = copy_pointer; copied = pointer-copied }
