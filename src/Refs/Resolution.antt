-- ===== src/Refs/Resolution.antt =====
-- What the resolution of a reference in pkg/controller/refresolver.go may answer.
use k8cc.Prelude.{
  String, ◌≡◌, subst, ◌⊎◌, inl, inr, refl, true, Option, none, some, List, [], ◌∷◌, arith,
  Bool-cases,
}
use k8cc.GoError.{GoError, Result, ok, err}
use k8cc.Errors.{is_transient, is_ambiguous_reference}
use k8cc.Errors.Classes.{transient_error_class, ambiguous_error_class}
use k8cc.Kube.{Selector, LocalObjectReference}
use k8cc.Library.{Library}
use k8cc.Refs.{
  Lister, named_object, only_object, get_object_from_reference, get_object_from_labels, or_else,
  get_object_from_reference_or_selector,
}

-- How an object was found.
abbrev pub Referenced : {A : Type 0} → Lister A → String → Option LocalObjectReference → A → Type 0
Referenced lister namespace ref object =
    (r : LocalObjectReference) × (ref ≡ some r) × (lister.list_by_name namespace r.name ≡ ok object)

abbrev pub IsOnly : {A : Type 0} → Lister A → String → Selector → A → Type 0
IsOnly lister namespace selector object =
    lister.list_by_selector namespace selector ≡ ok (object ∷ [])

module _ ⦃lib : Library⦄ {A : Type 0} where
  named_sound : (r : Result A) (object : A) → named_object r ≡ ok (some object) → r ≡ ok object
  unfolding named_object
  named_sound (ok a) object h = ground arith
  named_sound (err e) object h = absurd (ground arith)

  only_sound :
      (r : Result (List A)) (object : A) → only_object r ≡ ok (some object) → r ≡ ok (object ∷ [])
  unfolding only_object
  only_sound (err e) object h = absurd (ground arith)
  only_sound (ok []) object h = absurd (ground arith)
  only_sound (ok (a ∷ [])) object h = ground arith
  only_sound (ok (a ∷ b ∷ rest)) object h = absurd (ground arith)

  reference_sound :
      (lister : Lister A) (namespace : String) (ref : Option LocalObjectReference) (object : A)
      → get_object_from_reference lister namespace ref ≡ ok (some object)
      → Referenced lister namespace ref object
  unfolding get_object_from_reference
  reference_sound lister namespace none object h = absurd (ground arith)
  reference_sound lister namespace (some r) object h =
      (r, refl, named_sound (lister.list_by_name namespace r.name) object h)

  or_else-found :
      (first second : Result (Option A)) (object : A)
      → or_else first second ≡ ok (some object)
      → (first ≡ ok (some object)) ⊎ ((first ≡ ok none) × (second ≡ ok (some object)))
  unfolding or_else
  or_else-found (ok none) second object h = inr (refl, h)
  or_else-found (ok (some a)) second object h = inl h
  or_else-found (err e) second object h = absurd (ground arith)

  -- An object that the resolution returns is the one that the reference names, or the reference gave
  -- nothing and the object is the only one that satisfies the selector.
  pub resolution_sound :
      (lister : Lister A) (namespace : String) (ref : Option LocalObjectReference)
      (selector : Selector) (object : A)
      → get_object_from_reference_or_selector lister namespace ref selector ≡ ok (some object)
      → Referenced lister namespace ref object
        ⊎ (get_object_from_reference lister namespace ref ≡ ok none)
          × IsOnly lister namespace selector object
  unfolding get_object_from_reference_or_selector
  resolution_sound lister namespace ref selector object h =
      elim (or_else-found (get_object_from_reference lister namespace ref)
        (get_object_from_labels lister namespace selector) object h) [
          | inl first ↦ inl (reference_sound lister namespace ref object first)
          | inr (nothing, second) ↦
              inr (nothing, only_sound (lister.list_by_selector namespace selector) object second)
        ]

  -- An object that the reference names is returned, whatever the selector finds.
  pub reference_first :
      (lister : Lister A) (namespace : String) (ref : LocalObjectReference) (selector : Selector)
      (object : A)
      → lister.list_by_name namespace ref.name ≡ ok object
      → get_object_from_reference_or_selector lister namespace (some ref) selector
        ≡ ok (some object)
  unfolding get_object_from_reference_or_selector
  reference_first lister namespace ref selector object h = simp h

  abbrev Classified : Result (Option A) → Type 0
  Classified (ok object) = Unit
  Classified (err e) = (is_transient e ≡ true) ⊎ (is_ambiguous_reference e ≡ true)

  named-Classified : (r : Result A) → Classified (named_object r)
  unfolding named_object
  named-Classified (ok a) = tt
  named-Classified (err e) = elim (Bool-cases (lib.is_not_found e)) [
    | inl missing ↦ rw missing tt
    | inr other ↦ rw other (inl (transient_error_class e).0)
  ]

  only-Classified : (r : Result (List A)) → Classified (only_object r)
  unfolding only_object
  only-Classified (err e) = elim (Bool-cases (lib.is_not_found e)) [
    | inl missing ↦ rw missing tt
    | inr other ↦ rw other (inl (transient_error_class e).0)
  ]
  only-Classified (ok []) = tt
  only-Classified (ok (a ∷ [])) = tt
  only-Classified (ok (a ∷ b ∷ rest)) = inr (ambiguous_error_class _).1

  reference-Classified :
      (lister : Lister A) (namespace : String) (ref : Option LocalObjectReference)
      → Classified (get_object_from_reference lister namespace ref)
  unfolding get_object_from_reference
  reference-Classified lister namespace none = tt
  reference-Classified lister namespace (some r) =
      named-Classified (lister.list_by_name namespace r.name)

  or_else-Classified :
      (first second : Result (Option A))
      → Classified first
      → Classified second
      → Classified (or_else first second)
  unfolding or_else
  or_else-Classified (ok none) second a b = b
  or_else-Classified (ok (some x)) second a b = tt
  or_else-Classified (err e) second a b = a

  resolution-Classified :
      (lister : Lister A) (namespace : String) (ref : Option LocalObjectReference)
      (selector : Selector)
      → Classified (get_object_from_reference_or_selector lister namespace ref selector)
  unfolding get_object_from_reference_or_selector get_object_from_labels
  resolution-Classified lister namespace ref selector =
      or_else-Classified _ _ (reference-Classified lister namespace ref)
        (only-Classified (lister.list_by_selector namespace selector))

  -- An error of the resolution is a transient one or an ambiguous reference.
  pub resolution_errors :
      (lister : Lister A) (namespace : String) (ref : Option LocalObjectReference)
      (selector : Selector) (e : GoError)
      → get_object_from_reference_or_selector lister namespace ref selector ≡ err e
      → (is_transient e ≡ true) ⊎ (is_ambiguous_reference e ≡ true)
  resolution_errors lister namespace ref selector e h =
      subst Classified h (resolution-Classified lister namespace ref selector)
