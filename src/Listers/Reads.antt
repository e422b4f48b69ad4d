-- ===== src/Listers/Reads.antt =====
-- What the listers of pkg/client/listers/k8cc.io/v1alpha1 find in a cache.
use mathlib.Core.List.{append_assoc, append-nil}
use k8cc.Prelude.{
  String, Option, none, some, List, [], ◌∷◌, ◌++◌, map, Each, ◌≡◌, ◌≢◌, ◌∙◌, ap, sym, subst, refl,
  true, false, ◌&&◌, if◌then◌else◌, Bool-cases, inl, inr, arith, eq_iff,
}
use k8cc.Prelude.Text.{avoids, join, cut_at, cut_at-append, cut_at-avoids, str_eq, str_eq_ne}
use k8cc.GoError.{GoError, ok, err}
use k8cc.Kube.{ObjectMeta, Selector}
use k8cc.Library.{Library, is_missing}
use k8cc.Kit.Hooks.{metadata_of}
use k8cc.ApiService.Answers.{returned}
use k8cc.Listers.{Kind, append_objects, with_error, namespace_list, found_object, namespace_get}
use k8cc.Listers.Index.{Indexer, object_key, Selects}

some_injective : {A : Type 0} {a b : A} → some a ≡ some b → a ≡ b
some_injective h = ground arith

some_clash : {A : Type 0} {a : A} → some a ≡ none → ⊥
some_clash h = ground arith

pair_differs :
    (a b c d : String)
    → (str_eq a c && str_eq b d) ≡ false
    → ◌≢◌ {A = String × String} (a, b) (c, d)
pair_differs a b c d h e =
    let first : a ≡ c = ap (λ p. p.0) e in
    let second : b ≡ d = ap (λ p. p.1) e in ground (arith, eq_iff a c, eq_iff b d)

-- The key of another object: neither a name alone, nor the same namespace and name.
key_else :
    (namespace name : String) (m : ObjectMeta)
    → avoids b'/' namespace ≡ true
    → avoids b'/' m.namespace ≡ true
    → avoids b'/' m.name ≡ true
    → ◌≢◌ {A = String × String} (namespace, name) (m.namespace, m.name)
    → join "/" namespace name ≢ object_key m
key_else namespace name m plain plain_namespace plain_name other h =
    let cut = cut_at-append "/" namespace name plain in
    elim (Bool-cases (str_eq m.namespace "")) [
      | inl empty ↦
          let key : object_key m ≡ m.name = rw empty refl in
          let clash : ◌≡◌ {A = Option (String × String)} (some (namespace, name)) none =
            sym cut ∙ ap (cut_at b'/') (h ∙ key) ∙ cut_at-avoids b'/' m.name plain_name in
          absurd (some_clash clash)
      | inr given ↦
          let key : object_key m ≡ join "/" m.namespace m.name = rw given refl in
          let same : ◌≡◌ {A = Option (String × String)} (some (namespace, name))
              (some (m.namespace, m.name)) =
            sym cut
            ∙ ap (cut_at b'/') (h ∙ key)
            ∙ cut_at-append "/" m.namespace m.name plain_namespace in
          other (some_injective same)
    ]

module _ {A : Type 0} (kind : Kind A) where
  append_objects-map :
      (ret items : List A)
      → append_objects kind ret (map kind.object items) ≡ returned (ret ++ items)
  unfolding append_objects
  append_objects-map ret [] = ap returned (sym (append-nil ret))
  append_objects-map ret (a ∷ rest) =
      rw (kind.asserted-object a)
        (append_objects-map (ret ++ a ∷ []) rest ∙ ap returned (append_assoc ret (a ∷ []) rest))

  Each-objects :
      (items : List A) (namespace : String) (selector : Selector)
      → Each
          (map kind.object items)
          (λ o. (m : ObjectMeta) × (metadata_of o ≡ some m) × Selects namespace selector m)
      → Each items (λ a. Selects namespace selector (kind.metadata a))
  Each-objects [] namespace selector h = tt
  Each-objects (a ∷ rest) namespace selector ((m, has, selected), more) = (
    let same : m ≡ kind.metadata a = ground (arith, kind.metadata-object a) in
        subst (Selects namespace selector) same selected,
    Each-objects rest namespace selector more,
  )

module _ {I A : Type 0} ⦃lib : Library⦄ ⦃index : Indexer I⦄ (kind : Kind A) where
  get_added :
      (a : A) (i : I)
      → (kind.metadata a).namespace ≢ ""
      → namespace_get kind
          (index.add (kind.object a) i)
          (kind.metadata a).namespace
          (kind.metadata a).name
        ≡ returned (ok a)
  unfolding namespace_get found_object
  get_added a i given =
      let key : object_key (kind.metadata a)
          ≡ join "/" (kind.metadata a).namespace (kind.metadata a).name =
        rw (str_eq_ne (kind.metadata a).namespace "" given) refl in
      let stored = index.get-add (kind.object a) (kind.metadata a) i (kind.metadata-object a) in
      rw (← key, stored, found_object, kind.asserted-object a) refl

  get_else :
      (a : A) (i : I) (namespace name : String)
      → avoids b'/' namespace ≡ true
      → avoids b'/' (kind.metadata a).namespace ≡ true
      → avoids b'/' (kind.metadata a).name ≡ true
      → ◌≢◌ {A = String × String}
          (namespace, name)
          ((kind.metadata a).namespace, (kind.metadata a).name)
      → namespace_get kind (index.add (kind.object a) i) namespace name
        ≡ namespace_get kind i namespace name
  unfolding namespace_get
  get_else a i namespace name plain plain_namespace plain_name other = ap (found_object kind name) (
      index.get-add_else (kind.object a) (kind.metadata a) i (join "/" namespace name)
        (kind.metadata-object a)
        (key_else namespace name (kind.metadata a) plain plain_namespace plain_name other))

  -- If namespaces and names have no slash, and the object that was added last has a namespace: a
  -- lister finds that object under its namespace and name, and finds what it found before under
  -- another namespace or another name.
  pub namespace_get-add :
      (a : A) (i : I) (namespace name : String)
      → (kind.metadata a).namespace ≢ ""
      → avoids b'/' namespace ≡ true
      → avoids b'/' (kind.metadata a).namespace ≡ true
      → avoids b'/' (kind.metadata a).name ≡ true
      → namespace_get kind (index.add (kind.object a) i) namespace name ≡ (
          if str_eq namespace (kind.metadata a).namespace && str_eq name (kind.metadata a).name
          then returned (ok a)
          else namespace_get kind i namespace name)
  namespace_get-add a i namespace name given plain plain_namespace plain_name =
      elim (Bool-cases
        (str_eq namespace (kind.metadata a).namespace && str_eq name (kind.metadata a).name)) [
          | inl both ↦
              let same_namespace : namespace ≡ (kind.metadata a).namespace =
                ground (arith, eq_iff namespace (kind.metadata a).namespace) in
              let same_name : name ≡ (kind.metadata a).name =
                ground (arith, eq_iff name (kind.metadata a).name) in
              rw both (
                ap (λ (n : String). namespace_get kind (index.add (kind.object a) i) n name)
                  same_namespace
                ∙ ap (namespace_get kind (index.add (kind.object a) i) (kind.metadata a).namespace)
                    same_name
                ∙ get_added a i given)
          | inr differs ↦ rw differs (
              get_else a i namespace name plain plain_namespace plain_name (
                pair_differs namespace name (kind.metadata a).namespace (kind.metadata a).name
                  differs))
        ]

  -- A lister answers for an object that does not exist with an error that IsNotFound recognises.
  pub get_absent :
      (i : I) (namespace name : String)
      → index.get_by_key i (join "/" namespace name) ≡ ok none
      → (e : GoError) × (namespace_get kind i namespace name ≡ returned (err e))
        × (is_missing e ≡ true)
  unfolding namespace_get found_object
  get_absent i namespace name absent = rw absent (_, refl, lib.new_not_found-is_missing _ name)

  -- Where the namespace has a name, and all the objects in it that match a selector are of the type of
  -- the lister, the list has these objects, in order, with the error of the indexer: each lies in the
  -- namespace, and its labels match the selector.
  pub namespace_list-Selects :
      (i : I) (namespace : String) (selector : Selector) (items : List A)
      → namespace ≢ ""
      → (index.list_all_by_namespace i namespace selector).0 ≡ map kind.object items
      → (namespace_list kind i namespace selector
          ≡ returned (items, (index.list_all_by_namespace i namespace selector).1))
        × Each items (λ a. Selects namespace selector (kind.metadata a))
  unfolding namespace_list with_error
  namespace_list-Selects i namespace selector items named typed =
      let e = (index.list_all_by_namespace i namespace selector).1 in
      let each = index.list_all_by_namespace-Selects i namespace selector named in
      (
        ap (λ objects. with_error (append_objects kind [] objects) e) typed
            ∙ ap (λ r. with_error r e) (append_objects-map kind [] items),
        Each-objects kind items namespace selector (
            subst
              (λ objects.
                Each objects
                  (λ o. (m : ObjectMeta) × (metadata_of o ≡ some m) × Selects namespace selector m))
              typed each),
      )
