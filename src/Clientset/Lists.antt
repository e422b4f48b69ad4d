-- ===== src/Clientset/Lists.antt =====
-- What the fake clients list: the loop of `List` in the files of
-- pkg/client/clientset/versioned/typed/k8cc.io/v1alpha1/fake.
use k8cc.Prelude.{
  Option, none, some, List, [], ◌∷◌, ◌++◌, append_assoc, append-nil, if◌then◌else◌, ◌≡◌, ◌∙◌, refl,
  ap, sym, Bool-cases, inl, inr,
}
use k8cc.GoError.{GoError}
use k8cc.Kube.{Selector}
use k8cc.Listers.{Kind}
use k8cc.ApiService.Answers.{returned, panicked}
use k8cc.DeepCopy.Raw.{ListOf}
use k8cc.Clientset.{Resource, ListOptions}
use k8cc.Clientset.Fakes.{
  FakeClient, list_action, selector_or_everything, items_of, empty_list, appended, matching,
  fake_list_result, fake_list,
}

-- The objects whose labels satisfy the selector, in order.
abbrev pub selected : {A : Type 0} → Kind A → Selector → List A → List A
selected kind label [] = []
selected kind label (a ∷ rest) =
    let others = selected kind label rest in
    if label (kind.metadata a).labels then a ∷ others else others

module _ {A : Type 0} (kind : Kind A) (label : Selector) where
  items_of-appended :
      (found : Option (List A)) (a : A) → items_of (appended found a) ≡ items_of found ++ a ∷ []
  items_of-appended none a = refl
  items_of-appended (some items) a = refl

  -- The loop keeps what it has found, and adds the objects that are selected.
  pub matching-selected :
      (found : Option (List A)) (items : List A)
      → items_of (matching kind label found items) ≡ items_of found ++ selected kind label items
  unfolding matching
  matching-selected none [] = refl
  matching-selected (some items) [] = sym (append-nil items)
  matching-selected found (a ∷ rest) = elim (Bool-cases (label (kind.metadata a).labels)) [
    | inl wanted ↦ rw wanted (
        matching-selected (appended found a) rest
        ∙ ap (λ (l : List A). l ++ selected kind label rest) (items_of-appended found a)
        ∙ append_assoc (items_of found) (a ∷ []) (selected kind label rest))
    | inr other ↦ rw other (matching-selected found rest)
  ]

module _ {A Y W : Type 0} (r : Resource A) (c : FakeClient A Y W) where
  -- What List of a fake makes of a list of the tracker: a new one, without the metadata, of the objects
  -- that the selector of the options wants, in order, beside the error of the tracker.
  pub fake_list-selected :
      (opts : ListOptions) (w v : W) (label : Option Selector) (obj : ListOf A) (e : Option GoError)
      → c.fake.extract_label opts ≡ returned label
      → c.fake.invokes_list r.plural (list_action c.ns opts) w ≡ ((some obj, e), v)
      → (items : Option (List A)) × (fake_list r c opts w
          ≡ (returned (some (record empty_list { items = items }), e), v))
        × (items_of items ≡ selected r.kind (selector_or_everything label) (items_of obj.items))
  unfolding fake_list fake_list_result
  fake_list-selected opts w v label obj e parsed answer = (
    matching r.kind (selector_or_everything label) none (items_of obj.items),
    rw (fake_list, parsed, answer) refl,
    matching-selected r.kind (selector_or_everything label) none (items_of obj.items),
  )

  -- Options that cannot be parsed end in a panic, before the tracker is asked.
  pub fake_list_panics :
      (opts : ListOptions) (w : W)
      → c.fake.extract_label opts ≡ panicked
      → fake_list r c opts w ≡ (panicked, w)
  unfolding fake_list
  fake_list_panics opts w h = rw (fake_list, h) refl
