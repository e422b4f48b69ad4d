-- ===== src/Clientset/Fakes.antt =====
-- pkg/client/clientset/versioned/typed/k8cc.io/v1alpha1/fake: the fake clients, which the tests run
-- the controllers with, over the Fake of k8s.io/client-go/testing.
use k8cc.Prelude.{Action, String, true, Option, none, some, List, [], ◌∷◌, ◌++◌, if◌then◌else◌}
use k8cc.GoError.{GoError, Result}
use k8cc.Kube.{Selector}
use k8cc.Kit.Hooks.{AnyObject}
use k8cc.Listers.{Kind}
use k8cc.ApiService.Answers.{Outcome, returned, panicked}
use k8cc.DeepCopy.Raw.{ListOf}
use k8cc.Clientset.{ListOptions, Resource}

-- An action with what its constructor (NewGetAction, ...) is given, behind the resource.
pub data FakeAction (A : Type 0) : Type 0 where
  get_action : String → String → FakeAction A
  list_action : String → ListOptions → FakeAction A
  watch_action : String → ListOptions → FakeAction A
  create_action update_action : String → A → FakeAction A
  delete_action : String → String → FakeAction A
  delete_collection_action : String → ListOptions → FakeAction A
  patch_subresource_action : String → String → String → List String → FakeAction A

-- testing.Fake: Invokes returns an object, which may be nil, and an error.
pub record Fake (A Y W : Type 0) : Type 0 where
  pub invokes : String → FakeAction A → Action W (Option AnyObject × Option GoError)
  pub invokes_list : String → FakeAction A → Action W (Option (ListOf A) × Option GoError)
  pub invokes_watch : String → FakeAction A → Action W (Result Y)
  -- The label selector of ExtractFromListOptions, which may be nil; it panics where a selector of the
  -- options cannot be parsed.
  pub extract_label : ListOptions → Outcome (Option Selector)

-- labels.Everything()
abbrev pub selector_or_everything : Option Selector → Selector
selector_or_everything none = λ labels. true
selector_or_everything (some label) = label

-- list.Items = append(list.Items, item)
abbrev pub appended : {A : Type 0} → Option (List A) → A → Option (List A)
appended none item = some (item ∷ [])
appended (some items) item = some (items ++ item ∷ [])

abbrev pub items_of : {A : Type 0} → Option (List A) → List A
items_of none = []
items_of (some items) = items

abbrev pub empty_list : {A : Type 0} → ListOf A
empty_list = record { metadata = record { resource_version = ""; continue = "" }; items = none }

-- if obj == nil { return nil, err }; return obj.(*T), err
unfoldable pub fake_result :
    {A : Type 0} → Kind A → Option AnyObject × Option GoError → Outcome (Option A × Option GoError)
fake_result kind (none, e) = returned (none, e)
fake_result kind (some m, e) = elim (kind.asserted m) [
  | none ↦ panicked
  | some a ↦ returned (some a, e)
]

unfoldable pub matching :
    {A : Type 0} → Kind A → Selector → Option (List A) → List A → Option (List A)
matching kind label found [] = found
matching kind label found (item ∷ rest) =
    matching kind label (if label (kind.metadata item).labels then appended found item else found)
      rest

unfoldable pub fake_list_result :
    {A : Type 0}
    → Kind A
    → Option Selector
    → Option (ListOf A) × Option GoError
    → Option (ListOf A) × Option GoError
unfolding matching
fake_list_result kind label (none, e) = (none, e)
fake_list_result kind label (some obj, e) = (
  some (record empty_list {
    items = matching kind (selector_or_everything label) none (items_of obj.items);
  }),
  e,
)

abbrev pub result_in :
    {A W : Type 0}
    → Kind A
    → (Option AnyObject × Option GoError) × W
    → Outcome (Option A × Option GoError) × W
result_in kind (r, w) = (fake_result kind r, w)

-- The struct: the Fake, and the namespace of its objects.
pub record FakeClient (A Y W : Type 0) : Type 0 where
  pub fake : Fake A Y W
  pub ns : String

module _ {A Y W : Type 0} (r : Resource A) (c : FakeClient A Y W) where
  unfoldable pub fake_get : String → Action W (Outcome (Option A × Option GoError))
  unfolding fake_result
  fake_get name w = result_in r.kind (c.fake.invokes r.plural (get_action c.ns name) w)

  -- NewListAction, NewWatchAction and NewDeleteCollectionAction read the options by
  -- ExtractFromListOptions: they panic where it does, before anything is invoked.
  unfoldable pub fake_list : ListOptions → Action W (Outcome (Option (ListOf A) × Option GoError))
  unfolding fake_list_result
  fake_list opts w = elim (c.fake.extract_label opts) [
    | panicked ↦ (panicked, w)
    | returned label ↦
        let (answer, v) = c.fake.invokes_list r.plural (list_action c.ns opts) w in
        (returned (fake_list_result r.kind label answer), v)
  ]

  unfoldable pub fake_watch : ListOptions → Action W (Outcome (Result Y))
  fake_watch opts w = elim (c.fake.extract_label opts) [
    | panicked ↦ (panicked, w)
    | returned label ↦
        let (answer, v) = c.fake.invokes_watch r.plural (watch_action c.ns opts) w in
        (returned answer, v)
  ]

  unfoldable pub fake_create : A → Action W (Outcome (Option A × Option GoError))
  unfolding fake_result
  fake_create given w = result_in r.kind (c.fake.invokes r.plural (create_action c.ns given) w)

  unfoldable pub fake_update : A → Action W (Outcome (Option A × Option GoError))
  unfolding fake_result
  fake_update given w = result_in r.kind (c.fake.invokes r.plural (update_action c.ns given) w)

  unfoldable pub fake_delete : String → Action W (Option GoError)
  fake_delete name w =
      let (answer, v) = c.fake.invokes r.plural (delete_action c.ns name) w in (answer.1, v)

  unfoldable pub fake_delete_collection : ListOptions → Action W (Outcome (Option GoError))
  fake_delete_collection listed w = elim (c.fake.extract_label listed) [
    | panicked ↦ (panicked, w)
    | returned label ↦
        let (answer, v) = c.fake.invokes_list r.plural (delete_collection_action c.ns listed) w in
        (returned answer.1, v)
  ]

  unfoldable pub fake_patch :
      String → String → List String → Action W (Outcome (Option A × Option GoError))
  unfolding fake_result
  fake_patch name data_bytes sub_resources w =
      result_in r.kind
        (c.fake.invokes r.plural (patch_subresource_action c.ns name data_bytes sub_resources) w)
