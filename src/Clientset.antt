-- ===== src/Clientset.antt =====
-- pkg/client/clientset/versioned/typed/k8cc.io/v1alpha1: the typed clients, which the controllers
-- and the service write through. The four files differ in a type and in the name of a resource;
-- `Kinds` has the functions of each, `Fakes` and `FakeKinds` those of the fake clients beside them,
-- `Requests` what is sent, `Lists` what a fake lists. A request of client-go's builder is its verb
-- with the calls of the builder, in order; what it does with them is a parameter.
pub mod Fakes
pub mod Kinds
pub mod FakeKinds
pub mod Requests
pub mod Lists
mod Tests
use k8cc.Prelude.{Action, String, Bool, true, false, Option, none, some, List, [], ◌∷◌}
use k8cc.Prelude.Int.{ℤ}
use k8cc.GoError.{GoError, Result}
use k8cc.Listers.{Kind}
use k8cc.DeepCopy.Raw.{ListOf}

pub data Verb : Type 0 where
  get post put delete : Verb
  patch : String → Verb

-- metav1.GetOptions, ListOptions and DeleteOptions, without their TypeMeta
pub record GetOptions : Type 0 where
  pub resource_version : String
  pub include_uninitialized : Bool

pub record ListOptions : Type 0 where
  pub label_selector : String
  pub field_selector : String
  pub include_uninitialized : Bool
  pub watch : Bool
  pub resource_version : String
  pub timeout_seconds : Option ℤ
  pub limit : ℤ
  pub continue : String

-- The UID of the object is expected to be this one, if one is given.
pub record Preconditions : Type 0 where
  pub uid : Option String

pub record DeleteOptions : Type 0 where
  pub grace_period_seconds : Option ℤ
  pub preconditions : Option Preconditions
  pub orphan_dependents : Option Bool
  pub propagation_policy : Option String

pub data Params : Type 0 where
  get_options : GetOptions → Params
  list_options : ListOptions → Params

-- What a request carries: an object, the options of a deletion, which may be nil, or a patch.
pub data Body (A : Type 0) : Type 0 where
  object : A → Body A
  options : Option DeleteOptions → Body A
  patch_data : String → Body A

pub data Call (A : Type 0) : Type 0 where
  namespace resource name : String → Call A
  sub_resource : List String → Call A
  versioned_params : Params → Call A
  body : Body A → Call A

-- rest.Interface: `A` is the type of the objects, `P` that of the responses, `Y` that of watches.
pub record Rest (A P Y W : Type 0) : Type 0 where
  pub do_request : Verb → List (Call A) → Action W P
  pub watch_request : Verb → List (Call A) → Action W (Result Y)
  -- Into(result), for an empty result; Error()
  pub into : P → A × Option GoError
  pub into_list : P → ListOf A × Option GoError
  pub error : P → Option GoError

-- A type with its resource.
pub record Resource (A : Type 0) : Type 0 where
  pub plural : String
  pub kind : Kind A

-- The struct: a client, and the namespace of its objects.
pub record TypedClient (A P Y W : Type 0) : Type 0 where
  pub client : Rest A P Y W
  pub ns : String

-- newDistccs
unfoldable pub new_typed_client : {A P Y W : Type 0} → Rest A P Y W → String → TypedClient A P Y W
new_typed_client client in_namespace = record { client = client; ns = in_namespace }

module _ {A P Y W : Type 0} (r : Resource A) (c : TypedClient A P Y W) where
  -- Do().Into(result)
  abbrev pub object_of : P × W → (A × Option GoError) × W
  object_of (p, w) = (c.client.into p, w)

  abbrev pub list_of : P × W → (ListOf A × Option GoError) × W
  list_of (p, w) = (c.client.into_list p, w)

  abbrev pub error_in : P × W → Option GoError × W
  error_in (p, w) = (c.client.error p, w)

  unfoldable pub get_object : String → GetOptions → Action W (A × Option GoError)
  get_object object_name opts w = object_of (
      c.client.do_request get
        (namespace c.ns
          ∷ resource r.plural
          ∷ name object_name
          ∷ versioned_params (get_options opts)
          ∷ [])
        w)

  unfoldable pub list_objects : ListOptions → Action W (ListOf A × Option GoError)
  list_objects opts w = list_of (
      c.client.do_request get
        (namespace c.ns ∷ resource r.plural ∷ versioned_params (list_options opts) ∷ []) w)

  unfoldable pub watch_objects : ListOptions → Action W (Result Y)
  watch_objects opts w =
      c.client.watch_request get
        (namespace c.ns
          ∷ resource r.plural
          ∷ versioned_params (list_options (record opts { watch = true }))
          ∷ [])
        w

  unfoldable pub create_object : A → Action W (A × Option GoError)
  create_object given w =
      object_of
        (c.client.do_request post (namespace c.ns ∷ resource r.plural ∷ body (object given) ∷ []) w)

  unfoldable pub update_object : A → Action W (A × Option GoError)
  update_object given w = object_of (
      c.client.do_request put
        (namespace c.ns
          ∷ resource r.plural
          ∷ name (r.kind.metadata given).name
          ∷ body (object given)
          ∷ [])
        w)

  unfoldable pub delete_object : String → Option DeleteOptions → Action W (Option GoError)
  delete_object object_name opts w = error_in (
      c.client.do_request delete
        (namespace c.ns ∷ resource r.plural ∷ name object_name ∷ body (options opts) ∷ []) w)

  unfoldable pub delete_collection : Option DeleteOptions → ListOptions → Action W (Option GoError)
  delete_collection opts listed w = error_in (
      c.client.do_request delete
        (namespace c.ns
          ∷ resource r.plural
          ∷ versioned_params (list_options listed)
          ∷ body (options opts)
          ∷ [])
        w)

  unfoldable pub patch_object :
      String → String → String → List String → Action W (A × Option GoError)
  patch_object object_name patch_type data_bytes sub_resources w = object_of (
      c.client.do_request (patch patch_type)
        (namespace c.ns
          ∷ resource r.plural
          ∷ sub_resource sub_resources
          ∷ name object_name
          ∷ body (patch_data data_bytes)
          ∷ [])
        w)
