-- ===== src/Clientset/Requests.antt =====
-- What the typed clients send: the requests of
-- pkg/client/clientset/versioned/typed/k8cc.io/v1alpha1, read back from the calls of the builder.
use k8cc.Prelude.{String, true, Option, none, some, List, [], ◌∷◌, ◌≡◌}
use k8cc.Clientset.{
  Verb, Call, Body, Params, Resource, TypedClient, GetOptions, ListOptions, DeleteOptions,
  namespace, resource, name, sub_resource, versioned_params, body, get_options, list_options,
  get_object, list_objects, watch_objects, create_object, update_object, delete_object,
  delete_collection, patch_object,
}

-- What the calls of the builder have set; the order of the calls does not count.
module _ {A : Type 0} where
  abbrev pub namespace_in : List (Call A) → Option String
  namespace_in [] = none
  namespace_in (namespace ns ∷ rest) = some ns
  namespace_in (_ ∷ rest) = namespace_in rest

  abbrev pub resource_in : List (Call A) → Option String
  resource_in [] = none
  resource_in (resource plural ∷ rest) = some plural
  resource_in (_ ∷ rest) = resource_in rest

  abbrev pub name_in : List (Call A) → Option String
  name_in [] = none
  name_in (name n ∷ rest) = some n
  name_in (_ ∷ rest) = name_in rest

  abbrev pub sub_resource_in : List (Call A) → List String
  sub_resource_in [] = []
  sub_resource_in (sub_resource path ∷ rest) = path
  sub_resource_in (_ ∷ rest) = sub_resource_in rest

  abbrev pub params_in : List (Call A) → Option Params
  params_in [] = none
  params_in (versioned_params p ∷ rest) = some p
  params_in (_ ∷ rest) = params_in rest

  abbrev pub body_in : List (Call A) → Option (Body A)
  body_in [] = none
  body_in (body b ∷ rest) = some b
  body_in (_ ∷ rest) = body_in rest

-- The operations of the interface, with what they are given.
pub data Operation (A : Type 0) : Type 0 where
  get_one : String → GetOptions → Operation A
  list_all watch_all : ListOptions → Operation A
  create_one update_one : A → Operation A
  delete_one : String → Option DeleteOptions → Operation A
  delete_all : Option DeleteOptions → ListOptions → Operation A
  patch_one : String → String → String → List String → Operation A

-- A request by its parts: what it is addressed to, and what it carries.
pub record Request (A : Type 0) : Type 0 where
  pub verb : Verb
  pub in_namespace : Option String
  pub of_resource : Option String
  pub named : Option String
  pub below : List String
  pub params : Option Params
  pub carries : Option (Body A)

abbrev pub built : {A : Type 0} → Verb → List (Call A) → Request A
built verb calls = record {
  verb = verb;
  in_namespace = namespace_in calls;
  of_resource = resource_in calls;
  named = name_in calls;
  below = sub_resource_in calls;
  params = params_in calls;
  carries = body_in calls;
}

module _ {A : Type 0} (r : Resource A) (ns : String) where
  -- A request to the collection of the objects in the namespace.
  abbrev collection : Verb → Request A
  collection verb = record {
    verb = verb;
    in_namespace = some ns;
    of_resource = some r.plural;
    named = none;
    below = [];
    params = none;
    carries = none;
  }

  -- The API of Kubernetes: GET, PUT, DELETE and PATCH of an object by its name, POST to the collection,
  -- GET and DELETE of a collection with list options, and a watch is such a GET that asks for it.
  abbrev pub request_for : Operation A → Request A
  request_for (get_one n opts) = record (collection Verb.get) {
    named = some n;
    params = some (get_options opts);
  }
  request_for (list_all opts) = record (collection Verb.get) { params = some (list_options opts) }
  request_for (watch_all opts) = record (collection Verb.get) {
    params = some (list_options (record opts { watch = true }));
  }
  request_for (create_one a) = record (collection Verb.post) { carries = some (Body.object a) }
  request_for (update_one a) = record (collection Verb.put) {
    named = some (r.kind.metadata a).name;
    carries = some (Body.object a);
  }
  request_for (delete_one n opts) = record (collection Verb.delete) {
    named = some n;
    carries = some (Body.options opts);
  }
  request_for (delete_all opts listed) = record (collection Verb.delete) {
    params = some (list_options listed);
    carries = some (Body.options opts);
  }
  request_for (patch_one n type data_bytes path) = record (collection (Verb.patch type)) {
    named = some n;
    below = path;
    carries = some (Body.patch_data data_bytes);
  }

module _ {A P Y W : Type 0} (r : Resource A) (c : TypedClient A P Y W) where
  -- The world behind an operation.
  abbrev pub run : Operation A → W → W
  run (get_one n opts) w = (get_object r c n opts w).1
  run (list_all opts) w = (list_objects r c opts w).1
  run (watch_all opts) w = (watch_objects r c opts w).1
  run (create_one a) w = (create_object r c a w).1
  run (update_one a) w = (update_object r c a w).1
  run (delete_one n opts) w = (delete_object r c n opts w).1
  run (delete_all opts listed) w = (delete_collection r c opts listed w).1
  run (patch_one n type data_bytes path) w = (patch_object r c n type data_bytes path w).1

  -- One request was made, and it is the given one.
  pub data Sends (request : Request A) (w : W) : W → Type 0 where
    requested :
        (verb : Verb) (calls : List (Call A))
        → built verb calls ≡ request
        → Sends request w (c.client.do_request verb calls w).1
    watched :
        (verb : Verb) (calls : List (Call A))
        → built verb calls ≡ request
        → Sends request w (c.client.watch_request verb calls w).1
