-- ===== src/Library.antt =====
-- The third-party functions that the program calls (github.com/pkg/errors, k8s.io/apimachinery,
-- k8s.io/client-go), as an interface: the operations, and what their documentation says of them.
-- Modules take a `Library` as an instance argument; `Samples.antt` has one.
use k8cc.Prelude.{ℕ, String, ◌≡◌, Bool, true, false, Option, none, some, [], ◌∷◌}
use k8cc.Prelude.Text.{avoids}
use k8cc.Clock.{Time, truncate}
use k8cc.GoError.{GoError, Result, ok, err, StatusReason, status, wrapped}
use k8cc.Kube.{
  Labels, lookup, LabelSelector, ObjectMeta, OwnerReference, GroupVersionKind, Selector,
}

-- The test that a value is one which `errors.Wrap` made.
abbrev pub is_wrapped : GoError → Bool
is_wrapped (wrapped e m) = true
is_wrapped _ = false

abbrev pub is_missing : GoError → Bool
is_missing (status StatusReason.not_found m) = true
is_missing _ = false

pub record Library : Type 0 where
  -- errors.Cause: "returns the underlying cause of the error, if possible. [...] If the error does
  -- not implement Cause, the original error will be returned."
  pub cause : GoError → GoError
  pub cause-wrapped : (e : GoError) (m : String) → cause (wrapped e m) ≡ cause e
  pub cause_else : (e : GoError) → is_wrapped e ≡ false → cause e ≡ e
  -- err.Error(), and the verbs %q and %d of fmt.Sprintf
  pub error_text : GoError → String
  pub quoted : String → String
  pub decimal : ℕ → String
  -- kubeerr.IsNotFound looks at the reason of an API status error, and at nothing else.
  pub is_not_found : GoError → Bool
  pub is_not_found_lem : (e : GoError) → is_not_found e ≡ is_missing e
  -- kubeerr.NewNotFound(resource, name), with the group and the name of the resource
  pub new_not_found : String × String → String → GoError
  pub new_not_found-is_missing :
      (resource : String × String) (name : String) → is_missing (new_not_found resource name) ≡ true
  -- metav1.NewTime(t).Rfc3339Copy(): the time at the precision of the wire format, whole seconds
  pub rfc3339_copy : Time → Time
  pub rfc3339_copy_lem : (t : Time) → rfc3339_copy t ≡ truncate t
  -- metav1.NewControllerRef, GetControllerOf, IsControlledBy
  pub new_controller_ref : ObjectMeta → GroupVersionKind → OwnerReference
  pub get_controller_of : ObjectMeta → Option OwnerReference
  pub is_controlled_by : ObjectMeta → ObjectMeta → Bool
  -- An object whose only owner is the controller reference made for `owner` is controlled by it.
  pub is_controlled_by_new :
      (object owner : ObjectMeta) (kind : GroupVersionKind)
      → object.owner_references ≡ new_controller_ref owner kind ∷ []
      → is_controlled_by object owner ≡ true
  pub get_controller_of_new :
      (object owner : ObjectMeta) (kind : GroupVersionKind)
      → object.owner_references ≡ new_controller_ref owner kind ∷ []
      → get_controller_of object ≡ some (new_controller_ref owner kind)
  pub new_controller_ref-kind :
      (owner : ObjectMeta) (kind : GroupVersionKind)
      → (new_controller_ref owner kind).kind ≡ kind.kind
  pub new_controller_ref-name :
      (owner : ObjectMeta) (kind : GroupVersionKind)
      → (new_controller_ref owner kind).name ≡ owner.name
  -- metav1.LabelSelectorAsSelector, labels.Set.AsSelector
  pub label_selector_as_selector : Option LabelSelector → Result Selector
  pub as_selector : Labels → Selector
  -- labels.NewRequirement accepts the pair: the key is a qualified name, the value a label value.
  pub valid_label : String → String → Bool
  -- The selector of a set of valid pairs asks for each of them; where a pair is not valid,
  -- SelectorFromSet returns the selector that matches everything. So labels with each of the pairs
  -- always match.
  pub as_selector_covers :
      (want have : Labels)
      → ((k v : String) → lookup k want ≡ some v → lookup k have ≡ some v)
      → as_selector want have ≡ true
  pub as_selector_valid :
      (want have : Labels)
      → ((k v : String) → lookup k want ≡ some v → valid_label k v ≡ true)
      → as_selector want have ≡ true
      → (k v : String) → lookup k want ≡ some v
      → lookup k have ≡ some v
  pub as_selector_invalid :
      (want have : Labels) (k v : String)
      → lookup k want ≡ some v
      → valid_label k v ≡ false
      → as_selector want have ≡ true
  -- cache.MetaNamespaceKeyFunc fails on a value that has no metadata; cache.SplitMetaNamespaceKey
  -- "returns the namespace and name that MetaNamespaceKeyFunc encoded into key".
  pub meta_namespace_key : Option ObjectMeta → Result String
  pub meta_namespace_key_none : (e : GoError) × (meta_namespace_key none ≡ err e)
  pub meta_namespace_key_some :
      (m : ObjectMeta) → (key : String) × (meta_namespace_key (some m) ≡ ok key)
  pub split_meta_namespace_key : String → Result (String × String)
  pub split-key :
      (m : ObjectMeta) (key : String)
      → meta_namespace_key (some m) ≡ ok key
      → avoids b'/' m.namespace ≡ true
      → avoids b'/' m.name ≡ true
      → split_meta_namespace_key key ≡ ok (m.namespace, m.name)
