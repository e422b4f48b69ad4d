-- ===== src/Samples.antt =====
-- Values for the tests: a `Library` and a `Cluster` that meet the interfaces, and small objects.
pub mod Selectors
pub mod Objects
pub mod Queues
pub mod Remotes
pub mod Servers
pub mod Caches
pub mod Deploys
pub mod Arrivals
use k8cc.Prelude.{
  String, List, [], ◌∷◌, ◌≡◌, refl, Bool, true, false, Option, none, some, arith, ◌+◌,
  if◌then◌else◌, Bool-cases, inl, inr, eq_iff, sym, ap,
}
use k8cc.Prelude.Text.{
  ◌<>◌, str_eq, str_eq_refl, join, avoids, cut_at, cut_at-append, cut_at-avoids,
}
use k8cc.Clock.{Time, truncate}
use k8cc.GoError.{
  GoError, Result, ok, err, status, message, sentinel, wrapped, transient_error,
  ambiguous_reference_error, eventful_error, StatusReason,
}
use k8cc.Kube.{ObjectMeta, OwnerReference, GroupVersionKind, Deployment, Service}
use k8cc.Types.{Distcc, DistccClaim, DistccClient, DistccClientClaim}
use k8cc.Library.{Library, is_missing, is_wrapped}
use k8cc.Cluster.{Cluster}
use Selectors.{from_set, from_set_covers, from_set_valid, from_set_invalid, selector_of}

abbrev pub cause : GoError → GoError
cause (wrapped e m) = cause e
cause (status r m) = status r m
cause (message m) = message m
cause (sentinel s) = sentinel s
cause (transient_error e) = transient_error e
cause (ambiguous_reference_error e) = ambiguous_reference_error e
cause (eventful_error e event) = eventful_error e event

pub cause_else : (e : GoError) → is_wrapped e ≡ false → cause e ≡ e
cause_else (wrapped e m) h = absurd (ground arith)
cause_else (status r m) h = refl
cause_else (message m) h = refl
cause_else (sentinel s) h = refl
cause_else (transient_error e) h = refl
cause_else (ambiguous_reference_error e) h = refl
cause_else (eventful_error e event) h = refl

abbrev error_text : GoError → String
error_text (status r m) = m
error_text (message m) = m
error_text (sentinel s) = "sentinel"
error_text (wrapped e m) = m <> (": " <> error_text e)
error_text (transient_error e) = error_text e
error_text (ambiguous_reference_error e) = error_text e
error_text (eventful_error e event) = error_text e

abbrev new_controller_ref : ObjectMeta → GroupVersionKind → OwnerReference
new_controller_ref owner kind = record {
  api_version = kind.group <> ("/" <> kind.version);
  kind = kind.kind;
  name = owner.name;
  uid = owner.uid;
  controller = true;
}

abbrev controller_among : List OwnerReference → Option OwnerReference
controller_among [] = none
controller_among (r ∷ rs) = elim r.controller [ true ↦ some r | false ↦ controller_among rs ]

abbrev controlled : Option OwnerReference → ObjectMeta → Bool
controlled none owner = false
controlled (some r) owner = str_eq r.uid owner.uid

abbrev is_controlled_by : ObjectMeta → ObjectMeta → Bool
is_controlled_by object owner = controlled (controller_among object.owner_references) owner

pub is_controlled_by_new :
    (object owner : ObjectMeta) (kind : GroupVersionKind)
    → object.owner_references ≡ new_controller_ref owner kind ∷ []
    → is_controlled_by object owner ≡ true
is_controlled_by_new object owner kind h = simp h (str_eq_refl owner.uid)

pub get_controller_of_new :
    (object owner : ObjectMeta) (kind : GroupVersionKind)
    → object.owner_references ≡ new_controller_ref owner kind ∷ []
    → controller_among object.owner_references ≡ some (new_controller_ref owner kind)
get_controller_of_new object owner kind h = simp h

abbrev joined : String → String → String
joined namespace name = if str_eq namespace "" then name else join "/" namespace name

abbrev key_of : Option ObjectMeta → Result String
key_of none = err (message "object has no meta")
key_of (some m) = ok (joined m.namespace m.name)

abbrev split : Option (String × String) → String → Result (String × String)
split none key = ok ("", key)
split (some (namespace, name)) key =
    if avoids b'/' name then ok (namespace, name) else err (message "unexpected key format")

pub split-joined :
    (namespace name : String)
    → avoids b'/' namespace ≡ true
    → avoids b'/' name ≡ true
    → split (cut_at b'/' (joined namespace name)) (joined namespace name) ≡ ok (namespace, name)
split-joined namespace name h k = elim (Bool-cases (str_eq namespace "")) [
  | inl empty ↦ rw empty (
      rw (cut_at-avoids b'/' name k)
        (ap (λ (n : String). ok (n, name)) (sym ((eq_iff namespace "").0 empty))))
  | inr given ↦ rw (given, cut_at-append "/" namespace name h) (rw k)
]

pub split-key :
    (m : ObjectMeta) (key : String)
    → key_of (some m) ≡ ok key
    → avoids b'/' m.namespace ≡ true
    → avoids b'/' m.name ≡ true
    → split (cut_at b'/' key) key ≡ ok (m.namespace, m.name)
split-key m key e h k =
    let same : joined m.namespace m.name ≡ key = cc in
    rw (← same) (split-joined m.namespace m.name h k)

instance abbrev pub sample_library : Library
sample_library = record {
  cause = cause;
  cause-wrapped = λ e m. refl;
  cause_else = cause_else;
  error_text = error_text;
  quoted = λ s. "\"" <> (s <> "\"");
  decimal = λ n. "n";
  is_not_found = is_missing;
  is_not_found_lem = λ e. refl;
  new_not_found = λ resource name. status StatusReason.not_found (resource.1 <> (" " <> name));
  new_not_found-is_missing = λ resource name. refl;
  rfc3339_copy = truncate;
  rfc3339_copy_lem = λ t. refl;
  new_controller_ref = new_controller_ref;
  get_controller_of = λ m. controller_among m.owner_references;
  is_controlled_by = is_controlled_by;
  is_controlled_by_new = is_controlled_by_new;
  get_controller_of_new = get_controller_of_new;
  new_controller_ref-kind = λ owner kind. refl;
  new_controller_ref-name = λ owner kind. refl;
  label_selector_as_selector = λ s. ok (selector_of s);
  as_selector = from_set;
  valid_label = λ k v. avoids b'/' v;
  as_selector_covers = from_set_covers;
  as_selector_valid = from_set_valid;
  as_selector_invalid = from_set_invalid;
  meta_namespace_key = key_of;
  meta_namespace_key_none = (message "object has no meta", refl);
  meta_namespace_key_some = λ m. (joined m.namespace m.name, refl);
  split_meta_namespace_key = λ key. split (cut_at b'/' key) key;
  split-key = split-key;
}

-- The answers of a cluster whose caches hold at most one object of each kind. Its world is the
-- clock, which moves by a second at each reading; each write succeeds and returns its object.
pub record Answers : Type 0 where
  pub deployment : Result Deployment
  pub service : Result Service
  pub distcc : Result Distcc
  pub claim : Result DistccClaim
  pub claims : List DistccClaim
  pub client : Result DistccClient
  pub client_claim : Result DistccClientClaim

abbrev listed {ℓ} : {A : Type ℓ} → Result A → List A
listed (ok a) = a ∷ []
listed (err e) = []

abbrev pub missing {ℓ} : {A : Type ℓ} → Result A
missing = err (status StatusReason.not_found "not found")

abbrev pub answering : Answers → Cluster Time
answering a = record {
  cached_deployment = λ w namespace name. a.deployment;
  cached_deployments = λ w namespace selector. ok (listed a.deployment);
  cached_service = λ w namespace name. a.service;
  cached_services = λ w namespace selector. ok (listed a.service);
  cached_distcc = λ w namespace name. a.distcc;
  cached_claim = λ w namespace name. a.claim;
  cached_claims = λ w namespace selector. ok a.claims;
  cached_client = λ w namespace name. a.client;
  cached_client_claim = λ w namespace name. a.client_claim;
  create_deployment = λ d w. (ok d, w);
  update_deployment = λ d w. (ok d, w);
  create_service = λ d w. (ok d, w);
  update_distcc = λ d w. (ok d, w);
  update_claim = λ d w. (ok d, w);
  delete_claim = λ namespace name w. (none, w);
  update_client_claim = λ d w. (ok d, w);
  delete_client_claim = λ namespace name w. (none, w);
  now = λ w. (w, w + 1_000_000_000);
}

abbrev pub nothing : Answers
nothing = record {
  deployment = missing;
  service = missing;
  distcc = missing;
  claim = missing;
  claims = [];
  client = missing;
  client_claim = missing;
}
