-- ===== src/Refs.antt =====
-- pkg/controller/refresolver.go: an object is found through a reference, or else as the only one that
-- satisfies a label selector. A nil object with a nil error is `ok none`.
pub mod Resolution
mod Tests
use k8cc.Prelude.{String, Option, none, some, List, [], ◌∷◌, length, if◌then◌else◌}
use k8cc.Prelude.Text.{◌<>◌}
use k8cc.GoError.{message, transient_error, ambiguous_reference_error, Result, ok, err}
use k8cc.Kube.{Selector, LocalObjectReference, Deployment, Service}
use k8cc.Library.{Library}
use k8cc.Cluster.{Cluster}

pub record Lister (A : Type 0) : Type 0 where
  pub list_by_name : String → String → Result A
  pub list_by_selector : String → Selector → Result (List A)

module _ {W : Type 0} ⦃cluster : Cluster W⦄ where
  abbrev pub deployment_lister : W → Lister Deployment
  deployment_lister w = record {
    list_by_name = cluster.cached_deployment w;
    list_by_selector = cluster.cached_deployments w;
  }

  abbrev pub service_lister : W → Lister Service
  service_lister w = record {
    list_by_name = cluster.cached_service w;
    list_by_selector = cluster.cached_services w;
  }

module _ ⦃lib : Library⦄ {A : Type 0} where
  -- A lookup by name or by labels that finds nothing is no error; any other failure is transient.
  unfoldable pub named_object : Result A → Result (Option A)
  named_object (err e) = if lib.is_not_found e then ok none else err (transient_error e)
  named_object (ok object) = ok (some object)

  unfoldable pub only_object : Result (List A) → Result (Option A)
  only_object (err e) = if lib.is_not_found e then ok none else err (transient_error e)
  only_object (ok []) = ok none
  only_object (ok (object ∷ [])) = ok (some object)
  only_object (ok (object ∷ other ∷ rest)) = err (
      ambiguous_reference_error (
        message (
          "multiple objects ("
          <> (lib.decimal (length (object ∷ other ∷ rest))
              <> ") satisfy the label selector, expected only one"))))

  unfoldable pub get_object_from_reference :
      Lister A → String → Option LocalObjectReference → Result (Option A)
  unfolding named_object
  get_object_from_reference lister namespace none = ok none
  get_object_from_reference lister namespace (some ref) =
      named_object (lister.list_by_name namespace ref.name)

  unfoldable pub get_object_from_labels : Lister A → String → Selector → Result (Option A)
  unfolding only_object
  get_object_from_labels lister namespace selector =
      only_object (lister.list_by_selector namespace selector)

  -- err != nil || obj != nil
  unfoldable pub or_else : Result (Option A) → Result (Option A) → Result (Option A)
  or_else (ok none) second = second
  or_else (ok (some object)) second = ok (some object)
  or_else (err e) second = err e

  unfoldable pub get_object_from_reference_or_selector :
      Lister A → String → Option LocalObjectReference → Selector → Result (Option A)
  unfolding or_else get_object_from_reference get_object_from_labels
  get_object_from_reference_or_selector lister namespace ref selector =
      or_else (get_object_from_reference lister namespace ref)
        (get_object_from_labels lister namespace selector)
