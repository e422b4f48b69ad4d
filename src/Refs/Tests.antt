-- ===== src/Refs/Tests.antt =====
-- Tests of the reference resolution, and its theorems at concrete inputs.
use k8cc.Prelude.{ℕ, ◌≡◌, refl, ◌⊎◌, true, none, some, List, [], ◌∷◌}
use k8cc.Prelude.Text.{◌<>◌}
use k8cc.GoError.{GoError, message, ambiguous_reference_error, Result, ok}
use k8cc.Kube.{Selector, LocalObjectReference}
use k8cc.Samples.{sample_library, missing}
use k8cc.Refs.{Lister, get_object_from_reference, get_object_from_reference_or_selector}
use k8cc.Refs.Resolution.{Referenced, IsOnly, resolution_sound, reference_first}

-- A cache that answers the name with `named`, and the selector with `several`.
abbrev cache_of : Result ℕ → List ℕ → Lister ℕ
cache_of named several = record {
  list_by_name = λ namespace name. named;
  list_by_selector = λ namespace selector. ok several;
}

abbrev everything : Selector
everything labels = true

abbrev reference : LocalObjectReference
reference = record { name = "a" }

resolution_sound_example :
    Referenced (cache_of missing (7 ∷ [])) "default" (some reference) 7
    ⊎ (get_object_from_reference (cache_of missing (7 ∷ [])) "default" (some reference) ≡ ok none)
      × IsOnly (cache_of missing (7 ∷ [])) "default" everything 7
unfolding get_object_from_reference_or_selector
resolution_sound_example =
    resolution_sound (cache_of missing (7 ∷ [])) "default" (some reference) everything 7 refl

reference_first_example :
    get_object_from_reference_or_selector
      (cache_of (ok 5) (7 ∷ []))
      "default"
      (some reference)
      everything
    ≡ ok (some 5)
reference_first_example =
    reference_first (cache_of (ok 5) (7 ∷ [])) "default" reference everything 5 refl

abbrev two_match : GoError
two_match =
    ambiguous_reference_error
      (message ("multiple objects (" <> ("n" <> ") satisfy the label selector, expected only one")))
