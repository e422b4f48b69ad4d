-- ===== src/Listers/Tests.antt =====
-- Reads of a small cache, and the theorems about listers at concrete inputs.
use k8cc.Prelude.{String, true, none, [], ◌∷◌, ◌&&◌, ◌≡◌, ◌≢◌, refl, arith, eq_iff, if◌then◌else◌}
use k8cc.Prelude.Text.{str_eq}
use k8cc.GoError.{ok}
use k8cc.Kube.{Selector}
use k8cc.Types.{Distcc}
use k8cc.ApiService.Answers.{returned, panicked}
use k8cc.Samples.{sample_library}
use k8cc.Samples.Objects.{dev, claim_until}
use k8cc.Samples.Caches.{Entries, sample_cache}
use k8cc.Kit.Hooks.{distcc, distcc_claim, metadata_of}
use k8cc.Listers.{namespace_get}
use k8cc.Listers.Kinds.{distcc_kind, as_distcc, get_namespace_distcc}
use k8cc.Listers.Reads.{namespace_get-add}

abbrev with_dev : Entries
with_dev = ("default/dev", distcc dev) ∷ []

abbrev ci : Distcc
ci = record dev { metadata = record dev.metadata { name = "ci" } }

found : get_namespace_distcc with_dev "default" "dev" ≡ returned (ok dev)
unfolding get_namespace_distcc as_distcc
found = refl

-- An object of another type under the key: the type assertion panics.
wrong_type :
    get_namespace_distcc {I = Entries}
      (("default/dev", distcc_claim (claim_until none)) ∷ [])
      "default"
      "dev"
    ≡ panicked
unfolding get_namespace_distcc as_distcc
wrong_type = refl

named : ◌≢◌ {A = String} "default" ""
named e = ground (arith, eq_iff "default" "")

-- A second object is added, and the first is still found.
namespace_get-add_example :
    namespace_get distcc_kind (sample_cache.add (distcc ci) with_dev) "default" "dev" ≡ (
      if str_eq "default" "default" && str_eq "dev" "ci"
      then returned (ok ci)
      else namespace_get distcc_kind with_dev "default" "dev")
namespace_get-add_example =
    namespace_get-add distcc_kind ci with_dev "default" "dev" named refl refl refl

abbrev everything : Selector
everything = λ labels. true

listed : (sample_cache.list_all_by_namespace with_dev "default" everything).0 ≡ distcc dev ∷ []
unfolding metadata_of
listed = refl
