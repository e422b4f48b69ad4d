-- ===== src/Listers.antt =====
-- pkg/client/listers/k8cc.io/v1alpha1: the listers, which the controllers read the caches through. The
-- four files differ in a type and in the name of a resource, which `Kind` has; `Index` has client-go's
-- indexer, `Kinds` the functions of each file, `Reads` what they find.
pub mod Index
pub mod Kinds
pub mod Reads
mod Tests
use k8cc.Prelude.{String, Option, none, some, List, [], ◌∷◌, ◌++◌, ◌≡◌}
use k8cc.Prelude.Text.{join}
use k8cc.GoError.{GoError, Result, ok, err}
use k8cc.Kube.{ObjectMeta, Selector}
use k8cc.Library.{Library}
use k8cc.Kit.Hooks.{AnyObject, metadata_of}
use k8cc.ApiService.Answers.{Outcome, returned, panicked}
use Index.{Indexer}

-- A type of objects: m.(*T), and the resource of its lister.
pub record Kind (A : Type 0) : Type 0 where
  pub object : A → AnyObject
  pub asserted : AnyObject → Option A
  pub metadata : A → ObjectMeta
  pub resource : String
  pub asserted-object : (a : A) → asserted (object a) ≡ some a
  pub metadata-object : (a : A) → metadata_of (object a) ≡ some (metadata a)

-- The group and the name: `Resource` of pkg/apis/k8cc.io/v1alpha1/register.go.
unfoldable pub qualified : String → String × String
qualified resource = ("k8cc.io", resource)

module _ {A : Type 0} (kind : Kind A) where
  -- ret = append(ret, m.(*T)) for each object
  unfoldable pub append_objects : List A → List AnyObject → Outcome (List A)
  append_objects ret [] = returned ret
  append_objects ret (m ∷ rest) = elim (kind.asserted m) [
    | none ↦ panicked
    | some a ↦ append_objects (ret ++ a ∷ []) rest
  ]

  unfoldable pub found_object :
      ⦃lib : Library⦄ → String → Result (Option AnyObject) → Outcome (Result A)
  unfolding qualified
  found_object name (err e) = returned (err e)
  found_object ⦃lib⦄ name (ok none) =
      returned (err (lib.new_not_found (qualified kind.resource) name))
  found_object name (ok (some m)) = elim (kind.asserted m) [
    | none ↦ panicked
    | some a ↦ returned (ok a)
  ]

unfoldable pub with_error :
    {A : Type 0} → Outcome (List A) → Option GoError → Outcome (List A × Option GoError)
with_error panicked e = panicked
with_error (returned ret) e = returned (ret, e)

module _ {I A : Type 0} ⦃index : Indexer I⦄ (kind : Kind A) where
  unfoldable pub list : I → Selector → Outcome (List A × Option GoError)
  unfolding append_objects with_error
  list i selector =
      let (objects, e) = index.list_all i selector in with_error (append_objects kind [] objects) e

  unfoldable pub namespace_list : I → String → Selector → Outcome (List A × Option GoError)
  unfolding append_objects with_error
  namespace_list i namespace selector =
      let (objects, e) = index.list_all_by_namespace i namespace selector in
      with_error (append_objects kind [] objects) e

  unfoldable pub namespace_get : ⦃lib : Library⦄ → I → String → String → Outcome (Result A)
  unfolding found_object
  namespace_get i namespace name =
      found_object kind name (index.get_by_key i (join "/" namespace name))
