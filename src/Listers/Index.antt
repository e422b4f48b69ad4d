-- ===== src/Listers/Index.antt =====
-- cache.Indexer of k8s.io/client-go, with ListAll and ListAllByNamespace: the operations that the
-- listers call, and what their documentation says.
use k8cc.Prelude.{String, Option, some, List, Each, ◌≡◌, ◌≢◌, true, if◌then◌else◌}
use k8cc.Prelude.Text.{join, str_eq}
use k8cc.GoError.{GoError, Result, ok}
use k8cc.Kube.{ObjectMeta, Selector}
use k8cc.Kit.Hooks.{AnyObject, metadata_of}

-- "MetaNamespaceKeyFunc [...] keys for API objects which implement meta.Interface. The key uses the
-- format <namespace>/<name> unless <namespace> is empty, then it's just <name>."
abbrev pub object_key : ObjectMeta → String
object_key m = if str_eq m.namespace "" then m.name else join "/" m.namespace m.name

-- The object lies in the namespace, and its labels match the selector.
abbrev pub Selects : String → Selector → ObjectMeta → Type 0
Selects namespace selector m = (m.namespace ≡ namespace) × (selector m.labels ≡ true)

pub record Indexer (I : Type 0) : Type 0 where
  -- GetByKey: the object, none where it does not exist, or an error
  pub get_by_key : I → String → Result (Option AnyObject)
  -- The objects that ListAll and ListAllByNamespace give to appendFn, in order, and their error
  pub list_all : I → Selector → List AnyObject × Option GoError
  pub list_all_by_namespace : I → String → Selector → List AnyObject × Option GoError
  -- Add, which the informer calls, of an object that has metadata
  pub add : AnyObject → I → I
  pub get-add :
      (o : AnyObject) (m : ObjectMeta) (i : I)
      → metadata_of o ≡ some m
      → get_by_key (add o i) (object_key m) ≡ ok (some o)
  pub get-add_else :
      (o : AnyObject) (m : ObjectMeta) (i : I) (k : String)
      → metadata_of o ≡ some m
      → k ≢ object_key m
      → get_by_key (add o i) k ≡ get_by_key i k
  -- NamespaceAll, the empty name, stands for every namespace.
  pub list_all_by_namespace-Selects :
      (i : I) (namespace : String) (selector : Selector)
      → namespace ≢ ""
      → Each
          (list_all_by_namespace i namespace selector).0
          (λ o. (m : ObjectMeta) × (metadata_of o ≡ some m) × Selects namespace selector m)
