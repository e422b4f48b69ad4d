-- ===== src/Samples/Caches.antt =====
-- A cache of an informer that meets the interface: the objects with their keys, the last added first.
use k8cc.Prelude.{
  String, Option, none, some, List, [], ◌∷◌, Each, ap, ◌≡◌, ◌≢◌, refl, true, ◌&&◌, Bool-cases, inl,
  inr, arith, if◌then◌else◌, eq_iff,
}
use k8cc.Prelude.Text.{str_eq, str_eq_refl}
use k8cc.GoError.{ok}
use k8cc.Kube.{ObjectMeta, Selector}
use k8cc.Kit.Hooks.{AnyObject, metadata_of}
use k8cc.Listers.Index.{Indexer, object_key, Selects}

abbrev pub Entries : Type 0
Entries = List (String × AnyObject)

abbrev find : String → Entries → Option AnyObject
find k [] = none
find k ((j, o) ∷ rest) = let found = find k rest in if str_eq j k then some o else found

abbrev without_key : String → Entries → Entries
without_key k [] = []
without_key k ((j, o) ∷ rest) =
    let others = without_key k rest in if str_eq j k then others else (j, o) ∷ others

find-without_key :
    (k j : String) (entries : Entries) → k ≢ j → find k (without_key j entries) ≡ find k entries
find-without_key k j [] other = refl
find-without_key k j ((l, o) ∷ rest) other =
    ground (arith, eq_iff l j, eq_iff l k, find-without_key k j rest other)

abbrev keyed : Option ObjectMeta → AnyObject → Entries → Entries
keyed none o entries = entries
keyed (some m) o entries = (object_key m, o) ∷ without_key (object_key m) entries

abbrev chosen : Option ObjectMeta → String → Selector → AnyObject → List AnyObject → List AnyObject
chosen none namespace selector o rest = rest
chosen (some m) namespace selector o rest =
    if str_eq m.namespace namespace && selector m.labels then o ∷ rest else rest

abbrev objects_in : String → Selector → Entries → List AnyObject
objects_in namespace selector [] = []
objects_in namespace selector ((j, o) ∷ rest) =
    chosen (metadata_of o) namespace selector o (objects_in namespace selector rest)

abbrev all_objects : Selector → Entries → List AnyObject
all_objects selector [] = []
all_objects selector ((j, o) ∷ rest) =
    let others = all_objects selector rest in
    (elim (metadata_of o) [
      | none ↦ others
      | some m ↦ if selector m.labels then o ∷ others else others
    ])

abbrev Chosen : String → Selector → AnyObject → Type 0
Chosen namespace selector o =
    (m : ObjectMeta) × (metadata_of o ≡ some m) × Selects namespace selector m

chosen-Chosen :
    (meta : Option ObjectMeta) (namespace : String) (selector : Selector) (o : AnyObject)
    (rest : List AnyObject)
    → metadata_of o ≡ meta
    → Each rest (Chosen namespace selector)
    → Each (chosen meta namespace selector o rest) (Chosen namespace selector)
chosen-Chosen none namespace selector o rest h each = each
chosen-Chosen (some m) namespace selector o rest h each =
    elim (Bool-cases (str_eq m.namespace namespace && selector m.labels)) [
      | inl both ↦
          let same : m.namespace ≡ namespace = ground (arith, eq_iff m.namespace namespace) in
          let matching : selector m.labels ≡ true = ground arith in
          rw both ((m, h, (same, matching)), each)
      | inr differs ↦ rw differs each
    ]

pub objects_in-Chosen :
    (namespace : String) (selector : Selector) (entries : Entries)
    → Each (objects_in namespace selector entries) (Chosen namespace selector)
objects_in-Chosen namespace selector [] = tt
objects_in-Chosen namespace selector ((j, o) ∷ rest) =
    chosen-Chosen (metadata_of o) namespace selector o (objects_in namespace selector rest) refl
      (objects_in-Chosen namespace selector rest)

pub find-keyed :
    (meta : Option ObjectMeta) (o : AnyObject) (m : ObjectMeta) (entries : Entries)
    → meta ≡ some m
    → find (object_key m) (keyed meta o entries) ≡ some o
find-keyed meta o m entries h = rw (h, str_eq_refl (object_key m)) refl

pub find-keyed_else :
    (meta : Option ObjectMeta) (o : AnyObject) (m : ObjectMeta) (entries : Entries) (k : String)
    → meta ≡ some m
    → k ≢ object_key m
    → find k (keyed meta o entries) ≡ find k entries
find-keyed_else meta o m entries k h other =
    let kept = find-without_key k (object_key m) entries other in
    rw h (ground (arith, eq_iff (object_key m) k))

instance abbrev pub sample_cache : Indexer Entries
sample_cache = record {
  get_by_key = λ entries k. ok (find k entries);
  list_all = λ entries selector. (all_objects selector entries, none);
  list_all_by_namespace =
      λ entries namespace selector. (objects_in namespace selector entries, none);
  add = λ o entries. keyed (metadata_of o) o entries;
  get-add = λ o m entries h. ap ok (find-keyed (metadata_of o) o m entries h);
  get-add_else =
      λ o m entries k h other. ap ok (find-keyed_else (metadata_of o) o m entries k h other);
  list_all_by_namespace-Selects =
      λ entries namespace selector named. objects_in-Chosen namespace selector entries;
}
