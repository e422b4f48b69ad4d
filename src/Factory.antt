-- ===== src/Factory.antt =====
-- pkg/client/informers/externalversions/factory.go: the factory through which all the controllers share
-- one informer for each type. A `reflect.Type` is its name; a map is an association list, whose first
-- entry counts. The informers, of type `J`, and the world that they read are client-go's. The lock
-- makes each method one step.
pub mod Sharing
mod Tests
use k8cc.Prelude.{
  Action, String, Bool, true, false, Option, none, some, List, [], ◌∷◌, ◌++◌, if◌then◌else◌,
}
use k8cc.Prelude.Text.{str_eq}

module _ {V : Type 0} where
  -- m[t]
  abbrev pub entry : String → List (String × V) → Option V
  entry t [] = none
  entry t ((u, v) ∷ rest) = let found = entry t rest in if str_eq u t then some v else found

pub record SharedInformerFactory (J : Type 0) : Type 0 where
  pub informers : List (String × J)
  pub started_informers : List (String × Bool)
  -- The informers that `go informer.Run` has started, the last one first
  pub runs : List (String × J)

-- The zero value of a missing entry is false.
abbrev pub is_set : Option Bool → Bool
is_set none = false
is_set (some b) = b

module _ {J : Type 0} where
  -- NewFilteredSharedInformerFactory
  unfoldable pub new_factory : SharedInformerFactory J
  new_factory = record { informers = []; started_informers = []; runs = [] }

  abbrev pub is_started : String → SharedInformerFactory J → Bool
  is_started t f = is_set (entry t f.started_informers)

  unfoldable pub start_one : String → J → SharedInformerFactory J → SharedInformerFactory J
  start_one t informer f = if is_started t f then f else record f {
    started_informers = (t, true) ∷ f.started_informers;
    runs = (t, informer) ∷ f.runs;
  }

  unfoldable pub start_each : List (String × J) → SharedInformerFactory J → SharedInformerFactory J
  unfolding start_one
  start_each [] f = f
  start_each ((t, informer) ∷ rest) f = start_each rest (start_one t informer f)

  -- Start
  unfoldable pub start : SharedInformerFactory J → SharedInformerFactory J
  unfolding start_each
  start f = start_each f.informers f

  -- The informers that WaitForCacheSync waits for
  unfoldable pub started_of : List (String × J) → SharedInformerFactory J → List (String × J)
  started_of [] f = []
  started_of ((t, informer) ∷ rest) f =
      let others = started_of rest f in if is_started t f then (t, informer) ∷ others else others

  module _ {W : Type 0} where
    -- InformerFor, with the constructor of the informer
    unfoldable pub informer_for :
        String → Action W J → SharedInformerFactory J × W → J × (SharedInformerFactory J × W)
    informer_for t new_func (f, w) = elim (entry t f.informers) [
      | some informer ↦ (informer, (f, w))
      | none ↦
          let (informer, v) = new_func w in
          (informer, (record f { informers = (t, informer) ∷ f.informers }, v))
    ]

    unfoldable pub wait_each :
        (J → Action W Bool) → List (String × J) → Action W (List (String × Bool))
    wait_each wait [] w = ([], w)
    wait_each wait ((t, informer) ∷ rest) w =
        let (synced, v) = wait informer w in
        let (res, u) = wait_each wait rest v in ((t, synced) ∷ res, u)

    -- WaitForCacheSync, over cache.WaitForCacheSync for one informer
    unfoldable pub wait_for_cache_sync :
        (J → Action W Bool) → SharedInformerFactory J → Action W (List (String × Bool))
    unfolding started_of wait_each
    wait_for_cache_sync wait f w = wait_each wait (started_of f.informers f) w

-- A history of calls of InformerFor and Start.
module _ {J : Type 0} (W : Type 0) where
  pub data Reach (f : SharedInformerFactory J) : SharedInformerFactory J → Type 0 where
    here : Reach f f
    started : {g : SharedInformerFactory J} → Reach f g → Reach f (start g)
    asked :
        {g : SharedInformerFactory J} (t : String) (new_func : Action W J) (w : W)
        → Reach f g
        → Reach f (informer_for t new_func (g, w)).1.0
