-- ===== src/Kit/Queue.antt =====
-- The work queue of k8s.io/client-go/util/workqueue, as pkg/controller/kit/controller_kit.go uses it.
use k8cc.Prelude.{String, ◌≡◌, Bool, true, false, Option, none, some, ℕ, suc, List, [], ◌∷◌}

-- What may stand in the queue: the keys that the kit puts there, or a value of another type.
pub data Item : Type 0 where
  key : String → Item
  foreign : String → Item

pub record WorkQueue (Q : Type 0) : Type 0 where
  -- Get, with none for a shutdown; Done; Forget; AddRateLimited
  pub get : Q → Option Item × Q
  pub done : Item → Q → Q
  pub forget : Item → Q → Q
  pub add_rate_limited : Item → Q → Q
  -- The item will be handed to a worker again: it was added since it was last taken, or the delay of
  -- the rate limiter runs for it.
  pub scheduled : Q → Item → Bool
  -- NumRequeues: how often the rate limiter has seen the item
  pub num_requeues : Q → Item → ℕ
  -- The rate limiter does not see Get.
  pub get-num_requeues : (q : Q) (i : Item) → num_requeues (get q).1 i ≡ num_requeues q i
  -- Done and Forget schedule nothing, and leave what is scheduled.
  pub done-scheduled : (q : Q) (i j : Item) → scheduled (done i q) j ≡ scheduled q j
  pub forget-scheduled : (q : Q) (i j : Item) → scheduled (forget i q) j ≡ scheduled q j
  -- "Forget indicates that an item is finished being retried": the rate limiter stops tracking it.
  pub forget-num_requeues : (q : Q) (i : Item) → num_requeues (forget i q) i ≡ 0
  pub done-num_requeues : (q : Q) (i j : Item) → num_requeues (done i q) j ≡ num_requeues q j
  -- AddRateLimited schedules the item, unless the queue is shutting down.
  pub shutting_down : Q → Bool
  pub add-scheduled :
      (q : Q) (i : Item) → shutting_down q ≡ false → scheduled (add_rate_limited i q) i ≡ true
  pub add-num_requeues :
      (q : Q) (i : Item) → num_requeues (add_rate_limited i q) i ≡ suc (num_requeues q i)

-- The end of a queue: "ShutDown will cause q to ignore all new items added to it. As soon as the worker
-- goroutines have drained the existing items in the queue, they will be instructed to exit."
pub record Draining (Q : Type 0) ⦃work_queue : WorkQueue Q⦄ : Type 0 where
  -- The queue has been shut down, and no item was added while a worker had it.
  pub draining : Q → Bool
  -- The items that Get has yet to hand out, in order.
  pub left : Q → List Item
  pub get_next :
      (q : Q) (i : Item) (rest : List Item)
      → draining q ≡ true
      → left q ≡ i ∷ rest
      → ((work_queue.get q).0 ≡ some i)
        × (left (work_queue.get q).1 ≡ rest)
        × (draining (work_queue.get q).1 ≡ true)
  pub get_last :
      (q : Q)
      → draining q ≡ true
      → left q ≡ []
      → ((work_queue.get q).0 ≡ none) × (left (work_queue.get q).1 ≡ [])
  pub done_draining :
      (q : Q) (i : Item)
      → draining q ≡ true
      → (draining (work_queue.done i q) ≡ true) × (left (work_queue.done i q) ≡ left q)
  pub forget_draining :
      (q : Q) (i : Item)
      → draining q ≡ true
      → (draining (work_queue.forget i q) ≡ true) × (left (work_queue.forget i q) ≡ left q)
