-- ===== src/Kit/Retries.antt =====
-- What becomes of an item that a worker of pkg/controller/kit/controller_kit.go has processed.
use k8cc.Prelude.{String, ◌≡◌, ◌↔◌, ◌∙◌, refl, ap, Bool, true, false, Option, none, some, arith}
use k8cc.GoError.{GoError, Result, ok, err}
use k8cc.Library.{Library}
use k8cc.Kit.{
  KitState, finish_sync, sync_instance, sync_split, sync_handler, finish_item, process_taken,
  process_next_work_item,
}
use k8cc.Kit.Queue.{WorkQueue, Item, key}
use k8cc.Kit.Hooks.{Handler}

module _ {W Q : Type 0} ⦃work_queue : WorkQueue Q⦄ where
  -- The state in which a worker handles the item that it has taken.
  abbrev pub taken : KitState W Q → KitState W Q
  taken s = record s { queue = (work_queue.get s.queue).1 }

module _ ⦃lib : Library⦄ {W Q O : Type 0} (handler : Handler W O) where
  finish_sync-queue :
      (crd : O) (updated : Bool) (e : Option GoError) (s : KitState W Q)
      → (finish_sync handler crd (updated, e) s).1.queue ≡ s.queue
  unfolding finish_sync
  finish_sync-queue crd updated (some e) s = ground arith
  finish_sync-queue crd true none s = refl
  finish_sync-queue crd false none s = refl

  sync_split-queue :
      (k : String) (r : Result (String × String)) (s : KitState W Q)
      → (sync_split handler k r s).1.queue ≡ s.queue
  unfolding sync_split
  sync_split-queue k (err e) s = refl
  sync_split-queue k (ok (namespace, name)) s =
      sync_instance-queue (handler.custom_resource_instance s.run.world namespace name)
    where
      sync_instance-queue : (r : Result O) → (sync_instance handler k r s).1.queue ≡ s.queue
      sync_instance-queue (err e) = ground arith
      sync_instance-queue (ok crd) =
          let (r, run) = handler.sync crd s.run in
          finish_sync-queue crd r.0 r.1 (record s { run = run })

  pub sync_handler-queue :
      (k : String) (s : KitState W Q) → (sync_handler handler k s).1.queue ≡ s.queue
  unfolding sync_handler
  sync_handler-queue k s = sync_split-queue k (lib.split_meta_namespace_key k) s

  module _ ⦃work_queue : WorkQueue Q⦄ where
    finish_item-queue :
        (k : String) (e : GoError) (s : KitState W Q)
        → (finish_item handler k (some e) s).queue ≡ work_queue.done (key k) s.queue
    unfolding finish_item
    finish_item-queue k e s = ground arith

    failed-queue :
        (s : KitState W Q) (k : String) (e : GoError)
        → (work_queue.get s.queue).0 ≡ some (key k)
        → (sync_handler handler k (taken s)).0 ≡ some e
        → (process_next_work_item handler s).1.queue
          ≡ work_queue.done (key k) (work_queue.get s.queue).1
    unfolding process_next_work_item
    failed-queue s k e got failed =
        let after = (sync_handler handler k (taken s)).1 in
        simp (got, failed)
          (finish_item-queue k e after
            ∙ ap (work_queue.done (key k)) (sync_handler-queue k (taken s)))

    -- A worker does not schedule the key whose Sync has failed, be the error transient or not: each item
    -- waits in the queue then just as it did when the worker had taken the key, so the key is taken
    -- again only for an event that adds it. The rate limiter keeps its count of the key.
    pub failed_item_dropped :
        (s : KitState W Q) (k : String) (e : GoError) (j : Item)
        → (work_queue.get s.queue).0 ≡ some (key k)
        → (sync_handler handler k (taken s)).0 ≡ some e
        → (work_queue.scheduled (process_next_work_item handler s).1.queue j
            ≡ work_queue.scheduled (taken s).queue j)
          × (work_queue.num_requeues (process_next_work_item handler s).1.queue (key k)
              ≡ work_queue.num_requeues s.queue (key k))
    failed_item_dropped s k e j got failed = rw (failed-queue s k e got failed) (
      work_queue.done-scheduled (work_queue.get s.queue).1 (key k) j,
      work_queue.done-num_requeues (work_queue.get s.queue).1 (key k) (key k)
          ∙ work_queue.get-num_requeues s.queue (key k),
    )

    -- A key whose Sync succeeds is forgotten by the rate limiter, no error is reported, and the worker
    -- schedules nothing.
    pub synced_item_forgotten :
        (s : KitState W Q) (k : String) (j : Item)
        → (work_queue.get s.queue).0 ≡ some (key k)
        → (sync_handler handler k (taken s)).0 ≡ none
        → (work_queue.scheduled (process_next_work_item handler s).1.queue j
            ≡ work_queue.scheduled (taken s).queue j)
          × (work_queue.num_requeues (process_next_work_item handler s).1.queue (key k) ≡ 0)
          × ((process_next_work_item handler s).1.errors
              ≡ (sync_handler handler k (taken s)).1.errors)
    unfolding process_next_work_item
    synced_item_forgotten s k j got fine =
        let after = (sync_handler handler k (taken s)).1 in
        let same : after.queue ≡ (work_queue.get s.queue).1 = sync_handler-queue k (taken s) in
        simp (got, fine)
          (
            work_queue.done-scheduled _ (key k) j
                ∙ work_queue.forget-scheduled after.queue (key k) j
                ∙ ap (λ (q : Q). work_queue.scheduled q j) same,
            work_queue.done-num_requeues _ (key k) (key k)
                ∙ work_queue.forget-num_requeues after.queue (key k),
            refl,
          )

    process_taken-stops :
        (o : Option Item) (s : KitState W Q)
        → ((process_taken handler o s).0 ≡ false ↔ o ≡ none)
          × (o ≡ none → (process_taken handler o s).1 ≡ s)
    unfolding process_taken
    process_taken-stops none s = ((λ _. refl, λ _. refl), λ _. refl)
    process_taken-stops (some i) s =
        ((λ h. absurd (ground arith), λ h. absurd (ground arith)), λ h. absurd (ground arith))

    -- A worker goes on, whatever the item was and whatever became of it, until the queue is shut down;
    -- then it stops, and nothing but the queue has changed.
    pub worker_stops_iff :
        (s : KitState W Q)
        → ((process_next_work_item handler s).0 ≡ false ↔ (work_queue.get s.queue).0 ≡ none)
          × ((work_queue.get s.queue).0 ≡ none → (process_next_work_item handler s).1 ≡ taken s)
    unfolding process_next_work_item
    worker_stops_iff s = process_taken-stops (work_queue.get s.queue).0 (taken s)
