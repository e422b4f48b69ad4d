-- ===== src/Kit/Draining.antt =====
-- The workers of pkg/controller/kit/controller_kit.go once the queue has been shut down.
use k8cc.Prelude.{
  ℕ, suc, zero, String, ◌≡◌, ◌<◌, ◌∙◌, refl, ap, sym, subst, Bool, true, false, Option, none, some,
  List, [], ◌∷◌, length, arith,
}
use k8cc.GoError.{GoError, Result, ok, err}
use k8cc.Library.{Library}
use k8cc.Cluster.{Run}
use k8cc.Kit.{
  KitState, finish_sync, sync_instance, sync_split, sync_handler, finish_item, process_item,
  process_taken, process_next_work_item, run_worker,
}
use k8cc.Kit.Queue.{WorkQueue, Draining, Item, key, foreign}
use k8cc.Kit.Hooks.{Handler}
use k8cc.Kit.Retries.{taken, sync_handler-queue}

module _ ⦃lib : Library⦄ {W O : Type 0} (handler : Handler W O) where
  abbrev synced_object : Result O → Run W → Run W
  synced_object (err e) r = r
  synced_object (ok crd) r = (handler.sync crd r).1

  abbrev synced_name : Result (String × String) → Run W → Run W
  synced_name (err e) r = r
  synced_name (ok (namespace, name)) r =
      synced_object (handler.custom_resource_instance r.world namespace name) r

  -- What is left of an item in the cluster: one Sync of the object that its key names, if there is one.
  abbrev pub synced_item : Item → Run W → Run W
  synced_item (foreign o) r = r
  synced_item (key k) r = synced_name (lib.split_meta_namespace_key k) r

  -- One after the other.
  abbrev pub synced_items : List Item → Run W → Run W
  synced_items [] r = r
  synced_items (i ∷ rest) r = synced_items rest (synced_item i r)

  module _ {Q : Type 0} where
    finish_sync-run :
        (crd : O) (r : Bool × Option GoError) (s : KitState W Q)
        → (finish_sync handler crd r s).1.run ≡ s.run
    unfolding finish_sync
    finish_sync-run crd (updated, some e) s = ground arith
    finish_sync-run crd (true, none) s = refl
    finish_sync-run crd (false, none) s = refl

    sync_instance-run :
        (k : String) (r : Result O) (s : KitState W Q)
        → (sync_instance handler k r s).1.run ≡ synced_object r s.run
    unfolding sync_instance
    sync_instance-run k (err e) s = ground arith
    sync_instance-run k (ok crd) s =
        finish_sync-run crd (handler.sync crd s.run).0
          (record s { run = (handler.sync crd s.run).1 })

    sync_split-run :
        (k : String) (r : Result (String × String)) (s : KitState W Q)
        → (sync_split handler k r s).1.run ≡ synced_name r s.run
    unfolding sync_split
    sync_split-run k (err e) s = refl
    sync_split-run k (ok (namespace, name)) s =
        sync_instance-run k (handler.custom_resource_instance s.run.world namespace name) s

  module _ {Q : Type 0} ⦃work_queue : WorkQueue Q⦄ where
    finish_item-run :
        (k : String) (e : Option GoError) (s : KitState W Q)
        → (finish_item handler k e s).run ≡ s.run
    unfolding finish_item
    finish_item-run k none s = refl
    finish_item-run k (some e) s = ground arith

    pub process_item-run :
        (i : Item) (s : KitState W Q) → (process_item handler i s).run ≡ synced_item i s.run
    unfolding process_item sync_handler
    process_item-run (foreign o) s = refl
    process_item-run (key k) s =
        let (e, t) = sync_handler handler k s in
        finish_item-run k e t ∙ sync_split-run k (lib.split_meta_namespace_key k) s

    module _ ⦃end : Draining Q⦄ where
      abbrev DrainsTo : List Item → Q → Type 0
      DrainsTo rest q = (end.draining q ≡ true) × (end.left q ≡ rest)

      done-DrainsTo :
          (i : Item) (rest : List Item) (q : Q)
          → DrainsTo rest q
          → DrainsTo rest (work_queue.done i q)
      done-DrainsTo i rest q (shut, h) = let (d, l) = end.done_draining q i shut in (d, l ∙ h)

      forget-DrainsTo :
          (i : Item) (rest : List Item) (q : Q)
          → DrainsTo rest q
          → DrainsTo rest (work_queue.forget i q)
      forget-DrainsTo i rest q (shut, h) = let (d, l) = end.forget_draining q i shut in (d, l ∙ h)

      finish_item-DrainsTo :
          (k : String) (e : Option GoError) (rest : List Item) (s : KitState W Q)
          → DrainsTo rest s.queue
          → DrainsTo rest (finish_item handler k e s).queue
      unfolding finish_item
      finish_item-DrainsTo k none rest s h =
          done-DrainsTo (key k) rest _ (forget-DrainsTo (key k) rest s.queue h)
      finish_item-DrainsTo k (some e) rest s h =
          let done = done-DrainsTo (key k) rest s.queue h in ground arith

      process_item-DrainsTo :
          (i : Item) (rest : List Item) (s : KitState W Q)
          → DrainsTo rest s.queue
          → DrainsTo rest (process_item handler i s).queue
      unfolding process_item
      process_item-DrainsTo (foreign o) rest s h =
          done-DrainsTo (foreign o) rest _ (forget-DrainsTo (foreign o) rest s.queue h)
      process_item-DrainsTo (key k) rest s h =
          finish_item-DrainsTo k (sync_handler handler k s).0 rest (sync_handler handler k s).1
            (subst (DrainsTo rest) (sym (sync_handler-queue handler k s)) h)

      -- What a worker has done when it returns.
      abbrev Drained : List Item → Run W → Bool × KitState W Q → Type 0
      Drained items r (returned, t) =
          (returned ≡ true) × (end.left t.queue ≡ []) × (t.run ≡ synced_items items r)

      -- Once the queue has been shut down, a worker returns after one round for each item that is
      -- left and one more; the queue is empty then, and each of these items whose key names an
      -- object has had one Sync, in order.
      pub worker_drains :
          (fuel : ℕ) (items : List Item) (s : KitState W Q)
          → length items < fuel
          → end.draining s.queue ≡ true
          → end.left s.queue ≡ items
          → Drained items s.run (run_worker handler fuel s)
      unfolding run_worker process_next_work_item process_taken
      worker_drains zero items s enough shut h = absurd (omega arith)
      worker_drains (suc fuel) [] s enough shut h =
          let (stop, empty) = end.get_last s.queue shut h in rw stop (refl, empty, refl)
      worker_drains (suc fuel) (i ∷ rest) s enough shut h =
          let (got, remain, still) = end.get_next s.queue i rest shut h in
          let (d, l) = process_item-DrainsTo i rest (taken s) (still, remain) in
          let (ends, empty, runs) =
            worker_drains fuel rest (process_item handler i (taken s)) (omega arith) d l in
          rw got (ends, empty, runs ∙ ap (synced_items rest) (process_item-run i (taken s)))
