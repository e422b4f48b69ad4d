-- ===== src/Kit.antt =====
-- pkg/controller/kit/controller_kit.go: the part that all controllers share. `Hooks` has the
-- interface ControllerHandler, `Queue` the rate limited work queue of client-go; this file has the
-- worker that takes items off the queue, `Informer` the event handlers that put them there.
-- The goroutines of `Run` each are a `run_worker`, and work on different keys at a time.
pub mod Queue
pub mod Hooks
pub mod Informer
pub mod Retries
pub mod Delivery
pub mod Draining
mod Tests
use k8cc.Prelude.{
  ℕ, suc, zero, Action, String, Bool, true, false, Option, none, some, List, [], ◌∷◌, ◌++◌,
  if◌then◌else◌,
}
use k8cc.Prelude.Text.{◌<>◌}
use k8cc.GoError.{GoError, Event, message, wrapped, Result, ok, err}
use k8cc.Kube.{ObjectMeta}
use k8cc.Errors.{is_transient, has_event}
use k8cc.Library.{Library}
use k8cc.Cluster.{Run}
use Queue.{WorkQueue, Item, key, foreign}
use Hooks.{Handler}

-- What a controller works on: the cluster, its queue, the events that the recorder has recorded with
-- the name of their object, and the errors given to utilruntime.HandleError.
pub record KitState (W Q : Type 0) : Type 0 where
  pub run : Run W
  pub queue : Q
  pub events : List (String × Event)
  pub errors : List GoError

module _ {W Q : Type 0} where
  abbrev pub record_event : ObjectMeta → Event → KitState W Q → KitState W Q
  record_event m event s = record s { events = s.events ++ (m.name, event) ∷ [] }

  abbrev pub handle_error : GoError → KitState W Q → KitState W Q
  handle_error e s = record s { errors = s.errors ++ e ∷ [] }

  abbrev pub with_queue : (Q → Q) → KitState W Q → KitState W Q
  with_queue f s = record s { queue = f s.queue }

-- SuccessSynced and MessageResourceSynced
unfoldable pub synced : String → Event
synced kind = record {
  type = "Normal";
  reason = "Synced";
  message = kind <> " synced successfully";
}

module _ ⦃lib : Library⦄ {W Q O : Type 0} (handler : Handler W O) where
  -- The end of `syncHandler`: events for the result of `Sync`.
  unfoldable pub finish_sync : O → Bool × Option GoError → Action (KitState W Q) (Option GoError)
  unfolding synced
  finish_sync crd (updated, some e) s = elim (has_event e) [
    | none ↦ (some e, s)
    | some event ↦ (some e, record_event (handler.metadata crd) event s)
  ]
  finish_sync crd (updated, none) s =
      if updated
      then (none, record_event (handler.metadata crd) (synced handler.custom_resource_kind) s)
      else (none, s)

  unfoldable pub sync_instance : String → Result O → Action (KitState W Q) (Option GoError)
  unfolding finish_sync
  sync_instance name (err e) s =
      if lib.is_not_found e
      then (
        some (
            message (
              handler.custom_resource_kind
              <> (" '" <> (name <> "' in work queue no longer exists")))),
        s,
      )
      else (some e, s)
  sync_instance name (ok crd) s =
      let (r, run) = handler.sync crd s.run in finish_sync crd r (record s { run = run })

  unfoldable pub sync_split :
      String → Result (String × String) → Action (KitState W Q) (Option GoError)
  unfolding sync_instance
  sync_split k (err e) s = (some (message ("invalid resource key: " <> k)), s)
  sync_split k (ok (namespace, name)) s =
      sync_instance k (handler.custom_resource_instance s.run.world namespace name) s

  -- syncHandler
  unfoldable pub sync_handler : String → Action (KitState W Q) (Option GoError)
  unfolding sync_split
  sync_handler k s = sync_split k (lib.split_meta_namespace_key k) s

  module _ ⦃work_queue : WorkQueue Q⦄ where
    -- What follows `syncHandler`: Done is deferred, so it comes before the error of a transient
    -- failure is handled, and after that of a permanent one.
    unfoldable pub finish_item : String → Option GoError → KitState W Q → KitState W Q
    finish_item k none s =
        with_queue (work_queue.done (key k)) (with_queue (work_queue.forget (key k)) s)
    finish_item k (some e) s =
        if is_transient e
        then handle_error (wrapped e ("transient error syncinc " <> k))
            (with_queue (work_queue.done (key k)) s)
        else with_queue (work_queue.done (key k))
            (handle_error (wrapped e ("error syncing " <> k)) s)

    unfoldable pub process_item : Item → KitState W Q → KitState W Q
    unfolding sync_handler finish_item
    process_item (foreign o) s = with_queue (work_queue.done (foreign o)) (
        handle_error (message ("expected string in workqueue but got " <> o))
          (with_queue (work_queue.forget (foreign o)) s))
    process_item (key k) s = let (e, t) = sync_handler k s in finish_item k e t

    unfoldable pub process_taken : Option Item → Action (KitState W Q) Bool
    unfolding process_item
    process_taken none s = (false, s)
    process_taken (some item) s = (true, process_item item s)

    -- processNextWorkItem: false when the queue has been shut down.
    unfoldable pub process_next_work_item : Action (KitState W Q) Bool
    unfolding process_taken
    process_next_work_item s =
        let (item, q) = work_queue.get s.queue in process_taken item (record s { queue = q })

    -- runWorker, for at most `fuel` rounds; false where there are more.
    unfoldable pub run_worker : ℕ → Action (KitState W Q) Bool
    unfolding process_next_work_item
    run_worker zero s = (false, s)
    run_worker (suc fuel) s =
        let (more, t) = process_next_work_item s in
        let rest = run_worker fuel t in if more then rest else (true, t)
