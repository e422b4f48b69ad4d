-- ===== src/Kit/Tests.antt =====
-- Tests of the kit, and its theorems at concrete inputs.
use k8cc.Prelude.{◌≡◌, ◌↔◌, refl, true, false, none, some, List, [], ◌∷◌, arith}
use k8cc.Prelude.Int.{pos}
use k8cc.Clock.{Time}
use k8cc.GoError.{ok, err, status, transient_error, StatusReason}
use k8cc.Errors.{is_transient, has_event}
use k8cc.Samples.{sample_library, answering, Answers, nothing}
use k8cc.Samples.Objects.{dev, claim_until}
use k8cc.Samples.Queues.{Waiting, sample_queue, sample_draining}
use k8cc.Kit.{KitState, sync_handler, process_next_work_item, run_worker, with_queue}
use k8cc.Kit.Queue.{Item, key}
use k8cc.Kit.Draining.{synced_items, worker_drains}
use k8cc.Kit.Hooks.{deployment, distcc_claim, tombstone}
use k8cc.Kit.Informer.{enqueue_custom_resource, handle_object}
use k8cc.Kit.Retries.{taken, failed_item_dropped, worker_stops_iff}
use k8cc.Kit.Delivery.{deployment_event_syncs, claim_tombstone_ignored}
use k8cc.Distcc.{sync}
use k8cc.Distcc.Objects.{new_deployment, new_service}
use k8cc.Distcc.Hooks

-- A state with one key in the queue, counted twice by the rate limiter.
abbrev waiting : KitState Time Waiting
waiting = record {
  run = record { world = 1_100_000_000_000; writes = [] };
  queue = record { items = key "default/dev" ∷ []; counts = λ i. 2 };
  events = [];
  errors = [];
}

-- The deployment cannot be read.
abbrev broken : Answers
broken = record nothing {
  distcc = ok dev;
  deployment = err (status StatusReason.unavailable "try later");
}

failed_item_dropped_example :
    (sample_queue.scheduled
        (process_next_work_item (Hooks.handler ⦃cluster = answering broken⦄) waiting).1.queue
        (key "default/dev")
      ≡ sample_queue.scheduled (taken waiting).queue (key "default/dev"))
    × (sample_queue.num_requeues
          (process_next_work_item (Hooks.handler ⦃cluster = answering broken⦄) waiting).1.queue
          (key "default/dev")
        ≡ 2)
unfolding sync_handler sync has_event
failed_item_dropped_example =
    failed_item_dropped (Hooks.handler ⦃cluster = answering broken⦄) waiting "default/dev"
      (transient_error (status StatusReason.unavailable "try later")) (key "default/dev") refl refl

-- The error of this failure is a transient one.
dropped_error_transient :
    is_transient (transient_error (status StatusReason.unavailable "try later")) ≡ true
unfolding is_transient
dropped_error_transient = refl

abbrev healthy : Answers
healthy = record nothing {
  distcc = ok dev;
  deployment = ok (new_deployment dev (some (pos 1)));
  service = ok (new_service dev);
}

worker_stops_iff_example :
    ((process_next_work_item (Hooks.handler ⦃cluster = answering healthy⦄) waiting).0 ≡ false
      ↔ (sample_queue.get waiting.queue).0 ≡ none)
    × ((sample_queue.get waiting.queue).0 ≡ none
        → (process_next_work_item (Hooks.handler ⦃cluster = answering healthy⦄) waiting).1
          ≡ taken waiting)
worker_stops_iff_example = worker_stops_iff (Hooks.handler ⦃cluster = answering healthy⦄) waiting

claim_tombstone_ignored_example :
    (handle_object
        (Hooks.handler ⦃cluster = answering healthy⦄)
        (distcc_claim (claim_until none))
        waiting
      ≡ enqueue_custom_resource (some dev.metadata) waiting)
    × (handle_object
          (Hooks.handler ⦃cluster = answering healthy⦄)
          (tombstone "default/mike-dev" (distcc_claim (claim_until none)))
          waiting
        ≡ waiting)
claim_tombstone_ignored_example =
    claim_tombstone_ignored ⦃cluster = answering healthy⦄ (claim_until none) dev "default/mike-dev"
      waiting refl refl

-- Two keys are left.
abbrev closing : KitState Time Waiting
closing = record waiting {
  queue = record { items = key "default/dev" ∷ key "default/ci" ∷ []; counts = λ i. 0 };
}

worker_drains_example :
    ((run_worker (Hooks.handler ⦃cluster = answering healthy⦄) 3 closing).0 ≡ true)
    × (◌≡◌ {A = List Item}
        (run_worker (Hooks.handler ⦃cluster = answering healthy⦄) 3 closing).1.queue.items
        [])
    × ((run_worker (Hooks.handler ⦃cluster = answering healthy⦄) 3 closing).1.run
        ≡ synced_items
            (Hooks.handler ⦃cluster = answering healthy⦄)
            (key "default/dev" ∷ key "default/ci" ∷ [])
            closing.run)
worker_drains_example =
    worker_drains (Hooks.handler ⦃cluster = answering healthy⦄) 3
      (key "default/dev" ∷ key "default/ci" ∷ []) closing (omega arith) refl refl

deployment_event_syncs_example :
    (handle_object
        (Hooks.handler ⦃cluster = answering healthy⦄)
        (deployment (new_deployment dev none))
        waiting
      ≡ with_queue (sample_queue.add_rate_limited (key "default/dev")) waiting)
    × ((process_next_work_item (Hooks.handler ⦃cluster = answering healthy⦄) waiting).1.run
        ≡ (sync ⦃cluster = answering healthy⦄ dev waiting.run).1)
deployment_event_syncs_example =
    deployment_event_syncs ⦃cluster = answering healthy⦄ dev dev dev none "default/dev" waiting
      waiting refl refl refl refl refl refl
