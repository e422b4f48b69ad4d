-- ===== src/Kit/Delivery.antt =====
-- Which custom resource an event reaches: the informers' handlers and the worker of
-- pkg/controller/kit/controller_kit.go together.
use k8cc.Prelude.{String, ◌≡◌, ◌∙◌, refl, true, Option, none, some}
use k8cc.Prelude.Int.{ℤ}
use k8cc.Prelude.Text.{avoids}
use k8cc.GoError.{ok}
use k8cc.Kube.{ObjectMeta}
use k8cc.Types.{Distcc, DistccClaim, group_version_kind}
use k8cc.Library.{Library}
use k8cc.Cluster.{Cluster}
use k8cc.Kit.{KitState, sync_instance, sync_handler, process_next_work_item, with_queue}
use k8cc.Kit.Draining.{process_item-run}
use k8cc.Kit.Retries.{taken}
use k8cc.Distcc.{sync}
use k8cc.Kit.Queue.{WorkQueue, key}
use k8cc.Kit.Hooks.{Handler, deployment, distcc_claim, tombstone}
use k8cc.Kit.Informer.{enqueue_custom_resource, handle_object}
use k8cc.Distcc.Objects.{new_deployment}
use k8cc.Distcc.Hooks

module _ ⦃lib : Library⦄ {W Q O : Type 0} ⦃work_queue : WorkQueue Q⦄ (handler : Handler W O) where
  -- Whatever is enqueued for an object comes back to it: the key that `enqueueCustomResource` adds is
  -- the one by which `syncHandler` looks the object up, if its namespace and its name have no slash.
  pub key_roundtrip :
      (m : ObjectMeta) (s t : KitState W Q)
      → avoids b'/' m.namespace ≡ true
      → avoids b'/' m.name ≡ true
      → (k : String) × (enqueue_custom_resource (some m) s
          ≡ with_queue (work_queue.add_rate_limited (key k)) s)
        × (sync_handler handler k t
            ≡ sync_instance handler k
                (handler.custom_resource_instance t.run.world m.namespace m.name)
                t)
  unfolding enqueue_custom_resource sync_handler
  key_roundtrip m s t h1 h2 =
      let (k, e) = lib.meta_namespace_key_some m in (k, simp e, simp (lib.split-key m k e h1 h2))

module _ ⦃lib : Library⦄ {W Q : Type 0} ⦃cluster : Cluster W⦄ ⦃work_queue : WorkQueue Q⦄ where
  -- An event on a deployment that the controller created for a Distcc enqueues that Distcc, as long as
  -- it is in the cache.
  pub own_deployment_enqueues :
      (distcc found : Distcc) (replicas : Option ℤ) (s : KitState W Q)
      → cluster.cached_distcc s.run.world distcc.metadata.namespace distcc.metadata.name ≡ ok found
      → handle_object Hooks.handler (deployment (new_deployment distcc replicas)) s
        ≡ enqueue_custom_resource (some found.metadata) s
  unfolding handle_object new_deployment Hooks.on_controlled_object_update
  own_deployment_enqueues distcc found replicas s there =
      let kind = group_version_kind "Distcc" in
      let new = new_deployment distcc replicas in
      simp (
        lib.get_controller_of_new new.metadata distcc.metadata kind refl,
        lib.new_controller_ref-kind distcc.metadata kind,
        lib.new_controller_ref-name distcc.metadata kind,
        there,
      )

  -- From an event to the Sync of its owner: an event on a deployment that the controller created for a
  -- Distcc in the cache adds the key of that Distcc to the queue; and what a worker that takes this key
  -- does in the cluster is one Sync of the Distcc as the cache has it then, if its namespace and its
  -- name have no slash.
  pub deployment_event_syncs :
      (distcc found current : Distcc) (replicas : Option ℤ) (k : String) (s t : KitState W Q)
      → cluster.cached_distcc s.run.world distcc.metadata.namespace distcc.metadata.name ≡ ok found
      → lib.meta_namespace_key (some found.metadata) ≡ ok k
      → avoids b'/' found.metadata.namespace ≡ true
      → avoids b'/' found.metadata.name ≡ true
      → (work_queue.get t.queue).0 ≡ some (key k)
      → cluster.cached_distcc t.run.world found.metadata.namespace found.metadata.name ≡ ok current
      → (handle_object Hooks.handler (deployment (new_deployment distcc replicas)) s
          ≡ with_queue (work_queue.add_rate_limited (key k)) s)
        × ((process_next_work_item Hooks.handler t).1.run ≡ (sync current t.run).1)
  unfolding process_next_work_item enqueue_custom_resource
  deployment_event_syncs distcc found current replicas k s t there keyed plain plain_name got now =
      (
        own_deployment_enqueues distcc found replicas s there ∙ simp keyed,
        simp got (
            process_item-run Hooks.handler (key k) (taken t)
            ∙ simp (lib.split-key found.metadata k keyed plain plain_name, now)),
      )

  -- An event on a claim enqueues the Distcc that it refers to, if that is in the cache and the claim
  -- has no controller; the deletion of the claim that is learned from a tombstone does not: it
  -- enqueues nothing.
  pub claim_tombstone_ignored :
      (claim : DistccClaim) (found : Distcc) (name : String) (s : KitState W Q)
      → cluster.cached_distcc s.run.world claim.metadata.namespace claim.spec.distcc_name ≡ ok found
      → lib.get_controller_of claim.metadata ≡ none
      → (handle_object Hooks.handler (distcc_claim claim) s
          ≡ enqueue_custom_resource (some found.metadata) s)
        × (handle_object Hooks.handler (tombstone name (distcc_claim claim)) s ≡ s)
  unfolding handle_object Hooks.on_controlled_object_update
  claim_tombstone_ignored claim found name s there free = (simp (there, free), simp free)
