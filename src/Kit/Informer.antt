-- ===== src/Kit/Informer.antt =====
-- pkg/controller/kit/controller_kit.go: the event handlers that `NewController` adds to the
-- informers, which put keys of custom resources into the work queue.
use k8cc.Prelude.{String, Bool, true, false, Option, none, some, not, ◌||◌, if◌then◌else◌}
use k8cc.Prelude.Text.{str_eq}
use k8cc.GoError.{GoError, message, wrapped, Result, ok, err}
use k8cc.Kube.{ObjectMeta, OwnerReference}
use k8cc.Library.{Library}
use k8cc.Kit.{KitState, handle_error, with_queue}
use k8cc.Kit.Queue.{WorkQueue, key}
use k8cc.Kit.Hooks.{Handler, AnyObject, tombstone, metadata_of}

-- object, or the object that a tombstone holds
unfoldable pub recovered : AnyObject → Option ObjectMeta
unfolding metadata_of
recovered (tombstone name last) = metadata_of last
recovered object = metadata_of object

abbrev is_tombstone : AnyObject → Bool
is_tombstone (tombstone name last) = true
is_tombstone _ = false

-- The complaint about a value that is no object.
unfoldable pub not_an_object : AnyObject → GoError
not_an_object object =
    if is_tombstone object
    then message "error decoding object tombstone, invalid type"
    else message "error decoding object, invalid type"

module _ ⦃lib : Library⦄ {W Q : Type 0} ⦃work_queue : WorkQueue Q⦄ where
  unfoldable pub enqueue_key : Result String → KitState W Q → KitState W Q
  enqueue_key (err e) s = handle_error e s
  enqueue_key (ok k) s = with_queue (work_queue.add_rate_limited (key k)) s

  -- enqueueCustomResource, for a value with or without metadata
  unfoldable pub enqueue_custom_resource : Option ObjectMeta → KitState W Q → KitState W Q
  unfolding enqueue_key
  enqueue_custom_resource m s = enqueue_key (lib.meta_namespace_key m) s

  -- The UpdateFunc and the AddFunc and DeleteFunc of the custom resource's informer.
  unfoldable pub on_custom_resource : AnyObject → KitState W Q → KitState W Q
  unfolding enqueue_custom_resource metadata_of
  on_custom_resource object s = enqueue_custom_resource (metadata_of object) s

  module _ {O : Type 0} (handler : Handler W O) where
    unfoldable pub on_custom_resource_update : O → O → KitState W Q → KitState W Q
    unfolding enqueue_custom_resource
    on_custom_resource_update old new s =
        if handler.need_periodic_sync
          || not (
              str_eq (handler.metadata new).resource_version
                (handler.metadata old).resource_version)
        then enqueue_custom_resource (some (handler.metadata new)) s
        else s

    -- The owner of the object, if it is one of the controlled kind that exists.
    unfoldable pub enqueue_owner_instance : Result O → KitState W Q → KitState W Q
    unfolding enqueue_custom_resource
    enqueue_owner_instance (err e) s = s
    enqueue_owner_instance (ok crd) s = enqueue_custom_resource (some (handler.metadata crd)) s

    unfoldable pub enqueue_owner : ObjectMeta → Option OwnerReference → KitState W Q → KitState W Q
    unfolding enqueue_owner_instance
    enqueue_owner m none s = s
    enqueue_owner m (some ref) s =
        if str_eq ref.kind handler.custom_resource_kind
        then enqueue_owner_instance
            (handler.custom_resource_instance s.run.world m.namespace ref.name) s
        else s

    -- The object that the hook names.
    unfoldable pub enqueue_hooked : ObjectMeta → Result (Option O) → KitState W Q → KitState W Q
    unfolding enqueue_owner enqueue_custom_resource
    enqueue_hooked m (err e) s =
        handle_error (wrapped e "error in OnControlledObjectUpdate: ignoring") s
    enqueue_hooked m (ok none) s = enqueue_owner m (lib.get_controller_of m) s
    enqueue_hooked m (ok (some crd)) s =
        enqueue_owner m (lib.get_controller_of m)
          (enqueue_custom_resource (some (handler.metadata crd)) s)

    unfoldable pub handle_recovered : AnyObject → Option ObjectMeta → KitState W Q → KitState W Q
    unfolding enqueue_hooked not_an_object
    handle_recovered object none s = handle_error (not_an_object object) s
    handle_recovered object (some m) s =
        enqueue_hooked m (handler.on_controlled_object_update s.run.world object) s

    -- handleObject: the hook is given the object as it came, a tombstone too.
    unfoldable pub handle_object : AnyObject → KitState W Q → KitState W Q
    unfolding handle_recovered recovered
    handle_object object s = handle_recovered object (recovered object) s

    -- handleObjectUpdate
    unfoldable pub handle_object_update :
        ObjectMeta → ObjectMeta → AnyObject → KitState W Q → KitState W Q
    unfolding handle_object
    handle_object_update old new object s =
        if str_eq new.resource_version old.resource_version then s else handle_object object s
