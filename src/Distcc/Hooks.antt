-- ===== src/Distcc/Hooks.antt =====
-- pkg/controller/distcc/distcc_controller.go: the hooks of the Distcc controller.
use k8cc.Prelude.{true, Option, none, some}
use k8cc.GoError.{Result, ok, err}
use k8cc.Types.{Distcc}
use k8cc.Library.{Library}
use k8cc.Cluster.{Cluster}
use k8cc.Kit.Hooks.{Handler, AnyObject, distcc_claim}
use k8cc.Distcc.{sync}

abbrev found : Result Distcc → Result (Option Distcc)
found (err e) = err e
found (ok d) = ok (some d)

module _ ⦃lib : Library⦄ {W : Type 0} ⦃cluster : Cluster W⦄ where
  -- The Distcc that a claim refers to is enqueued; other objects are of no interest.
  unfoldable pub on_controlled_object_update : W → AnyObject → Result (Option Distcc)
  on_controlled_object_update w (distcc_claim claim) =
      found (cluster.cached_distcc w claim.metadata.namespace claim.spec.distcc_name)
  on_controlled_object_update w _ = ok none

  abbrev pub handler : Handler W Distcc
  handler = record {
    agent_name = "k8cc-distcc-controller";
    sync = sync;
    custom_resource_kind = "Distcc";
    custom_resource_instance = cluster.cached_distcc;
    need_periodic_sync = true;
    on_controlled_object_update = on_controlled_object_update;
    metadata = λ d. d.metadata;
  }
