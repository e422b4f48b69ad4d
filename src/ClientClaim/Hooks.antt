-- ===== src/ClientClaim/Hooks.antt =====
-- pkg/controller/distccclientclaim/distccclientclaim_controller.go: the hooks of the controller.
use k8cc.Prelude.{true, none}
use k8cc.GoError.{ok}
use k8cc.Types.{DistccClientClaim}
use k8cc.Library.{Library}
use k8cc.Cluster.{Cluster}
use k8cc.Kit.Hooks.{Handler}
use k8cc.ClientClaim.{sync}

module _ ⦃lib : Library⦄ {W : Type 0} ⦃cluster : Cluster W⦄ where
  abbrev pub handler : Handler W DistccClientClaim
  handler = record {
    agent_name = "k8cc-distcc-client-controller";
    sync = sync;
    custom_resource_kind = "DistccClientClaim";
    custom_resource_instance = cluster.cached_client_claim;
    need_periodic_sync = true;
    on_controlled_object_update = λ w object. ok none;
    metadata = λ c. c.metadata;
  }
