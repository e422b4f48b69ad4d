-- ===== src/Kit/Hooks.antt =====
-- ControllerHandler of pkg/controller/kit/controller_kit.go, and the objects that informers deliver.
use k8cc.Prelude.{Action, String, Bool, Option, none, some}
use k8cc.GoError.{GoError, Result}
use k8cc.Kube.{ObjectMeta, Deployment, Service}
use k8cc.Types.{Distcc, DistccClaim, DistccClient, DistccClientClaim}
use k8cc.Cluster.{Run}

-- A value that an informer hands to an event handler. A tombstone (cache.DeletedFinalStateUnknown)
-- holds the last known state of an object whose deletion was missed.
pub data AnyObject : Type 0 where
  deployment : Deployment → AnyObject
  service : Service → AnyObject
  distcc : Distcc → AnyObject
  distcc_claim : DistccClaim → AnyObject
  distcc_client : DistccClient → AnyObject
  distcc_client_claim : DistccClientClaim → AnyObject
  tombstone : String → AnyObject → AnyObject
  unknown : String → AnyObject

-- obj.(metav1.Object): a tombstone is none.
unfoldable pub metadata_of : AnyObject → Option ObjectMeta
metadata_of (deployment d) = some d.metadata
metadata_of (service d) = some d.metadata
metadata_of (distcc d) = some d.metadata
metadata_of (distcc_claim d) = some d.metadata
metadata_of (distcc_client d) = some d.metadata
metadata_of (distcc_client_claim d) = some d.metadata
metadata_of (tombstone name d) = none
metadata_of (unknown name) = none

-- The hooks, over the controlled type `O`.
pub record Handler (W O : Type 0) : Type 0 where
  pub agent_name : String
  pub sync : O → Action (Run W) (Bool × Option GoError)
  pub custom_resource_kind : String
  pub custom_resource_instance : W → String → String → Result O
  pub need_periodic_sync : Bool
  pub on_controlled_object_update : W → AnyObject → Result (Option O)
  -- O is an object: its metadata
  pub metadata : O → ObjectMeta
