-- ===== src/Cluster.antt =====
-- What the controllers and the service see of Kubernetes: the informers' caches (client-go listers),
-- the API server (the clientsets) and the clock, as an interface over an abstract world `W`.
-- A write may fail, and changes the world in a way that the model leaves open. `Run` keeps beside
-- the world the writes that the program asked for, so that a theorem can say which they are.
pub mod Writes
use k8cc.Prelude.{String, Option, List, [], ◌∷◌, ◌++◌, Action}
use k8cc.Clock.{Time}
use k8cc.GoError.{GoError, Result}
use k8cc.Kube.{Deployment, Service, Selector}
use k8cc.Types.{Distcc, DistccClaim, DistccClient, DistccClientClaim}

pub record Cluster (W : Type 0) : Type 0 where
  -- Lister(namespace).Get(name) and .List(selector): reads of the local cache
  pub cached_deployment : W → String → String → Result Deployment
  pub cached_deployments : W → String → Selector → Result (List Deployment)
  pub cached_service : W → String → String → Result Service
  pub cached_services : W → String → Selector → Result (List Service)
  pub cached_distcc : W → String → String → Result Distcc
  pub cached_claim : W → String → String → Result DistccClaim
  pub cached_claims : W → String → Selector → Result (List DistccClaim)
  pub cached_client : W → String → String → Result DistccClient
  pub cached_client_claim : W → String → String → Result DistccClientClaim
  -- the clientsets
  pub create_deployment : Deployment → W → Result Deployment × W
  pub update_deployment : Deployment → W → Result Deployment × W
  pub create_service : Service → W → Result Service × W
  pub update_distcc : Distcc → W → Result Distcc × W
  pub update_claim : DistccClaim → W → Result DistccClaim × W
  pub delete_claim : String → String → W → Option GoError × W
  pub update_client_claim : DistccClientClaim → W → Result DistccClientClaim × W
  pub delete_client_claim : String → String → W → Option GoError × W
  -- time.Now()
  pub now : W → Time × W

-- A write that was asked for, whether or not it succeeded.
pub data Write : Type 0 where
  created_deployment updated_deployment : Deployment → Write
  created_service : Service → Write
  updated_distcc : Distcc → Write
  created_claim updated_claim : DistccClaim → Write
  deleted_claim : String → String → Write
  created_client_claim updated_client_claim : DistccClientClaim → Write
  deleted_client_claim : String → String → Write

-- The world and the writes so far, the last one last.
pub record Run (W : Type 0) : Type 0 where
  pub world : W
  pub writes : List Write

module _ {W A : Type 0} where
  -- A call that writes: its effect on the world, and its entry among the writes.
  abbrev pub write : Write → (W → A × W) → Action (Run W) A
  write entry call s =
      let (a, w) = call s.world in (a, record { world = w; writes = s.writes ++ entry ∷ [] })

  -- A call that writes nothing.
  abbrev pub read : (W → A × W) → Action (Run W) A
  read call s = let (a, w) = call s.world in (a, record { world = w; writes = s.writes })
