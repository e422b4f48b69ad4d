-- ===== src/Distcc/Convergence.antt =====
-- Repeated runs of `Sync` of pkg/controller/distcc/distcc_controller.go in a cluster that takes its
-- writes: `Prompt` is such a cluster, `Deploying` and `Serving` have the phases, `Settling` the
-- whole, `Leases` what it means for the users.
pub mod Deploying
pub mod Serving
pub mod Settling
pub mod Leases
mod Tests
use k8cc.Prelude.{String, ◌≡◌, ◌≤◌, true, none, some, Option, ◌∙◌}
use k8cc.Prelude.Int.{ℤ}
use k8cc.Clock.{Time}
use k8cc.GoError.{GoError, Result, ok, err}
use k8cc.Kube.{Deployment, Service, Selector}
use k8cc.Types.{Distcc}
use k8cc.Library.{Library}
use k8cc.Cluster.{Cluster, Run}
use k8cc.Distcc.{desired_replicas}

module _ {W : Type 0} ⦃cluster : Cluster W⦄ where
  abbrev pub SameDeployments : W → W → Type 0
  SameDeployments w v =
      (ns n : String) → cluster.cached_deployment v ns n ≡ cluster.cached_deployment w ns n

  abbrev pub SameServices : W → W → Type 0
  SameServices w v = (ns n : String) → cluster.cached_service v ns n ≡ cluster.cached_service w ns n

  abbrev pub SameClaims : W → W → Type 0
  SameClaims w v =
      (ns : String) (selector : Selector)
      → cluster.cached_claims v ns selector ≡ cluster.cached_claims w ns selector

-- A cluster whose API server accepts the writes, and whose caches have caught up with each write when
-- the next call is made. Time passes at any call, and never goes back.
pub record Prompt (W : Type 0) ⦃lib : Library⦄ ⦃cluster : Cluster W⦄ : Type 0 where
  pub clock : W → Time
  pub now_reading :
      (w : W) → (clock w ≤ (cluster.now w).0) × ((cluster.now w).0 ≤ clock (cluster.now w).1)
  pub now_same :
      (w : W)
      → SameDeployments w (cluster.now w).1
        × SameServices w (cluster.now w).1
        × SameClaims w (cluster.now w).1
  -- Create and Update answer with the object as it is stored, and the cache has it: its owners are
  -- those that it was given, and so is the number of replicas, if it was given.
  pub deployment_created :
      (d : Deployment) (w : W) (e : GoError)
      → cluster.cached_deployment w d.metadata.namespace d.metadata.name ≡ err e
      → lib.is_not_found e ≡ true
      → (answer : Deployment) × ((cluster.create_deployment d w).0 ≡ ok answer)
        × (answer.metadata.owner_references ≡ d.metadata.owner_references)
        × (cluster.cached_deployment
              (cluster.create_deployment d w).1
              d.metadata.namespace
              d.metadata.name
            ≡ ok answer)
  pub create_deployment_later :
      (d : Deployment) (w : W)
      → (clock w ≤ clock (cluster.create_deployment d w).1)
        × SameServices w (cluster.create_deployment d w).1
        × SameClaims w (cluster.create_deployment d w).1
  pub deployment_updated :
      (d old : Deployment) (w : W)
      → cluster.cached_deployment w d.metadata.namespace d.metadata.name ≡ ok old
      → (answer : Deployment) × ((cluster.update_deployment d w).0 ≡ ok answer)
        × (answer.metadata.owner_references ≡ d.metadata.owner_references)
        × ((n : ℤ) → d.spec.replicas ≡ some n → answer.spec.replicas ≡ some n)
        × (cluster.cached_deployment
              (cluster.update_deployment d w).1
              d.metadata.namespace
              d.metadata.name
            ≡ ok answer)
  pub update_deployment_later :
      (d : Deployment) (w : W)
      → (clock w ≤ clock (cluster.update_deployment d w).1)
        × SameServices w (cluster.update_deployment d w).1
        × SameClaims w (cluster.update_deployment d w).1
  pub service_created :
      (v : Service) (w : W) (e : GoError)
      → cluster.cached_service w v.metadata.namespace v.metadata.name ≡ err e
      → lib.is_not_found e ≡ true
      → (answer : Service) × ((cluster.create_service v w).0 ≡ ok answer)
        × (answer.metadata.owner_references ≡ v.metadata.owner_references)
        × (cluster.cached_service
              (cluster.create_service v w).1
              v.metadata.namespace
              v.metadata.name
            ≡ ok answer)
  pub create_service_later :
      (v : Service) (w : W)
      → (clock w ≤ clock (cluster.create_service v w).1)
        × SameDeployments w (cluster.create_service v w).1
        × SameClaims w (cluster.create_service v w).1
  pub distcc_updated :
      (d : Distcc) (w : W) → (answer : Distcc) × ((cluster.update_distcc d w).0 ≡ ok answer)
  pub update_distcc_later :
      (d : Distcc) (w : W)
      → (clock w ≤ clock (cluster.update_distcc d w).1)
        × SameDeployments w (cluster.update_distcc d w).1
        × SameServices w (cluster.update_distcc d w).1
        × SameClaims w (cluster.update_distcc d w).1

module _ ⦃lib : Library⦄ {W : Type 0} ⦃cluster : Cluster W⦄ where
  -- The deployment of the spec is missing, or the Distcc controls it.
  pub data OwnOrMissing (distcc : Distcc) (w : W) : Type 0 where
    missing :
        (e : GoError)
        → cluster.cached_deployment w distcc.metadata.namespace distcc.spec.deployment_name ≡ err e
        → lib.is_not_found e ≡ true
        → OwnOrMissing distcc w
    own :
        (deploy : Deployment)
        → cluster.cached_deployment w distcc.metadata.namespace distcc.spec.deployment_name
          ≡ ok deploy
        → lib.is_controlled_by deploy.metadata distcc.metadata ≡ true
        → OwnOrMissing distcc w

  pub data OwnServiceOrMissing (distcc : Distcc) (w : W) : Type 0 where
    missing :
        (e : GoError)
        → cluster.cached_service w distcc.metadata.namespace distcc.spec.service_name ≡ err e
        → lib.is_not_found e ≡ true
        → OwnServiceOrMissing distcc w
    own :
        (service : Service)
        → cluster.cached_service w distcc.metadata.namespace distcc.spec.service_name ≡ ok service
        → lib.is_controlled_by service.metadata distcc.metadata ≡ true
        → OwnServiceOrMissing distcc w

  abbrev pub HasOwn : Distcc → Deployment → W → Type 0
  HasOwn distcc deploy w =
      (cluster.cached_deployment w distcc.metadata.namespace distcc.spec.deployment_name
        ≡ ok deploy)
      × (lib.is_controlled_by deploy.metadata distcc.metadata ≡ true)

  abbrev pub HasOwnService : Distcc → Service → W → Type 0
  HasOwnService distcc service w =
      (cluster.cached_service w distcc.metadata.namespace distcc.spec.service_name ≡ ok service)
      × (lib.is_controlled_by service.metadata distcc.metadata ≡ true)

  -- The deployment is there and has the replicas.
  abbrev pub HasReplicas : Distcc → ℤ → W → Type 0
  HasReplicas distcc desired w =
      (deploy : Deployment) × HasOwn distcc deploy w × (deploy.spec.replicas ≡ some desired)

  -- The deployment has the replicas, the service is there, and both are controlled by the Distcc.
  abbrev pub InOrder : Distcc → ℤ → W → Type 0
  InOrder distcc desired w =
      HasReplicas distcc desired w × ((service : Service) × HasOwnService distcc service w)

module _ ⦃lib : Library⦄ {W : Type 0} ⦃cluster : Cluster W⦄ ⦃prompt : Prompt W⦄ where
  -- Time has passed, and the claims in the cache are the same.
  abbrev pub Passes : W → W → Type 0
  Passes w v = (prompt.clock w ≤ prompt.clock v) × SameClaims w v

  -- From now on the claims in the cache ask for this number of replicas.
  abbrev pub Demands : Distcc → ℤ → W → Type 0
  Demands distcc desired w =
      (t : Run W) → Passes w t.world → (desired_replicas distcc t).0 ≡ ok desired
