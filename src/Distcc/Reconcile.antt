-- ===== src/Distcc/Reconcile.antt =====
-- Whole runs of `Sync` of pkg/controller/distcc/distcc_controller.go: what it does when the
-- deployment is in place, foreign, to be scaled, or held by the downscale window.
use k8cc.Prelude.{◌≡◌, ◌≢◌, ◌≤◌, true, false, none, some, [], ◌∷◌, ◌++◌, arith}
use k8cc.Prelude.Int.{ℤ, ◌≤ℤ◌}
use k8cc.Prelude.Text.{str_eq_ne}
use k8cc.Clock.{Time, Duration, add, truncate}
use k8cc.GoError.{GoError, Result, ok, err, error_of, transient_error}
use k8cc.Kube.{Deployment, Service}
use k8cc.Types.{Distcc}
use k8cc.Library.{Library}
use k8cc.Cluster.{Cluster, Run, write, updated_deployment, updated_distcc}
use k8cc.Distcc.{no_update, desired_replicas, sync_deployment, sync_service, sync}
use k8cc.Distcc.Objects.{new_deployment}
use k8cc.Distcc.Replicas.{need_scale}

-- The Distcc with both times of its status at `now`, in whole seconds.
abbrev pub stamped : Distcc → Time → Distcc
stamped distcc now = record distcc {
  status = record { last_update_time = some (truncate now); last_scale_time = some (truncate now) };
}

held_back :
    (now : Time) (distcc : Distcc) (deploy : Deployment) (current desired : ℤ) (window : Duration)
    (last : Time)
    → deploy.spec.replicas ≡ some current
    → desired ≤ℤ current
    → distcc.spec.downscale_window ≡ some window
    → distcc.status.last_scale_time ≡ some last
    → now ≤ add last window
    → need_scale now distcc deploy desired ≡ false
unfolding need_scale
held_back now distcc deploy current desired window last at_most_now enough windowed scaled_at
      early =
    ground arith

module _ ⦃lib : Library⦄ {W : Type 0} ⦃cluster : Cluster W⦄ where
  -- The world behind a reading of the clock.
  abbrev pub later : W → W
  later w = (cluster.now w).1

  -- The deployment that the spec names is in the cache.
  abbrev pub HasDeployment : Distcc → W → Deployment → Type 0
  HasDeployment distcc w deploy =
      (distcc.spec.deployment_name ≢ "")
      × (cluster.cached_deployment w distcc.metadata.namespace distcc.spec.deployment_name
          ≡ ok deploy)

  abbrev pub HasService : Distcc → W → Service → Type 0
  HasService distcc w service =
      (distcc.spec.service_name ≢ "")
      × (cluster.cached_service w distcc.metadata.namespace distcc.spec.service_name ≡ ok service)

  -- The run behind the two readings of the clock and the update of the replicas.
  unfoldable pub scaling : Distcc → ℤ → Run W → Run W
  scaling distcc desired s =
      let new = new_deployment distcc (some desired) in
      record {
        world = (cluster.update_deployment new (later (later s.world))).1;
        writes = s.writes ++ updated_deployment new ∷ [];
      }

  -- Then the update of the Distcc, with its answer.
  unfoldable pub recording : Distcc → ℤ → Run W → Result Distcc × Run W
  recording distcc desired s =
      let t = scaling distcc desired s in
      let copy = stamped distcc (cluster.now t.world).0 in
      write (updated_distcc copy) (cluster.update_distcc copy) (record t { world = later t.world })

  sync_deployment-held :
      (distcc : Distcc) (s : Run W) (deploy : Deployment) (desired : ℤ)
      → HasDeployment distcc s.world deploy
      → lib.is_controlled_by deploy.metadata distcc.metadata ≡ true
      → (desired_replicas distcc s).0 ≡ ok desired
      → need_scale (cluster.now (later s.world)).0 distcc deploy desired ≡ false
      → sync_deployment distcc s ≡ ((no_update, none), record s { world = later (later s.world) })
  unfolding sync_deployment
  sync_deployment-held distcc s deploy desired has ours wants held =
      simp (str_eq_ne distcc.spec.deployment_name "" has.0, has.1, ours, wants, held)

  sync_deployment-scaled :
      (distcc : Distcc) (s : Run W) (deploy answer : Deployment) (desired : ℤ)
      → HasDeployment distcc s.world deploy
      → lib.is_controlled_by deploy.metadata distcc.metadata ≡ true
      → (desired_replicas distcc s).0 ≡ ok desired
      → need_scale (cluster.now (later s.world)).0 distcc deploy desired ≡ true
      → (cluster.update_deployment (new_deployment distcc (some desired)) (later (later s.world))).0
        ≡ ok answer
      → sync_deployment distcc s
        ≡ ((record no_update { stateful_scaled = true }, none), scaling distcc desired s)
  unfolding sync_deployment scaling
  sync_deployment-scaled distcc s deploy answer desired has ours wants need done =
      simp (str_eq_ne distcc.spec.deployment_name "" has.0, has.1, ours, wants, need, done)

  sync_service-present :
      (distcc : Distcc) (s : Run W) (service : Service)
      → HasService distcc s.world service
      → lib.is_controlled_by service.metadata distcc.metadata ≡ true
      → sync_service distcc s ≡ ((false, none), s)
  unfolding sync_service
  sync_service-present distcc s service has ours =
      simp (str_eq_ne distcc.spec.service_name "" has.0, has.1, ours)

  -- With the deployment and the service in place and no need to scale, a Sync changes nothing: it
  -- reports no change and no error, it writes nothing, and it reads the clock twice.
  pub sync_settled :
      (distcc : Distcc) (s : Run W) (deploy : Deployment) (service : Service) (desired : ℤ)
      → HasDeployment distcc s.world deploy
      → lib.is_controlled_by deploy.metadata distcc.metadata ≡ true
      → (desired_replicas distcc s).0 ≡ ok desired
      → need_scale (cluster.now (later s.world)).0 distcc deploy desired ≡ false
      → HasService distcc (later (later s.world)) service
      → lib.is_controlled_by service.metadata distcc.metadata ≡ true
      → sync distcc s ≡ ((false, none), record s { world = later (later s.world) })
  unfolding sync
  sync_settled distcc s deploy service desired has ours wants held there owned =
      rw (sync_deployment-held distcc s deploy desired has ours wants held) (
        rw (
          sync_service-present distcc (record s { world = later (later s.world) }) service there
            owned))

  -- While the downscale window since the last scaling has not passed, a deployment with at least the
  -- desired replicas keeps them: with the service in place, a Sync writes nothing.
  pub downscale_window_held :
      (distcc : Distcc) (s : Run W) (deploy : Deployment) (service : Service) (current desired : ℤ)
      (window : Duration) (last : Time)
      → HasDeployment distcc s.world deploy
      → lib.is_controlled_by deploy.metadata distcc.metadata ≡ true
      → (desired_replicas distcc s).0 ≡ ok desired
      → deploy.spec.replicas ≡ some current
      → desired ≤ℤ current
      → distcc.spec.downscale_window ≡ some window
      → distcc.status.last_scale_time ≡ some last
      → (cluster.now (later s.world)).0 ≤ add last window
      → HasService distcc (later (later s.world)) service
      → lib.is_controlled_by service.metadata distcc.metadata ≡ true
      → sync distcc s ≡ ((false, none), record s { world = later (later s.world) })
  downscale_window_held distcc s deploy service current desired window last has ours wants
        at_most_now enough windowed scaled_at early there owned =
      sync_settled distcc s deploy service desired has ours wants
        (held_back (cluster.now (later s.world)).0 distcc deploy current desired window last
          at_most_now enough windowed scaled_at early)
        there owned

  -- When scaling is needed and the API server accepts it, and the service is in place, a Sync updates
  -- the deployment to the desired replicas and then the Distcc, with the time of both status fields
  -- cut to whole seconds; it reports the change, and the error of the second update if there is one.
  pub sync_scales :
      (distcc : Distcc) (s : Run W) (deploy answer : Deployment) (service : Service) (desired : ℤ)
      → HasDeployment distcc s.world deploy
      → lib.is_controlled_by deploy.metadata distcc.metadata ≡ true
      → (desired_replicas distcc s).0 ≡ ok desired
      → need_scale (cluster.now (later s.world)).0 distcc deploy desired ≡ true
      → (cluster.update_deployment (new_deployment distcc (some desired)) (later (later s.world))).0
        ≡ ok answer
      → HasService distcc (scaling distcc desired s).world service
      → lib.is_controlled_by service.metadata distcc.metadata ≡ true
      → sync distcc s
        ≡ ((true, error_of (recording distcc desired s).0), (recording distcc desired s).1)
  unfolding sync recording
  sync_scales distcc s deploy answer service desired has ours wants need done there owned =
      rw (sync_deployment-scaled distcc s deploy answer desired has ours wants need done) (
        rw (sync_service-present distcc (scaling distcc desired s) service there owned)
          (simp lib.rfc3339_copy_lem))

  -- When the deployment has been scaled but the service cannot be read, for another reason than that
  -- it is missing, a Sync ends with a transient error and the Distcc is not updated: the time of the
  -- scaling is lost to the downscale window.
  pub scaling_unrecorded :
      (distcc : Distcc) (s : Run W) (deploy answer : Deployment) (desired : ℤ) (e : GoError)
      → HasDeployment distcc s.world deploy
      → lib.is_controlled_by deploy.metadata distcc.metadata ≡ true
      → (desired_replicas distcc s).0 ≡ ok desired
      → need_scale (cluster.now (later s.world)).0 distcc deploy desired ≡ true
      → (cluster.update_deployment (new_deployment distcc (some desired)) (later (later s.world))).0
        ≡ ok answer
      → distcc.spec.service_name ≢ ""
      → cluster.cached_service
          (scaling distcc desired s).world
          distcc.metadata.namespace
          distcc.spec.service_name
        ≡ err e
      → lib.is_not_found e ≡ false
      → sync distcc s ≡ ((true, some (transient_error e)), scaling distcc desired s)
  unfolding sync
  scaling_unrecorded distcc s deploy answer desired e has ours wants need done named broken other =
      rw (sync_deployment-scaled distcc s deploy answer desired has ours wants need done)
        (simp (str_eq_ne distcc.spec.service_name "" named, broken, other))
