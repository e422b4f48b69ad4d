-- ===== src/Distcc.antt =====
-- pkg/controller/distcc/distcc_controller.go: the controller of Distcc objects. `Replicas` has the
-- number of replicas and the decision to scale, `Objects` the objects that the controller creates,
-- this file `Sync` and its phases. A Go function that returns (value, error) returns the pair of
-- both here, since the value counts also beside an error.
pub mod Replicas
pub mod Objects
pub mod Bounds
pub mod Scaling
pub mod Ownership
pub mod Reconcile
pub mod Convergence
pub mod Hooks
mod Tests
use k8cc.Prelude.{Action, String, Bool, true, false, Option, none, some, ◌||◌, if◌then◌else◌}
use k8cc.Prelude.Int.{ℤ}
use k8cc.Prelude.Text.{◌<>◌, str_eq}
use k8cc.Clock.{Time, add}
use k8cc.GoError.{
  GoError, message, wrapped, transient_error, eventful_error, Result, ok, err, error_of,
}
use k8cc.Errors.{transient_or_nil}
use k8cc.Kube.{Deployment, Service, Selector}
use k8cc.Types.{Distcc}
use k8cc.Library.{Library}
use k8cc.Conv.{to_kube_time}
use k8cc.Cluster.{
  Cluster, Run, read, write, created_deployment, updated_deployment, created_service,
  updated_distcc,
}
use Replicas.{replicas_for, need_scale}
use Objects.{new_deployment, new_service}

-- distccUpdateState
pub record UpdateState : Type 0 where
  pub stateful_created : Bool
  pub stateful_scaled : Bool
  pub service_created : Bool

abbrev pub no_update : UpdateState
no_update = record { stateful_created = false; stateful_scaled = false; service_created = false }

unfoldable pub any : UpdateState → Bool
any d = d.stateful_created || (d.stateful_scaled || d.service_created)

-- The answer to the Update of the replicas.
unfoldable pub scaled : UpdateState → Result Deployment → UpdateState × Option GoError
scaled state (err e) = (state, some (transient_error e))
scaled state (ok _) = (record state { stateful_scaled = true }, none)

-- The errors with an event, of reasons ErrDeployNotSpecified and ErrResourceExists.
unfoldable pub warning : String → String → GoError
warning reason msg =
    eventful_error (message msg) (record { type = "Warning"; reason = reason; message = msg })

abbrev pub deploy_not_specified : GoError
deploy_not_specified = warning "ErrDeployNotSpecified" "spec.deploymentName name must be specified"

module _ ⦃lib : Library⦄ where
  -- MessageResourceExists
  abbrev pub resource_exists : String → GoError
  resource_exists name =
      warning "ErrResourceExists"
        ("Resource " <> (lib.quoted name <> " already exists and is not managed by Distcc"))

  unfoldable pub check_service : Distcc → Result Service × Bool → Bool × Option GoError
  check_service distcc (err e, created) = (created, some (transient_error e))
  check_service distcc (ok service, created) =
      if lib.is_controlled_by service.metadata distcc.metadata
      then (created, none)
      else (created, some (resource_exists service.metadata.name))

-- The times of the status are whole seconds (conv.ToKubeTime).
unfoldable pub with_times : Distcc → UpdateState → Time → Distcc
with_times distcc updated now = record distcc {
  status = record {
    last_update_time = some now;
    last_scale_time = if updated.stateful_scaled then some now else distcc.status.last_scale_time;
  };
}

module _ ⦃lib : Library⦄ {W : Type 0} ⦃cluster : Cluster W⦄ where
  -- Create, if Get does not find the deployment; beside it, whether Create was called.
  unfoldable pub or_create_deployment :
      Distcc → Result Deployment → Action (Run W) (Result Deployment × Bool)
  or_create_deployment distcc (ok deploy) s = ((ok deploy, false), s)
  or_create_deployment distcc (err e) s =
      let new = new_deployment distcc none in
      let (r, t) = write (created_deployment new) (cluster.create_deployment new) s in
      if lib.is_not_found e then ((r, true), t) else ((err e, false), s)

  unfoldable pub get_or_create_deployment : Distcc → Action (Run W) (Result Deployment × Bool)
  unfolding or_create_deployment
  get_or_create_deployment distcc s =
      or_create_deployment distcc
        (cluster.cached_deployment s.world distcc.metadata.namespace distcc.spec.deployment_name) s

  unfoldable pub or_create_service :
      Distcc → Result Service → Action (Run W) (Result Service × Bool)
  or_create_service distcc (ok service) s = ((ok service, false), s)
  or_create_service distcc (err e) s =
      let new = new_service distcc in
      let (r, t) = write (created_service new) (cluster.create_service new) s in
      if lib.is_not_found e then ((r, true), t) else ((err e, false), s)

  unfoldable pub get_or_create_service : Distcc → Action (Run W) (Result Service × Bool)
  unfolding or_create_service
  get_or_create_service distcc s =
      or_create_service distcc
        (cluster.cached_service s.world distcc.metadata.namespace distcc.spec.service_name) s

  -- `desiredReplicas` behind the clock: the claims are listed with the selector of the Distcc, if
  -- that is a valid one.
  unfoldable pub replicas_with : Distcc → Time → W → Result Selector → Result ℤ
  replicas_with distcc now w (err e) = err e
  replicas_with distcc now w (ok selector) =
      elim (cluster.cached_claims w distcc.metadata.namespace selector) [
        | err e ↦ err (transient_error e)
        | ok claims ↦ ok (replicas_for distcc.spec (add now distcc.spec.lease_duration) claims)
      ]

  unfoldable pub desired_replicas : Distcc → Action (Run W) (Result ℤ)
  unfolding replicas_with
  desired_replicas distcc s =
      let (now, t) = read cluster.now s in
      (replicas_with distcc now t.world (lib.label_selector_as_selector distcc.spec.selector), t)

  -- The end of `syncDeployment`: scale, if there is need.
  unfoldable pub scale :
      Distcc → Deployment → UpdateState → Result ℤ → Action (Run W) (UpdateState × Option GoError)
  unfolding scaled
  scale distcc deploy state (err e) s =
      ((state, some (wrapped e "cannot determine desired replicas for distcc")), s)
  scale distcc deploy state (ok desired) s =
      let (now, t) = read cluster.now s in
      let new = new_deployment distcc (some desired) in
      let (r, u) = write (updated_deployment new) (cluster.update_deployment new) t in
      if need_scale now distcc deploy desired then (scaled state r, u) else ((state, none), t)

  -- The deployment is there: it must be ours before it is scaled.
  unfoldable pub check_deployment :
      Distcc → Result Deployment × Bool → Action (Run W) (UpdateState × Option GoError)
  unfolding desired_replicas scale
  check_deployment distcc (err e, created) s =
      ((record no_update { stateful_created = created }, some (transient_error e)), s)
  check_deployment distcc (ok deploy, created) s =
      let state : UpdateState = record no_update { stateful_created = created } in
      let (desired, t) = desired_replicas distcc s in
      if lib.is_controlled_by deploy.metadata distcc.metadata
      then scale distcc deploy state desired t
      else ((state, some (resource_exists deploy.metadata.name)), s)

  unfoldable pub sync_deployment : Distcc → Action (Run W) (UpdateState × Option GoError)
  unfolding get_or_create_deployment check_deployment
  sync_deployment distcc s =
      let (r, t) = get_or_create_deployment distcc s in
      if str_eq distcc.spec.deployment_name ""
      then ((no_update, some deploy_not_specified), s)
      else check_deployment distcc r t

  unfoldable pub sync_service : Distcc → Action (Run W) (Bool × Option GoError)
  unfolding get_or_create_service check_service
  sync_service distcc s =
      let (r, t) = get_or_create_service distcc s in
      if str_eq distcc.spec.service_name ""
      then ((false, some (message "spec.ServiceName must be specified")), s)
      else (check_service distcc r, t)

  unfoldable pub update_distcc_status : Distcc → UpdateState → Action (Run W) (Option GoError)
  unfolding any with_times to_kube_time
  update_distcc_status distcc updated s =
      let (now, t) = read cluster.now s in
      let copy = with_times distcc updated (to_kube_time now) in
      let (r, u) = write (updated_distcc copy) (cluster.update_distcc copy) t in
      if any updated then (error_of r, u) else (none, s)

  unfoldable pub after_service :
      Distcc → UpdateState → Bool × Option GoError → Action (Run W) (Bool × Option GoError)
  unfolding any update_distcc_status
  after_service distcc state (created, some e) s =
      ((any (record state { service_created = created }), some e), s)
  after_service distcc state (created, none) s =
      let update = record state { service_created = created } in
      let (e, t) = update_distcc_status distcc update s in ((any update, e), t)

  unfoldable pub after_deployment :
      Distcc → UpdateState × Option GoError → Action (Run W) (Bool × Option GoError)
  unfolding any sync_service after_service
  after_deployment distcc (state, some e) s = ((any state, some e), s)
  after_deployment distcc (state, none) s =
      let (r, t) = sync_service distcc s in after_service distcc state r t

  -- Sync(distcc): whether something changed, and the error.
  unfoldable pub sync : Distcc → Action (Run W) (Bool × Option GoError)
  unfolding sync_deployment after_deployment
  sync distcc s = let (r, t) = sync_deployment distcc s in after_deployment distcc r t
