-- ===== src/ClientClaim.antt =====
-- pkg/controller/distccclientclaim/distccclientclaim_controller.go: the controller of
-- DistccClientClaim objects, which gives each claim a deployment and a service of its own. `Labels`
-- and `Objects` have what it creates, this file `Sync`. The claim is a copy that Sync changes as it
-- goes, so the phases return it.
pub mod Labels
pub mod Objects
pub mod Ownership
pub mod Outcomes
pub mod Serving
pub mod Hooks
pub mod Users
pub mod Volumes
mod Tests
use k8cc.Prelude.{Action, String, Bool, true, false, not, Option, none, some, ◌||◌, if◌then◌else◌}
use k8cc.Prelude.Text.{◌<>◌, str_eq}
use k8cc.Clock.{Time, add}
use k8cc.GoError.{GoError, message, transient_error, eventful_error, Result, ok, err, error_of}
use k8cc.Errors.{transient_or_nil, is_ambiguous_reference}
use k8cc.Kube.{Deployment, Service, LocalObjectReference, Selector}
use k8cc.Types.{DistccClient, DistccClientClaim}
use k8cc.Library.{Library}
use k8cc.Cluster.{
  Cluster, Run, read, write, created_deployment, created_service, deleted_client_claim,
  updated_client_claim,
}
use k8cc.Lease.{renew, is_expired}
use k8cc.Refs.{get_object_from_reference_or_selector, deployment_lister, service_lister}
use Labels.{get_labels_for_user}
use Objects.{new_deploy, new_service}

-- componentsChange
pub record ComponentsChange : Type 0 where
  pub deploy : Bool
  pub expiration : Bool
  pub service : Bool

unfoldable pub any : ComponentsChange → Bool
any d = d.deploy || (d.expiration || d.service)

unfoldable pub warning : String → String → GoError
warning reason msg =
    eventful_error (message msg) (record { type = "Warning"; reason = reason; message = msg })

abbrev pub client_not_specified : GoError
client_not_specified = warning "ErrClientNotSpecified" "spec.distccClientName must be specified"

abbrev pub client_ref_invalid : GoError
client_ref_invalid =
    warning "ErrClientRefInvalid" "spec.distccClientName points to a non existing object"

-- The reference to an object of this name, and whether it changed; an object without a name has none.
unfoldable pub link : String → Option LocalObjectReference → Option LocalObjectReference × Bool
link name none = if str_eq name "" then (none, false) else (some (record { name = name }), true)
link name (some ref) =
    if str_eq name ""
    then (none, true)
    else if str_eq ref.name name
    then (some ref, false)
    else (some (record { name = name }), true)

abbrev pub with_expiration : DistccClientClaim → Time → DistccClientClaim
with_expiration claim t = record claim { status = record claim.status { expiration_time = some t } }

abbrev pub with_deployment : DistccClientClaim → Option LocalObjectReference → DistccClientClaim
with_deployment claim ref = record claim { status = record claim.status { deployment = ref } }

abbrev pub with_service : DistccClientClaim → Option LocalObjectReference → DistccClientClaim
with_service claim ref = record claim { status = record claim.status { service = ref } }

-- The claim as a phase leaves it, whether it changed, and the error.
abbrev pub Phase : Type 0
Phase = DistccClientClaim × Bool × Option GoError

module _ ⦃lib : Library⦄ where
  abbrev pub resource_exists : String → GoError
  resource_exists name = warning "ErrResourceExists" (
      "Resource " <> (lib.quoted name <> " already exists and is not managed by DistccClientClaim"))

  -- An ambiguous reference becomes a warning; other errors stay.
  unfoldable pub resolution_error : String → GoError → GoError
  unfolding warning
  resolution_error kind e =
      if is_ambiguous_reference e
      then warning "ErrAmbiguousMatch" (kind <> (" ref resolution failed: " <> lib.error_text e))
      else e

  unfoldable pub check_deploy : DistccClientClaim → Result Deployment → Phase
  unfolding link
  check_deploy claim (err e) = (claim, false, some (transient_error e))
  check_deploy claim (ok deploy) =
      let (ref, updated) = link deploy.metadata.name claim.status.deployment in
      if lib.is_controlled_by deploy.metadata claim.metadata
      then (with_deployment claim ref, updated, none)
      else (claim, false, some (resource_exists deploy.metadata.name))

  unfoldable pub check_service : DistccClientClaim → Result Service → Phase
  unfolding link
  check_service claim (err e) = (claim, false, some (transient_error e))
  check_service claim (ok service) =
      let (ref, updated) = link service.metadata.name claim.status.service in
      if lib.is_controlled_by service.metadata claim.metadata
      then (with_service claim ref, updated, none)
      else (claim, false, some (resource_exists service.metadata.name))

  -- labels.Set(getLabelsForUser(...)).AsSelector()
  unfoldable pub user_selector : DistccClientClaim → DistccClient → Selector
  unfolding get_labels_for_user
  user_selector claim client =
      lib.as_selector (get_labels_for_user client.metadata.labels claim.spec.user_name)

module _ ⦃lib : Library⦄ {W : Type 0} ⦃cluster : Cluster W⦄ where
  unfoldable pub deploy_with :
      DistccClientClaim → DistccClient → Result (Option Deployment) → Action (Run W) Phase
  unfolding resolution_error check_deploy
  deploy_with claim client (err e) s = ((claim, false, some (resolution_error "Deployment" e)), s)
  deploy_with claim client (ok (some deploy)) s = (check_deploy claim (ok deploy), s)
  deploy_with claim client (ok none) s =
      let new = new_deploy claim client in
      let (r, t) = write (created_deployment new) (cluster.create_deployment new) s in
      (check_deploy claim r, t)

  unfoldable pub sync_deploy : DistccClientClaim → DistccClient → Action (Run W) Phase
  unfolding deploy_with user_selector
  sync_deploy claim client s =
      deploy_with claim client
        (get_object_from_reference_or_selector (deployment_lister s.world) claim.metadata.namespace
          claim.status.deployment (user_selector claim client))
        s

  unfoldable pub service_with :
      DistccClientClaim → DistccClient → Result (Option Service) → Action (Run W) Phase
  unfolding resolution_error check_service
  service_with claim client (err e) s = ((claim, false, some (resolution_error "Service" e)), s)
  service_with claim client (ok (some service)) s = (check_service claim (ok service), s)
  service_with claim client (ok none) s =
      let new = new_service claim client in
      let (r, t) = write (created_service new) (cluster.create_service new) s in
      (check_service claim r, t)

  unfoldable pub sync_service : DistccClientClaim → DistccClient → Action (Run W) Phase
  unfolding service_with user_selector
  sync_service claim client s =
      service_with claim client
        (get_object_from_reference_or_selector (service_lister s.world) claim.metadata.namespace
          claim.status.service (user_selector claim client))
        s

  -- The last part of `Sync`: the claim is updated, if anything changed.
  unfoldable pub after_service : ComponentsChange → Phase → Action (Run W) (Bool × Option GoError)
  unfolding any transient_or_nil
  after_service changed (claim, linked, some e) s =
      ((any (record changed { service = linked }), some e), s)
  after_service changed (claim, linked, none) s =
      let (r, t) = write (updated_client_claim claim) (cluster.update_client_claim claim) s in
      if any (record changed { service = linked })
      then ((true, transient_or_nil (error_of r)), t)
      else ((false, none), s)

  unfoldable pub after_deploy :
      DistccClient → ComponentsChange → Phase → Action (Run W) (Bool × Option GoError)
  unfolding any sync_service after_service
  after_deploy client changed (claim, linked, some e) s =
      ((any (record changed { deploy = linked }), some e), s)
  after_deploy client changed (claim, linked, none) s =
      let (r, t) = sync_service claim client s in
      after_service (record changed { deploy = linked }) r t

  -- The claim has an expiration: it is deleted, or its objects are synced.
  unfoldable pub settle :
      DistccClientClaim → DistccClient → Time × Bool → Action (Run W) (Bool × Option GoError)
  unfolding sync_deploy after_deploy is_expired transient_or_nil
  settle claim client (expiration, changed) s =
      let (now, t) = read cluster.now s in
      let (gone, u) =
        write (deleted_client_claim claim.metadata.namespace claim.metadata.name)
          (cluster.delete_client_claim claim.metadata.namespace claim.metadata.name) t in
      let (r, v) = sync_deploy (with_expiration claim expiration) client t in
      let rest =
        after_deploy client (record { deploy = false; expiration = changed; service = false }) r
          v in
      if is_expired now expiration then ((false, transient_or_nil gone), u) else rest

  unfoldable pub sync_with :
      DistccClientClaim → Result DistccClient → Action (Run W) (Bool × Option GoError)
  unfolding settle renew
  sync_with claim (err e) s =
      if lib.is_not_found e
      then ((false, some client_ref_invalid), s)
      else ((false, some (transient_error e)), s)
  sync_with claim (ok client) s =
      let (now, t) = read cluster.now s in
      settle claim client (renew (add now client.spec.lease_duration) claim.status.expiration_time)
        t

  -- Sync(claim)
  unfoldable pub sync : DistccClientClaim → Action (Run W) (Bool × Option GoError)
  unfolding sync_with
  sync claim s =
      if str_eq claim.spec.distcc_client_name ""
      then ((false, some client_not_specified), s)
      else sync_with claim
          (cluster.cached_client s.world claim.metadata.namespace claim.spec.distcc_client_name) s
