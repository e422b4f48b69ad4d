-- ===== src/Claim.antt =====
-- pkg/controller/distccclaim/distccclaim_controller.go: the controller of DistccClaim objects, which
-- sets the expiration of a claim, cuts it to the lease of the Distcc, and deletes expired claims.
pub mod Ownership
pub mod Refusals
pub mod Outcomes
pub mod Hooks
mod Tests
use k8cc.Prelude.{Action, String, Bool, true, false, Option, none, some, if◌then◌else◌}
use k8cc.Prelude.Text.{◌<>◌, str_eq}
use k8cc.Clock.{Time, add}
use k8cc.GoError.{GoError, message, eventful_error, Result, ok, err, error_of}
use k8cc.Errors.{transient_or_nil}
use k8cc.Types.{Distcc, DistccClaim}
use k8cc.Library.{Library}
use k8cc.Lease.{renew, is_expired}
use k8cc.Cluster.{Cluster, Run, read, write, deleted_claim, updated_claim}

-- The errors with an event of reason ErrDistccNotFound.
unfoldable pub warning : String → GoError
warning msg =
    eventful_error (message msg)
      (record { type = "Warning"; reason = "ErrDistccNotFound"; message = msg })

abbrev pub distcc_not_specified : GoError
distcc_not_specified = warning "spec.distccName name must be specified"

abbrev pub distcc_not_present : String → GoError
distcc_not_present name = warning ("referenced Distcc " <> (name <> " not present yet"))

abbrev pub labels_mismatch : String → GoError
labels_mismatch name =
    warning ("metadata.Labels cannot be matched by the referenced Distcc " <> name)

-- The copy of the claim with its expiration set.
unfoldable pub with_expiration : DistccClaim → Time → DistccClaim
with_expiration claim expiration = record claim {
  status = record { expiration_time = some expiration };
}

module _ ⦃lib : Library⦄ {W : Type 0} ⦃cluster : Cluster W⦄ where
  -- updateExpiration: the claim, whose expiration is the second part, and whether it changed.
  unfoldable pub update_expiration : DistccClaim → Distcc → Action (Run W) (Time × Bool)
  unfolding renew
  update_expiration claim distcc s =
      let (now, t) = read cluster.now s in
      (renew (add now distcc.spec.lease_duration) claim.status.expiration_time, t)

  -- The end of `Sync`: the claim is deleted, updated or left.
  unfoldable pub settle : DistccClaim → Time × Bool → Action (Run W) (Bool × Option GoError)
  unfolding with_expiration is_expired transient_or_nil
  settle claim (expiration, changed) s =
      let (now, t) = read cluster.now s in
      let (gone, u) =
        write (deleted_claim claim.metadata.namespace claim.metadata.name)
          (cluster.delete_claim claim.metadata.namespace claim.metadata.name) t in
      let copy = with_expiration claim expiration in
      let (kept, v) = write (updated_claim copy) (cluster.update_claim copy) t in
      if is_expired now expiration
      then ((false, transient_or_nil gone), u)
      else if changed
      then ((true, transient_or_nil (error_of kept)), v)
      else ((false, none), t)

  unfoldable pub sync_with : DistccClaim → Result Distcc → Action (Run W) (Bool × Option GoError)
  unfolding update_expiration settle
  sync_with claim (err e) s = ((false, some (distcc_not_present claim.spec.distcc_name)), s)
  sync_with claim (ok distcc) s =
      let (r, t) = update_expiration claim distcc s in
      if lib.as_selector distcc.metadata.labels claim.metadata.labels
      then settle claim r t
      else ((false, some (labels_mismatch claim.spec.distcc_name)), s)

  -- Sync(claim): whether the claim was updated, and the error.
  unfoldable pub sync : DistccClaim → Action (Run W) (Bool × Option GoError)
  unfolding sync_with
  sync claim s =
      if str_eq claim.spec.distcc_name ""
      then ((false, some distcc_not_specified), s)
      else sync_with claim
          (cluster.cached_distcc s.world claim.metadata.namespace claim.spec.distcc_name) s
