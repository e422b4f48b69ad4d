-- ===== src/DeepCopy/Statuses.antt =====
-- pkg/apis/k8cc.io/v1alpha1/zz_generated.deepcopy.go: `DeepCopyInto` of the statuses.
use k8cc.Prelude.{ℕ, ◌≡◌, refl, Action, Option}
use k8cc.Clock.{Time}
use k8cc.Kube.{LocalObjectReference}
use k8cc.Types.{DistccStatus, DistccClaimStatus, DistccClientClaimStatus}
use k8cc.DeepCopy.Memory.{Heap, Copyable}
use k8cc.DeepCopy.Pairs.{both}
use k8cc.DeepCopy.Pointers.{struct}
use k8cc.DeepCopy.Raw.{RawDistccStatus, RawClaimStatus, RawClientClaimStatus, Cell, Foreign}
use k8cc.DeepCopy.Resources.{time_pointer, reference_pointer}

module _ {M P S U X : Type 0} (f : Foreign M P S U X) where
  unfoldable pub distcc_status_deep_copy_into :
      RawDistccStatus → Action (Heap (Cell M P S U X)) RawDistccStatus
  distcc_status_deep_copy_into given h =
      let (out_last_update_time, h1) = (time_pointer f).copy given.last_update_time h in
      let (out_last_scale_time, h2) = (time_pointer f).copy given.last_scale_time h1 in
      (
        record given {
          last_update_time = out_last_update_time;
          last_scale_time = out_last_scale_time;
        },
        h2,
      )

  abbrev pub distcc_status_value : (Option Time × Option Time) → DistccStatus
  distcc_status_value (the_last_update_time, the_last_scale_time) = record {
    last_update_time = the_last_update_time;
    last_scale_time = the_last_scale_time;
  }

  abbrev pub distcc_status_parts :
      Copyable (Cell M P S U X) (Option ℕ × Option ℕ) (Option Time × Option Time)
  distcc_status_parts = (both (time_pointer f) (time_pointer f))

  -- The fields as nested pairs.
  abbrev pub distcc_status_tuple : RawDistccStatus → (Option ℕ × Option ℕ)
  distcc_status_tuple r = (r.last_update_time, r.last_scale_time)

  pub distcc_status_fields :
      (r : RawDistccStatus) (h : Heap (Cell M P S U X))
      → (
        distcc_status_tuple (distcc_status_deep_copy_into r h).0,
        (distcc_status_deep_copy_into r h).1,
      )
        ≡ distcc_status_parts.copy (distcc_status_tuple r) h
  unfolding distcc_status_deep_copy_into
  distcc_status_fields r h = refl

  abbrev pub distcc_status_copyable : Copyable (Cell M P S U X) RawDistccStatus DistccStatus
  distcc_status_copyable =
      struct distcc_status_parts distcc_status_tuple distcc_status_value
        distcc_status_deep_copy_into distcc_status_fields

  unfoldable pub claim_status_deep_copy_into :
      RawClaimStatus → Action (Heap (Cell M P S U X)) RawClaimStatus
  claim_status_deep_copy_into given h =
      let (out_expiration_time, h1) = (time_pointer f).copy given.expiration_time h in
      (record given { expiration_time = out_expiration_time }, h1)

  abbrev pub claim_status_value : Option Time → DistccClaimStatus
  claim_status_value the_expiration_time = record { expiration_time = the_expiration_time }

  abbrev pub claim_status_parts : Copyable (Cell M P S U X) (Option ℕ) (Option Time)
  claim_status_parts = (time_pointer f)

  -- The fields as nested pairs.
  abbrev pub claim_status_tuple : RawClaimStatus → Option ℕ
  claim_status_tuple r = r.expiration_time

  pub claim_status_fields :
      (r : RawClaimStatus) (h : Heap (Cell M P S U X))
      → (
        claim_status_tuple (claim_status_deep_copy_into r h).0,
        (claim_status_deep_copy_into r h).1,
      )
        ≡ claim_status_parts.copy (claim_status_tuple r) h
  unfolding claim_status_deep_copy_into
  claim_status_fields r h = refl

  abbrev pub claim_status_copyable : Copyable (Cell M P S U X) RawClaimStatus DistccClaimStatus
  claim_status_copyable =
      struct claim_status_parts claim_status_tuple claim_status_value claim_status_deep_copy_into
        claim_status_fields

  unfoldable pub client_claim_status_deep_copy_into :
      RawClientClaimStatus → Action (Heap (Cell M P S U X)) RawClientClaimStatus
  client_claim_status_deep_copy_into given h =
      let (out_expiration_time, h1) = (time_pointer f).copy given.expiration_time h in
      let (out_deployment, h2) = (reference_pointer f).copy given.deployment h1 in
      let (out_service, h3) = (reference_pointer f).copy given.service h2 in
      (
        record given {
          expiration_time = out_expiration_time;
          deployment = out_deployment;
          service = out_service;
        },
        h3,
      )

  abbrev pub client_claim_status_value :
      (Option Time × (Option LocalObjectReference × Option LocalObjectReference))
      → DistccClientClaimStatus
  client_claim_status_value (the_expiration_time, (the_deployment, the_service)) = record {
    expiration_time = the_expiration_time;
    deployment = the_deployment;
    service = the_service;
  }

  abbrev pub client_claim_status_parts :
      Copyable
        (Cell M P S U X)
        (Option ℕ × (Option ℕ × Option ℕ))
        (Option Time × (Option LocalObjectReference × Option LocalObjectReference))
  client_claim_status_parts =
      (both (time_pointer f) (both (reference_pointer f) (reference_pointer f)))

  -- The fields as nested pairs.
  abbrev pub client_claim_status_tuple : RawClientClaimStatus → (Option ℕ × (Option ℕ × Option ℕ))
  client_claim_status_tuple r = (r.expiration_time, (r.deployment, r.service))

  pub client_claim_status_fields :
      (r : RawClientClaimStatus) (h : Heap (Cell M P S U X))
      → (
        client_claim_status_tuple (client_claim_status_deep_copy_into r h).0,
        (client_claim_status_deep_copy_into r h).1,
      )
        ≡ client_claim_status_parts.copy (client_claim_status_tuple r) h
  unfolding client_claim_status_deep_copy_into
  client_claim_status_fields r h = refl

  abbrev pub client_claim_status_copyable :
      Copyable (Cell M P S U X) RawClientClaimStatus DistccClientClaimStatus
  client_claim_status_copyable =
      struct client_claim_status_parts client_claim_status_tuple client_claim_status_value
        client_claim_status_deep_copy_into client_claim_status_fields
