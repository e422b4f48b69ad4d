-- ===== src/DeepCopy/Objects.antt =====
-- pkg/apis/k8cc.io/v1alpha1/zz_generated.deepcopy.go: `DeepCopyInto` of the resources.
use k8cc.Prelude.{ℕ, String, ◌≡◌, refl, Action, Option, none, some, List, []}
use k8cc.Kube.{ObjectMeta}
use k8cc.Types.{
  Distcc, DistccSpec, DistccStatus, DistccClaim, DistccClaimSpec, DistccClaimStatus, DistccClient,
  DistccClientSpec, DistccClientClaim, DistccClientClaimSpec, DistccClientClaimStatus, Secret,
}
use k8cc.DeepCopy.Memory.{Heap, Copyable}
use k8cc.DeepCopy.Pairs.{plain, both}
use k8cc.DeepCopy.Pointers.{struct}
use k8cc.DeepCopy.Raw.{
  RawDistccSpec, RawDistccStatus, RawDistcc, RawClaimStatus, RawClaim, RawClientSpec, RawClient,
  RawClientClaimSpec, RawClientClaimStatus, RawClientClaim, Cell, Foreign,
}
use k8cc.DeepCopy.Resources.{secrets_pointer, distcc_spec_copyable, client_spec_copyable}
use k8cc.DeepCopy.Statuses.{
  distcc_status_copyable, claim_status_copyable, client_claim_status_copyable,
}

-- A nil slice reads as an empty one.
abbrev pub elements : {V : Type 0} → Option (List V) → List V
elements none = []
elements (some items) = items

module _ {M P S U X : Type 0} (f : Foreign M P S U X) where
  unfoldable pub client_claim_spec_deep_copy_into :
      RawClientClaimSpec → Action (Heap (Cell M P S U X)) RawClientClaimSpec
  client_claim_spec_deep_copy_into given h =
      let (out_secrets, h1) = (secrets_pointer f).copy given.secrets h in
      (record given { secrets = out_secrets }, h1)

  abbrev pub client_claim_spec_value :
      ((String × String) × Option (List Secret)) → DistccClientClaimSpec
  client_claim_spec_value ((the_distcc_client_name, the_user_name), the_secrets) = record {
    distcc_client_name = the_distcc_client_name;
    user_name = the_user_name;
    secrets = elements the_secrets;
  }

  abbrev pub client_claim_spec_parts :
      Copyable
        (Cell M P S U X)
        ((String × String) × Option ℕ)
        ((String × String) × Option (List Secret))
  client_claim_spec_parts = (both (plain (Cell M P S U X) (String × String)) (secrets_pointer f))

  -- The fields as nested pairs.
  abbrev pub client_claim_spec_tuple : RawClientClaimSpec → ((String × String) × Option ℕ)
  client_claim_spec_tuple r = ((r.distcc_client_name, r.user_name), r.secrets)

  pub client_claim_spec_fields :
      (r : RawClientClaimSpec) (h : Heap (Cell M P S U X))
      → (
        client_claim_spec_tuple (client_claim_spec_deep_copy_into r h).0,
        (client_claim_spec_deep_copy_into r h).1,
      )
        ≡ client_claim_spec_parts.copy (client_claim_spec_tuple r) h
  unfolding client_claim_spec_deep_copy_into
  client_claim_spec_fields r h = refl

  abbrev pub client_claim_spec_copyable :
      Copyable (Cell M P S U X) RawClientClaimSpec DistccClientClaimSpec
  client_claim_spec_copyable =
      struct client_claim_spec_parts client_claim_spec_tuple client_claim_spec_value
        client_claim_spec_deep_copy_into client_claim_spec_fields

  unfoldable pub distcc_deep_copy_into :
      RawDistcc M P → Action (Heap (Cell M P S U X)) (RawDistcc M P)
  distcc_deep_copy_into given h =
      let (out_metadata, h1) = f.metas.copy given.metadata h in
      let (out_spec, h2) = (distcc_spec_copyable f).copy given.spec h1 in
      let (out_status, h3) = (distcc_status_copyable f).copy given.status h2 in
      (record given { metadata = out_metadata; spec = out_spec; status = out_status }, h3)

  abbrev pub distcc_value : (ObjectMeta × (DistccSpec × DistccStatus)) → Distcc
  distcc_value (the_metadata, (the_spec, the_status)) = record {
    metadata = the_metadata;
    spec = the_spec;
    status = the_status;
  }

  abbrev pub distcc_parts :
      Copyable
        (Cell M P S U X)
        (M × (RawDistccSpec P × RawDistccStatus))
        (ObjectMeta × (DistccSpec × DistccStatus))
  distcc_parts = (both f.metas (both (distcc_spec_copyable f) (distcc_status_copyable f)))

  -- The fields as nested pairs.
  abbrev pub distcc_tuple : (RawDistcc M P) → (M × (RawDistccSpec P × RawDistccStatus))
  distcc_tuple r = (r.metadata, (r.spec, r.status))

  pub distcc_fields :
      (r : RawDistcc M P) (h : Heap (Cell M P S U X))
      → (distcc_tuple (distcc_deep_copy_into r h).0, (distcc_deep_copy_into r h).1)
        ≡ distcc_parts.copy (distcc_tuple r) h
  unfolding distcc_deep_copy_into
  distcc_fields r h = refl

  abbrev pub distcc_copyable : Copyable (Cell M P S U X) (RawDistcc M P) Distcc
  distcc_copyable =
      struct distcc_parts distcc_tuple distcc_value distcc_deep_copy_into distcc_fields

  unfoldable pub claim_deep_copy_into : RawClaim M → Action (Heap (Cell M P S U X)) (RawClaim M)
  claim_deep_copy_into given h =
      let (out_metadata, h1) = f.metas.copy given.metadata h in
      let (out_status, h2) = (claim_status_copyable f).copy given.status h1 in
      (record given { metadata = out_metadata; status = out_status }, h2)

  abbrev pub claim_value : (DistccClaimSpec × (ObjectMeta × DistccClaimStatus)) → DistccClaim
  claim_value (the_spec, (the_metadata, the_status)) = record {
    spec = the_spec;
    metadata = the_metadata;
    status = the_status;
  }

  abbrev pub claim_parts :
      Copyable
        (Cell M P S U X)
        (DistccClaimSpec × (M × RawClaimStatus))
        (DistccClaimSpec × (ObjectMeta × DistccClaimStatus))
  claim_parts =
      (both (plain (Cell M P S U X) DistccClaimSpec) (both f.metas (claim_status_copyable f)))

  -- The fields as nested pairs.
  abbrev pub claim_tuple : (RawClaim M) → (DistccClaimSpec × (M × RawClaimStatus))
  claim_tuple r = (r.spec, (r.metadata, r.status))

  pub claim_fields :
      (r : RawClaim M) (h : Heap (Cell M P S U X))
      → (claim_tuple (claim_deep_copy_into r h).0, (claim_deep_copy_into r h).1)
        ≡ claim_parts.copy (claim_tuple r) h
  unfolding claim_deep_copy_into
  claim_fields r h = refl

  abbrev pub claim_copyable : Copyable (Cell M P S U X) (RawClaim M) DistccClaim
  claim_copyable = struct claim_parts claim_tuple claim_value claim_deep_copy_into claim_fields

  unfoldable pub client_deep_copy_into :
      RawClient M P → Action (Heap (Cell M P S U X)) (RawClient M P)
  client_deep_copy_into given h =
      let (out_metadata, h1) = f.metas.copy given.metadata h in
      let (out_spec, h2) = (client_spec_copyable f).copy given.spec h1 in
      (record given { metadata = out_metadata; spec = out_spec }, h2)

  abbrev pub client_value : (ObjectMeta × DistccClientSpec) → DistccClient
  client_value (the_metadata, the_spec) = record { metadata = the_metadata; spec = the_spec }

  abbrev pub client_parts :
      Copyable (Cell M P S U X) (M × RawClientSpec P) (ObjectMeta × DistccClientSpec)
  client_parts = (both f.metas (client_spec_copyable f))

  -- The fields as nested pairs.
  abbrev pub client_tuple : (RawClient M P) → (M × RawClientSpec P)
  client_tuple r = (r.metadata, r.spec)

  pub client_fields :
      (r : RawClient M P) (h : Heap (Cell M P S U X))
      → (client_tuple (client_deep_copy_into r h).0, (client_deep_copy_into r h).1)
        ≡ client_parts.copy (client_tuple r) h
  unfolding client_deep_copy_into
  client_fields r h = refl

  abbrev pub client_copyable : Copyable (Cell M P S U X) (RawClient M P) DistccClient
  client_copyable =
      struct client_parts client_tuple client_value client_deep_copy_into client_fields

  unfoldable pub client_claim_deep_copy_into :
      RawClientClaim M → Action (Heap (Cell M P S U X)) (RawClientClaim M)
  client_claim_deep_copy_into given h =
      let (out_metadata, h1) = f.metas.copy given.metadata h in
      let (out_spec, h2) = client_claim_spec_copyable.copy given.spec h1 in
      let (out_status, h3) = (client_claim_status_copyable f).copy given.status h2 in
      (record given { metadata = out_metadata; spec = out_spec; status = out_status }, h3)

  abbrev pub client_claim_value :
      (ObjectMeta × (DistccClientClaimSpec × DistccClientClaimStatus)) → DistccClientClaim
  client_claim_value (the_metadata, (the_spec, the_status)) = record {
    metadata = the_metadata;
    spec = the_spec;
    status = the_status;
  }

  abbrev pub client_claim_parts :
      Copyable
        (Cell M P S U X)
        (M × (RawClientClaimSpec × RawClientClaimStatus))
        (ObjectMeta × (DistccClientClaimSpec × DistccClientClaimStatus))
  client_claim_parts =
      (both f.metas (both client_claim_spec_copyable (client_claim_status_copyable f)))

  -- The fields as nested pairs.
  abbrev pub client_claim_tuple :
      (RawClientClaim M) → (M × (RawClientClaimSpec × RawClientClaimStatus))
  client_claim_tuple r = (r.metadata, (r.spec, r.status))

  pub client_claim_fields :
      (r : RawClientClaim M) (h : Heap (Cell M P S U X))
      → (
        client_claim_tuple (client_claim_deep_copy_into r h).0,
        (client_claim_deep_copy_into r h).1,
      )
        ≡ client_claim_parts.copy (client_claim_tuple r) h
  unfolding client_claim_deep_copy_into
  client_claim_fields r h = refl

  abbrev pub client_claim_copyable : Copyable (Cell M P S U X) (RawClientClaim M) DistccClientClaim
  client_claim_copyable =
      struct client_claim_parts client_claim_tuple client_claim_value client_claim_deep_copy_into
        client_claim_fields
