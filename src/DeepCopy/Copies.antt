-- ===== src/DeepCopy/Copies.antt =====
-- pkg/apis/k8cc.io/v1alpha1/zz_generated.deepcopy.go: `DeepCopy`, which copies what a pointer points to.
use k8cc.Prelude.{ℕ, refl, Action, Option}
use k8cc.Types.{
  Distcc, DistccSpec, DistccStatus, DistccClaim, DistccClaimSpec, DistccClaimStatus, DistccClient,
  DistccClientSpec, DistccClientClaim, DistccClientClaimSpec, DistccClientClaimStatus, Secret,
}
use k8cc.DeepCopy.Memory.{Heap, Copyable}
use k8cc.DeepCopy.Pairs.{plain}
use k8cc.DeepCopy.Pointers.{copy_pointer, pointer}
use k8cc.DeepCopy.Raw.{
  Cell, Foreign, secret, distcc_spec, distcc_status, distcc, claim_spec, claim_status, claim,
  client_spec, client, client_claim_spec, client_claim_status, client_claim,
}
use k8cc.DeepCopy.Loads.{
  zero_status, zero_claim_spec, zero_claim_status, zero_client_claim_spec, zero_client_claim_status,
  zero_spec, zero_distcc, zero_claim, zero_client_spec, zero_client, zero_secret, zero_client_claim,
  load_secret, load_distcc_spec, load_distcc_status, load_distcc, load_claim_spec,
  load_claim_status, load_claim, load_client_spec, load_client, load_client_claim_spec,
  load_client_claim_status, load_client_claim,
}
use k8cc.DeepCopy.Resources.{distcc_spec_copyable, client_spec_copyable, secret_copyable}
use k8cc.DeepCopy.Statuses.{
  distcc_status_copyable, claim_status_copyable, client_claim_status_copyable,
}
use k8cc.DeepCopy.Objects.{
  client_claim_spec_copyable, distcc_copyable, claim_copyable, client_copyable,
  client_claim_copyable,
}

module _ {M P S U X : Type 0} (f : Foreign M P S U X) where
  abbrev pub claim_spec_pointer : Copyable (Cell M P S U X) (Option ℕ) (Option DistccClaimSpec)
  claim_spec_pointer =
      pointer (plain (Cell M P S U X) DistccClaimSpec) claim_spec (load_claim_spec f)
        zero_claim_spec (λ x. refl)

  unfoldable pub claim_spec_deep_copy : Option ℕ → Action (Heap (Cell M P S U X)) (Option ℕ)
  unfolding copy_pointer
  claim_spec_deep_copy given h = claim_spec_pointer.copy given h

  abbrev pub claim_status_pointer : Copyable (Cell M P S U X) (Option ℕ) (Option DistccClaimStatus)
  claim_status_pointer =
      pointer (claim_status_copyable f) claim_status (load_claim_status f) zero_claim_status
        (λ x. refl)

  unfoldable pub claim_status_deep_copy : Option ℕ → Action (Heap (Cell M P S U X)) (Option ℕ)
  unfolding copy_pointer
  claim_status_deep_copy given h = claim_status_pointer.copy given h

  abbrev pub client_spec_pointer : Copyable (Cell M P S U X) (Option ℕ) (Option DistccClientSpec)
  client_spec_pointer =
      pointer (client_spec_copyable f) client_spec (load_client_spec f) (zero_client_spec f)
        (λ x. refl)

  unfoldable pub client_spec_deep_copy : Option ℕ → Action (Heap (Cell M P S U X)) (Option ℕ)
  unfolding copy_pointer
  client_spec_deep_copy given h = client_spec_pointer.copy given h

  abbrev pub client_claim_spec_pointer :
      Copyable (Cell M P S U X) (Option ℕ) (Option DistccClientClaimSpec)
  client_claim_spec_pointer =
      pointer (client_claim_spec_copyable f) client_claim_spec (load_client_claim_spec f)
        zero_client_claim_spec (λ x. refl)

  unfoldable pub client_claim_spec_deep_copy : Option ℕ → Action (Heap (Cell M P S U X)) (Option ℕ)
  unfolding copy_pointer
  client_claim_spec_deep_copy given h = client_claim_spec_pointer.copy given h

  abbrev pub client_claim_status_pointer :
      Copyable (Cell M P S U X) (Option ℕ) (Option DistccClientClaimStatus)
  client_claim_status_pointer =
      pointer (client_claim_status_copyable f) client_claim_status (load_client_claim_status f)
        zero_client_claim_status (λ x. refl)

  unfoldable pub client_claim_status_deep_copy :
      Option ℕ → Action (Heap (Cell M P S U X)) (Option ℕ)
  unfolding copy_pointer
  client_claim_status_deep_copy given h = client_claim_status_pointer.copy given h

  abbrev pub distcc_spec_pointer : Copyable (Cell M P S U X) (Option ℕ) (Option DistccSpec)
  distcc_spec_pointer =
      pointer (distcc_spec_copyable f) distcc_spec (load_distcc_spec f) (zero_spec f) (λ x. refl)

  unfoldable pub distcc_spec_deep_copy : Option ℕ → Action (Heap (Cell M P S U X)) (Option ℕ)
  unfolding copy_pointer
  distcc_spec_deep_copy given h = distcc_spec_pointer.copy given h

  abbrev pub distcc_status_pointer : Copyable (Cell M P S U X) (Option ℕ) (Option DistccStatus)
  distcc_status_pointer =
      pointer (distcc_status_copyable f) distcc_status (load_distcc_status f) zero_status
        (λ x. refl)

  unfoldable pub distcc_status_deep_copy : Option ℕ → Action (Heap (Cell M P S U X)) (Option ℕ)
  unfolding copy_pointer
  distcc_status_deep_copy given h = distcc_status_pointer.copy given h

  abbrev pub secret_pointer : Copyable (Cell M P S U X) (Option ℕ) (Option Secret)
  secret_pointer = pointer (secret_copyable f) secret (load_secret f) (zero_secret f) (λ x. refl)

  unfoldable pub secret_deep_copy : Option ℕ → Action (Heap (Cell M P S U X)) (Option ℕ)
  unfolding copy_pointer
  secret_deep_copy given h = secret_pointer.copy given h

  abbrev pub distcc_pointer : Copyable (Cell M P S U X) (Option ℕ) (Option Distcc)
  distcc_pointer = pointer (distcc_copyable f) distcc (load_distcc f) (zero_distcc f) (λ x. refl)

  unfoldable pub distcc_deep_copy : Option ℕ → Action (Heap (Cell M P S U X)) (Option ℕ)
  unfolding copy_pointer
  distcc_deep_copy given h = distcc_pointer.copy given h

  abbrev pub claim_pointer : Copyable (Cell M P S U X) (Option ℕ) (Option DistccClaim)
  claim_pointer = pointer (claim_copyable f) claim (load_claim f) (zero_claim f) (λ x. refl)

  unfoldable pub claim_deep_copy : Option ℕ → Action (Heap (Cell M P S U X)) (Option ℕ)
  unfolding copy_pointer
  claim_deep_copy given h = claim_pointer.copy given h

  abbrev pub client_pointer : Copyable (Cell M P S U X) (Option ℕ) (Option DistccClient)
  client_pointer = pointer (client_copyable f) client (load_client f) (zero_client f) (λ x. refl)

  unfoldable pub client_deep_copy : Option ℕ → Action (Heap (Cell M P S U X)) (Option ℕ)
  unfolding copy_pointer
  client_deep_copy given h = client_pointer.copy given h

  abbrev pub client_claim_pointer : Copyable (Cell M P S U X) (Option ℕ) (Option DistccClientClaim)
  client_claim_pointer =
      pointer (client_claim_copyable f) client_claim (load_client_claim f) (zero_client_claim f)
        (λ x. refl)

  unfoldable pub client_claim_deep_copy : Option ℕ → Action (Heap (Cell M P S U X)) (Option ℕ)
  unfolding copy_pointer
  client_claim_deep_copy given h = client_claim_pointer.copy given h
