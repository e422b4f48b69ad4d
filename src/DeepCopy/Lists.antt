-- ===== src/DeepCopy/Lists.antt =====
-- pkg/apis/k8cc.io/v1alpha1/zz_generated.deepcopy.go: the lists, and the copies behind the
-- interface `runtime.Object`.
use k8cc.Prelude.{ℕ, ◌≡◌, refl, Action, Option, none, some, List, []}
use k8cc.Types.{Distcc, DistccClaim, DistccClient, DistccClientClaim}
use k8cc.DeepCopy.Memory.{Heap, Copyable}
use k8cc.DeepCopy.Pairs.{plain, both}
use k8cc.DeepCopy.Pointers.{copy_pointer, pointer, copy_each, each, struct}
use k8cc.DeepCopy.Raw.{
  ListMeta, RawList, ListOf, Cell, Foreign, distccs, claims, clients, client_claims, list_of,
}
use k8cc.DeepCopy.Loads.{
  zero_list, load_distccs, load_claims, load_clients, load_client_claims, load_list_of,
}
use k8cc.DeepCopy.Objects.{distcc_copyable, claim_copyable, client_copyable, client_claim_copyable}
use k8cc.DeepCopy.Copies.{
  distcc_deep_copy, claim_deep_copy, client_deep_copy, client_claim_deep_copy,
}

abbrev pub list_out : {V : Type 0} → ListMeta × Option (List V) → ListOf V
list_out (the_metadata, the_items) = record { metadata = the_metadata; items = the_items }

abbrev pub list_tuple : RawList → ListMeta × Option ℕ
list_tuple r = (r.metadata, r.items)

-- A value of the interface runtime.Object is nil, or a pointer of one of these types.
pub data ObjectPointer : Type 0 where
  distcc_object distcc_list_object : ℕ → ObjectPointer
  claim_object claim_list_object : ℕ → ObjectPointer
  client_object client_list_object : ℕ → ObjectPointer
  client_claim_object client_claim_list_object : ℕ → ObjectPointer

-- if c := in.DeepCopy(); c != nil { return c } else { return nil }
unfoldable pub as_object : (ℕ → ObjectPointer) → Option ℕ → Option ObjectPointer
as_object kind none = none
as_object kind (some c) = some (kind c)

module _ {M P S U X : Type 0} (f : Foreign M P S U X) where
  abbrev pub distccs_pointer : Copyable (Cell M P S U X) (Option ℕ) (Option (List Distcc))
  distccs_pointer = pointer (each (distcc_copyable f)) distccs (load_distccs f) [] (λ x. refl)

  unfoldable pub distcc_list_deep_copy_into : RawList → Action (Heap (Cell M P S U X)) RawList
  unfolding copy_each copy_pointer
  distcc_list_deep_copy_into given h =
      let (items, k) = distccs_pointer.copy given.items h in (record given { items = items }, k)

  pub distcc_list_fields :
      (r : RawList) (h : Heap (Cell M P S U X))
      → (list_tuple (distcc_list_deep_copy_into r h).0, (distcc_list_deep_copy_into r h).1)
        ≡ (both (plain (Cell M P S U X) ListMeta) distccs_pointer).copy (list_tuple r) h
  unfolding distcc_list_deep_copy_into
  distcc_list_fields r h = refl

  abbrev pub distcc_list_copyable : Copyable (Cell M P S U X) RawList (ListOf Distcc)
  distcc_list_copyable =
      struct (both (plain (Cell M P S U X) ListMeta) distccs_pointer) list_tuple list_out
        distcc_list_deep_copy_into distcc_list_fields

  abbrev pub distcc_list_pointer : Copyable (Cell M P S U X) (Option ℕ) (Option (ListOf Distcc))
  distcc_list_pointer = pointer distcc_list_copyable list_of (load_list_of f) zero_list (λ x. refl)

  unfoldable pub distcc_list_deep_copy : Option ℕ → Action (Heap (Cell M P S U X)) (Option ℕ)
  unfolding copy_pointer
  distcc_list_deep_copy given h = distcc_list_pointer.copy given h

  unfoldable pub distcc_deep_copy_object :
      Option ℕ → Action (Heap (Cell M P S U X)) (Option ObjectPointer)
  unfolding distcc_deep_copy as_object
  distcc_deep_copy_object given h =
      let (c, k) = distcc_deep_copy f given h in (as_object distcc_object c, k)

  unfoldable pub distcc_list_deep_copy_object :
      Option ℕ → Action (Heap (Cell M P S U X)) (Option ObjectPointer)
  unfolding distcc_list_deep_copy as_object
  distcc_list_deep_copy_object given h =
      let (c, k) = distcc_list_deep_copy given h in (as_object distcc_list_object c, k)

  abbrev pub claims_pointer : Copyable (Cell M P S U X) (Option ℕ) (Option (List DistccClaim))
  claims_pointer = pointer (each (claim_copyable f)) claims (load_claims f) [] (λ x. refl)

  unfoldable pub claim_list_deep_copy_into : RawList → Action (Heap (Cell M P S U X)) RawList
  unfolding copy_each copy_pointer
  claim_list_deep_copy_into given h =
      let (items, k) = claims_pointer.copy given.items h in (record given { items = items }, k)

  pub claim_list_fields :
      (r : RawList) (h : Heap (Cell M P S U X))
      → (list_tuple (claim_list_deep_copy_into r h).0, (claim_list_deep_copy_into r h).1)
        ≡ (both (plain (Cell M P S U X) ListMeta) claims_pointer).copy (list_tuple r) h
  unfolding claim_list_deep_copy_into
  claim_list_fields r h = refl

  abbrev pub claim_list_copyable : Copyable (Cell M P S U X) RawList (ListOf DistccClaim)
  claim_list_copyable =
      struct (both (plain (Cell M P S U X) ListMeta) claims_pointer) list_tuple list_out
        claim_list_deep_copy_into claim_list_fields

  abbrev pub claim_list_pointer : Copyable (Cell M P S U X) (Option ℕ) (Option (ListOf DistccClaim))
  claim_list_pointer = pointer claim_list_copyable list_of (load_list_of f) zero_list (λ x. refl)

  unfoldable pub claim_list_deep_copy : Option ℕ → Action (Heap (Cell M P S U X)) (Option ℕ)
  unfolding copy_pointer
  claim_list_deep_copy given h = claim_list_pointer.copy given h

  unfoldable pub claim_deep_copy_object :
      Option ℕ → Action (Heap (Cell M P S U X)) (Option ObjectPointer)
  unfolding claim_deep_copy as_object
  claim_deep_copy_object given h =
      let (c, k) = claim_deep_copy f given h in (as_object claim_object c, k)

  unfoldable pub claim_list_deep_copy_object :
      Option ℕ → Action (Heap (Cell M P S U X)) (Option ObjectPointer)
  unfolding claim_list_deep_copy as_object
  claim_list_deep_copy_object given h =
      let (c, k) = claim_list_deep_copy given h in (as_object claim_list_object c, k)

  abbrev pub clients_pointer : Copyable (Cell M P S U X) (Option ℕ) (Option (List DistccClient))
  clients_pointer = pointer (each (client_copyable f)) clients (load_clients f) [] (λ x. refl)

  unfoldable pub client_list_deep_copy_into : RawList → Action (Heap (Cell M P S U X)) RawList
  unfolding copy_each copy_pointer
  client_list_deep_copy_into given h =
      let (items, k) = clients_pointer.copy given.items h in (record given { items = items }, k)

  pub client_list_fields :
      (r : RawList) (h : Heap (Cell M P S U X))
      → (list_tuple (client_list_deep_copy_into r h).0, (client_list_deep_copy_into r h).1)
        ≡ (both (plain (Cell M P S U X) ListMeta) clients_pointer).copy (list_tuple r) h
  unfolding client_list_deep_copy_into
  client_list_fields r h = refl

  abbrev pub client_list_copyable : Copyable (Cell M P S U X) RawList (ListOf DistccClient)
  client_list_copyable =
      struct (both (plain (Cell M P S U X) ListMeta) clients_pointer) list_tuple list_out
        client_list_deep_copy_into client_list_fields

  abbrev pub client_list_pointer :
      Copyable (Cell M P S U X) (Option ℕ) (Option (ListOf DistccClient))
  client_list_pointer = pointer client_list_copyable list_of (load_list_of f) zero_list (λ x. refl)

  unfoldable pub client_list_deep_copy : Option ℕ → Action (Heap (Cell M P S U X)) (Option ℕ)
  unfolding copy_pointer
  client_list_deep_copy given h = client_list_pointer.copy given h

  unfoldable pub client_deep_copy_object :
      Option ℕ → Action (Heap (Cell M P S U X)) (Option ObjectPointer)
  unfolding client_deep_copy as_object
  client_deep_copy_object given h =
      let (c, k) = client_deep_copy f given h in (as_object client_object c, k)

  unfoldable pub client_list_deep_copy_object :
      Option ℕ → Action (Heap (Cell M P S U X)) (Option ObjectPointer)
  unfolding client_list_deep_copy as_object
  client_list_deep_copy_object given h =
      let (c, k) = client_list_deep_copy given h in (as_object client_list_object c, k)

  abbrev pub client_claims_pointer :
      Copyable (Cell M P S U X) (Option ℕ) (Option (List DistccClientClaim))
  client_claims_pointer =
      pointer (each (client_claim_copyable f)) client_claims (load_client_claims f) [] (λ x. refl)

  unfoldable pub client_claim_list_deep_copy_into : RawList → Action (Heap (Cell M P S U X)) RawList
  unfolding copy_each copy_pointer
  client_claim_list_deep_copy_into given h =
      let (items, k) = client_claims_pointer.copy given.items h in
      (record given { items = items }, k)

  pub client_claim_list_fields :
      (r : RawList) (h : Heap (Cell M P S U X))
      → (
        list_tuple (client_claim_list_deep_copy_into r h).0,
        (client_claim_list_deep_copy_into r h).1,
      )
        ≡ (both (plain (Cell M P S U X) ListMeta) client_claims_pointer).copy (list_tuple r) h
  unfolding client_claim_list_deep_copy_into
  client_claim_list_fields r h = refl

  abbrev pub client_claim_list_copyable :
      Copyable (Cell M P S U X) RawList (ListOf DistccClientClaim)
  client_claim_list_copyable =
      struct (both (plain (Cell M P S U X) ListMeta) client_claims_pointer) list_tuple list_out
        client_claim_list_deep_copy_into client_claim_list_fields

  abbrev pub client_claim_list_pointer :
      Copyable (Cell M P S U X) (Option ℕ) (Option (ListOf DistccClientClaim))
  client_claim_list_pointer =
      pointer client_claim_list_copyable list_of (load_list_of f) zero_list (λ x. refl)

  unfoldable pub client_claim_list_deep_copy : Option ℕ → Action (Heap (Cell M P S U X)) (Option ℕ)
  unfolding copy_pointer
  client_claim_list_deep_copy given h = client_claim_list_pointer.copy given h

  unfoldable pub client_claim_deep_copy_object :
      Option ℕ → Action (Heap (Cell M P S U X)) (Option ObjectPointer)
  unfolding client_claim_deep_copy as_object
  client_claim_deep_copy_object given h =
      let (c, k) = client_claim_deep_copy f given h in (as_object client_claim_object c, k)

  unfoldable pub client_claim_list_deep_copy_object :
      Option ℕ → Action (Heap (Cell M P S U X)) (Option ObjectPointer)
  unfolding client_claim_list_deep_copy as_object
  client_claim_list_deep_copy_object given h =
      let (c, k) = client_claim_list_deep_copy given h in (as_object client_claim_list_object c, k)
