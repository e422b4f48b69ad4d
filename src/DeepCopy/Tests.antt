-- ===== src/DeepCopy/Tests.antt =====
-- A deep copy that runs, and the theorems about deep copies at concrete inputs.
use k8cc.Prelude.{◌≡◌, refl, none, some, [], ◌∷◌, ◌==◌, if◌then◌else◌, arith}
use k8cc.Kube.{ObjectMeta, PodTemplateSpec, LabelSelector, SecretVolumeSource, no_meta}
use k8cc.Samples.Objects.{template}
use k8cc.DeepCopy.Memory.{Heap, store, store-Agree, store-Agree_behind}
use k8cc.DeepCopy.Pairs.{plain}
use k8cc.DeepCopy.Raw.{
  RawSecret, RawClientClaim, Cell, Foreign, time, reference, secrets, client_claim,
}
use k8cc.DeepCopy.Copies.{client_claim_pointer, client_claim_deep_copy}
use k8cc.DeepCopy.Pointers.{copy_each}
use k8cc.DeepCopy.Resources.{secret_deep_copy_into}
use k8cc.DeepCopy.Statuses.{client_claim_status_deep_copy_into}
use k8cc.DeepCopy.Objects.{client_claim_spec_deep_copy_into, client_claim_deep_copy_into}
use k8cc.DeepCopy.Independence.{client_claim_deep_copy-Independent}

-- The other packages' types without pointers.
abbrev TestCell : Type 0
TestCell = Cell ObjectMeta PodTemplateSpec LabelSelector SecretVolumeSource (Unit {0})

abbrev flat_types : Foreign ObjectMeta PodTemplateSpec LabelSelector SecretVolumeSource (Unit {0})
flat_types = record {
  metas = plain TestCell ObjectMeta;
  templates = plain TestCell PodTemplateSpec;
  selectors = plain TestCell LabelSelector;
  sources = plain TestCell SecretVolumeSource;
  zero_meta = no_meta;
  zero_template = template;
  zero_selector = record { match_labels = none; match_expressions = [] };
  zero_source = record { secret_name = ""; default_mode = none };
}

abbrev mike : RawClientClaim ObjectMeta
mike = record {
  metadata = record no_meta { name = "mike-editor" };
  spec = record { distcc_client_name = "editor"; user_name = "mike"; secrets = some 1 };
  status = record { expiration_time = some 2; deployment = none; service = some 3 };
}

abbrev ssh : RawSecret SecretVolumeSource
ssh = record { name = "ssh"; volume_source = record { secret_name = "key"; default_mode = none } }

-- A claim at address 0; its secrets, its expiration and the reference to its service behind it.
abbrev claim_heap : Heap TestCell
claim_heap = record {
  next = 4;
  cell = λ p.
      if p == 0
      then client_claim mike
      else if p == 1
      then secrets (ssh ∷ [])
      else if p == 2
      then time 1_600_000_000_000
      else reference (record { name = "mike-editor-2" });
}

-- The copy of the claim lies at the first free address, and its parts behind it.
copy_runs : (client_claim_deep_copy flat_types (some 0) claim_heap).0 ≡ some 4
unfolding client_claim_deep_copy
copy_runs = refl

copy_ends : (client_claim_deep_copy flat_types (some 0) claim_heap).1.next ≡ 8
unfolding client_claim_deep_copy client_claim_deep_copy_into client_claim_status_deep_copy_into
    client_claim_spec_deep_copy_into copy_each secret_deep_copy_into
copy_ends = refl

abbrev copied_heap : Heap TestCell
copied_heap = (client_claim_deep_copy flat_types (some 0) claim_heap).1

abbrev other_reference : TestCell
other_reference = reference (record { name = "other" })

claim_inside : (client_claim_pointer flat_types).place.Within 0 4 claim_heap (some 0)
claim_inside = (
  omega arith,
  omega arith,
  (
    tt,
    (
      (tt, (omega arith, omega arith, ((tt, tt), tt))),
      ((omega arith, omega arith, tt), (tt, (omega arith, omega arith, tt))),
    ),
  ),
)

-- The service of the original is changed, and the copy keeps it; the copied claim is overwritten, and
-- the original stays.
client_claim_deep_copy-Independent_example :
    ((client_claim_pointer flat_types).place.value
        (store 3 other_reference copied_heap)
        (client_claim_deep_copy flat_types (some 0) claim_heap).0
      ≡ (client_claim_pointer flat_types).place.value claim_heap (some 0))
    × ((client_claim_pointer flat_types).place.value (store 4 other_reference copied_heap) (some 0)
        ≡ (client_claim_pointer flat_types).place.value claim_heap (some 0))
client_claim_deep_copy-Independent_example =
    client_claim_deep_copy-Independent flat_types claim_heap (store 3 other_reference copied_heap)
      (store 4 other_reference copied_heap) (some 0) claim_inside
      (store-Agree_behind 3 copied_heap.next other_reference copied_heap)
      (store-Agree 4 other_reference copied_heap)
