-- ===== src/DeepCopy/Raw.antt =====
-- The resources of pkg/apis/k8cc.io/v1alpha1/types.go as they lie in memory: a pointer and a slice are
-- addresses, none for nil. The types of other packages are parameters: `M` for ObjectMeta, `P` for
-- PodTemplateSpec, `S` for LabelSelector, `U` for SecretVolumeSource, `X` for what they point to.
use k8cc.Prelude.{ℕ, String, Option, List}
use k8cc.Prelude.Int.{ℤ}
use k8cc.Clock.{Time, Duration}
use k8cc.Kube.{ObjectMeta, PodTemplateSpec, LabelSelector, SecretVolumeSource, LocalObjectReference}
use k8cc.Types.{DistccClaimSpec}
use k8cc.DeepCopy.Memory.{Copyable}

pub record RawDistccSpec (P : Type 0) : Type 0 where
  pub deployment_name : String
  pub service_name : String
  pub selector : Option ℕ
  pub min_replicas : Option ℕ
  pub max_replicas : ℤ
  pub user_replicas : ℤ
  pub lease_duration : Duration
  pub downscale_window : Option ℕ
  pub template : P

pub record RawDistccStatus : Type 0 where
  pub last_update_time : Option ℕ
  pub last_scale_time : Option ℕ

pub record RawDistcc (M P : Type 0) : Type 0 where
  pub metadata : M
  pub spec : RawDistccSpec P
  pub status : RawDistccStatus

pub record RawClaimStatus : Type 0 where
  pub expiration_time : Option ℕ

pub record RawClaim (M : Type 0) : Type 0 where
  pub metadata : M
  pub spec : DistccClaimSpec
  pub status : RawClaimStatus

pub record RawClientSpec (P : Type 0) : Type 0 where
  pub lease_duration : Duration
  pub selector : Option ℕ
  pub template : P

pub record RawClient (M P : Type 0) : Type 0 where
  pub metadata : M
  pub spec : RawClientSpec P

pub record RawSecret (U : Type 0) : Type 0 where
  pub name : String
  pub volume_source : U

pub record RawClientClaimSpec : Type 0 where
  pub distcc_client_name : String
  pub user_name : String
  pub secrets : Option ℕ

pub record RawClientClaimStatus : Type 0 where
  pub expiration_time : Option ℕ
  pub deployment : Option ℕ
  pub service : Option ℕ

pub record RawClientClaim (M : Type 0) : Type 0 where
  pub metadata : M
  pub spec : RawClientClaimSpec
  pub status : RawClientClaimStatus

-- metav1.ListMeta, which is assigned
pub record ListMeta : Type 0 where
  pub resource_version : String
  pub continue : String

pub record RawList : Type 0 where
  pub metadata : ListMeta
  pub items : Option ℕ

pub record ListOf (V : Type 0) : Type 0 where
  pub metadata : ListMeta
  pub items : Option (List V)

-- What a cell holds.
pub data Cell (M P S U X : Type 0) : Type 0 where
  selector : S → Cell M P S U X
  int32 : ℤ → Cell M P S U X
  duration : Duration → Cell M P S U X
  time : Time → Cell M P S U X
  reference : LocalObjectReference → Cell M P S U X
  secrets : List (RawSecret U) → Cell M P S U X
  secret : RawSecret U → Cell M P S U X
  distcc_spec : RawDistccSpec P → Cell M P S U X
  distcc_status : RawDistccStatus → Cell M P S U X
  distcc : RawDistcc M P → Cell M P S U X
  distccs : List (RawDistcc M P) → Cell M P S U X
  claim_spec : DistccClaimSpec → Cell M P S U X
  claim_status : RawClaimStatus → Cell M P S U X
  claim : RawClaim M → Cell M P S U X
  claims : List (RawClaim M) → Cell M P S U X
  client_spec : RawClientSpec P → Cell M P S U X
  client : RawClient M P → Cell M P S U X
  clients : List (RawClient M P) → Cell M P S U X
  client_claim_spec : RawClientClaimSpec → Cell M P S U X
  client_claim_status : RawClientClaimStatus → Cell M P S U X
  client_claim : RawClientClaim M → Cell M P S U X
  client_claims : List (RawClientClaim M) → Cell M P S U X
  list_of : RawList → Cell M P S U X
  foreign : X → Cell M P S U X

-- The deep copies and the zero values of the other packages' types.
pub record Foreign (M P S U X : Type 0) : Type 1 where
  pub metas : Copyable (Cell M P S U X) M ObjectMeta
  pub templates : Copyable (Cell M P S U X) P PodTemplateSpec
  pub selectors : Copyable (Cell M P S U X) S LabelSelector
  pub sources : Copyable (Cell M P S U X) U SecretVolumeSource
  pub zero_meta : M
  pub zero_template : P
  pub zero_selector : S
  pub zero_source : U
