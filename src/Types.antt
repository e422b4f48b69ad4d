-- ===== src/Types.antt =====
-- pkg/apis/k8cc.io/v1alpha1/types.go: the custom resources. The embedded TypeMeta, which no code
-- reads, is left out; `metadata` is the embedded ObjectMeta.
use k8cc.Prelude.{String, Option, List}
use k8cc.Prelude.Int.{ℤ}
use k8cc.Clock.{Time, Duration}
use k8cc.Kube.{
  ObjectMeta, GroupVersionKind, LabelSelector, PodTemplateSpec, SecretVolumeSource,
  LocalObjectReference,
}

-- The int32 fields are integers that `IsInt32` bounds where a theorem needs it.
pub record DistccSpec : Type 0 where
  pub deployment_name : String
  pub service_name : String
  pub selector : Option LabelSelector
  pub min_replicas : Option ℤ
  pub max_replicas : ℤ
  pub user_replicas : ℤ
  pub lease_duration : Duration
  pub downscale_window : Option Duration
  pub template : PodTemplateSpec

pub record DistccStatus : Type 0 where
  pub last_update_time : Option Time
  pub last_scale_time : Option Time

pub record Distcc : Type 0 where
  pub metadata : ObjectMeta
  pub spec : DistccSpec
  pub status : DistccStatus

pub record DistccClaimSpec : Type 0 where
  pub distcc_name : String
  pub user_name : String

pub record DistccClaimStatus : Type 0 where
  pub expiration_time : Option Time

pub record DistccClaim : Type 0 where
  pub metadata : ObjectMeta
  pub spec : DistccClaimSpec
  pub status : DistccClaimStatus

pub record DistccClientSpec : Type 0 where
  pub lease_duration : Duration
  pub selector : Option LabelSelector
  pub template : PodTemplateSpec

pub record DistccClient : Type 0 where
  pub metadata : ObjectMeta
  pub spec : DistccClientSpec

pub record Secret : Type 0 where
  pub name : String
  pub volume_source : SecretVolumeSource

pub record DistccClientClaimSpec : Type 0 where
  pub distcc_client_name : String
  pub user_name : String
  pub secrets : List Secret

pub record DistccClientClaimStatus : Type 0 where
  pub expiration_time : Option Time
  pub deployment : Option LocalObjectReference
  pub service : Option LocalObjectReference

pub record DistccClientClaim : Type 0 where
  pub metadata : ObjectMeta
  pub spec : DistccClientClaimSpec
  pub status : DistccClientClaimStatus

-- SchemeGroupVersion of register.go, with the kind that a controller adds.
abbrev pub group_version_kind : String → GroupVersionKind
group_version_kind kind = record { group = "k8cc.io"; version = "v1alpha1"; kind = kind }
