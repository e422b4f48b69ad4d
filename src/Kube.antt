-- ===== src/Kube.antt =====
-- The Kubernetes objects that the program builds and reads, with the fields that it touches; what
-- it only copies is one field `rest`. Their types belong to k8s.io/api and k8s.io/apimachinery.
use k8cc.Prelude.{
  ℕ, String, Bool, Option, none, some, List, [], ◌∷◌, ◌≡◌, refl, arith, if◌then◌else◌, eq_iff,
}
use k8cc.Prelude.Int.{ℤ}
use k8cc.Prelude.Text.{str_eq}

-- map[string]string, read by `lookup` and written by `put`. No code depends on the order.
abbrev pub Labels : Type 0
Labels = List (String × String)

unfoldable pub lookup : String → Labels → Option String
lookup label [] = none
lookup label ((l, value) ∷ rest) = if str_eq l label then some value else lookup label rest

unfoldable pub put : Labels → String → String → Labels
put [] label value = (label, value) ∷ []
put ((l, old) ∷ rest) label value =
    if str_eq l label then (l, value) ∷ rest else (l, old) ∷ put rest label value

pub lookup-put :
    (ls : Labels) (label value wanted : String)
    → lookup wanted (put ls label value)
      ≡ (if str_eq label wanted then some value else lookup wanted ls)
unfolding lookup put
lookup-put [] label value wanted = refl
lookup-put ((l, old) ∷ rest) label value wanted = ground (
  arith,
  eq_iff label wanted,
  eq_iff l label,
  eq_iff l wanted,
  lookup-put rest label value wanted,
)

pub record OwnerReference : Type 0 where
  pub api_version : String
  pub kind : String
  pub name : String
  pub uid : String
  pub controller : Bool

pub record ObjectMeta : Type 0 where
  pub name : String
  pub generate_name : String
  pub namespace : String
  pub uid : String
  pub resource_version : String
  pub labels : Labels
  pub owner_references : List OwnerReference

-- The metadata of an object literal that leaves its fields out.
abbrev pub no_meta : ObjectMeta
no_meta = record {
  name = "";
  generate_name = "";
  namespace = "";
  uid = "";
  resource_version = "";
  labels = [];
  owner_references = [];
}

pub record GroupVersionKind : Type 0 where
  pub group : String
  pub version : String
  pub kind : String

pub record Requirement : Type 0 where
  pub key : String
  pub operator : String
  pub values : List String

pub record LabelSelector : Type 0 where
  pub match_labels : Option Labels
  pub match_expressions : List Requirement

-- What `Matches` of a labels.Selector answers.
abbrev pub Selector : Type 0
Selector = Labels → Bool

pub record SecretVolumeSource : Type 0 where
  pub secret_name : String
  pub default_mode : Option ℕ

-- A volume whose source is a secret, or one of another kind.
pub data VolumeSource : Type 0 where
  secret : SecretVolumeSource → VolumeSource
  other_source : String → VolumeSource

pub record Volume : Type 0 where
  pub name : String
  pub source : VolumeSource

pub record PodTemplateSpec : Type 0 where
  pub labels : Labels
  pub volumes : List Volume
  pub rest : String

pub record DeploymentSpec : Type 0 where
  pub replicas : Option ℤ
  pub selector : Option LabelSelector
  pub template : PodTemplateSpec
  pub strategy : Option String

pub record Deployment : Type 0 where
  pub metadata : ObjectMeta
  pub spec : DeploymentSpec

pub record ServicePort : Type 0 where
  pub port : ℕ
  pub node_port : ℕ

pub record ServiceSpec : Type 0 where
  pub ports : List ServicePort
  pub selector : Option Labels
  pub type : String

pub record Service : Type 0 where
  pub metadata : ObjectMeta
  pub spec : ServiceSpec

-- corev1.LocalObjectReference
pub record LocalObjectReference : Type 0 where
  pub name : String
