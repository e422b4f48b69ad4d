-- ===== src/Listers/Kinds.antt =====
-- The listers of the four resources, each in the file of its name in
-- pkg/client/listers/k8cc.io/v1alpha1.
use k8cc.Prelude.{String, Option, none, some, List, ◌≡◌, refl}
use k8cc.GoError.{GoError, Result}
use k8cc.Kube.{Selector}
use k8cc.Types.{Distcc, DistccClaim, DistccClient, DistccClientClaim}
use k8cc.Library.{Library}
use k8cc.Kit.Hooks.{
  AnyObject, distcc, distcc_claim, distcc_client, distcc_client_claim, metadata_of,
}
use k8cc.ApiService.Answers.{Outcome}
use k8cc.Listers.{Kind, list, namespace_list, namespace_get}
use k8cc.Listers.Index.{Indexer}

unfoldable pub as_distcc : AnyObject → Option Distcc
as_distcc (distcc object) = some object
as_distcc _ = none

pub as_distcc-object : (a : Distcc) → as_distcc (distcc a) ≡ some a
unfolding as_distcc
as_distcc-object a = refl

pub metadata_of-distcc : (a : Distcc) → metadata_of (distcc a) ≡ some a.metadata
unfolding metadata_of
metadata_of-distcc a = refl

abbrev pub distcc_kind : Kind Distcc
distcc_kind = record {
  object = distcc;
  asserted = as_distcc;
  metadata = λ a. a.metadata;
  resource = "distcc";
  asserted-object = as_distcc-object;
  metadata-object = metadata_of-distcc;
}

unfoldable pub as_claim : AnyObject → Option DistccClaim
as_claim (distcc_claim object) = some object
as_claim _ = none

pub as_claim-object : (a : DistccClaim) → as_claim (distcc_claim a) ≡ some a
unfolding as_claim
as_claim-object a = refl

pub metadata_of-claim : (a : DistccClaim) → metadata_of (distcc_claim a) ≡ some a.metadata
unfolding metadata_of
metadata_of-claim a = refl

abbrev pub claim_kind : Kind DistccClaim
claim_kind = record {
  object = distcc_claim;
  asserted = as_claim;
  metadata = λ a. a.metadata;
  resource = "distccclaim";
  asserted-object = as_claim-object;
  metadata-object = metadata_of-claim;
}

unfoldable pub as_client : AnyObject → Option DistccClient
as_client (distcc_client object) = some object
as_client _ = none

pub as_client-object : (a : DistccClient) → as_client (distcc_client a) ≡ some a
unfolding as_client
as_client-object a = refl

pub metadata_of-client : (a : DistccClient) → metadata_of (distcc_client a) ≡ some a.metadata
unfolding metadata_of
metadata_of-client a = refl

abbrev pub client_kind : Kind DistccClient
client_kind = record {
  object = distcc_client;
  asserted = as_client;
  metadata = λ a. a.metadata;
  resource = "distccclient";
  asserted-object = as_client-object;
  metadata-object = metadata_of-client;
}

unfoldable pub as_client_claim : AnyObject → Option DistccClientClaim
as_client_claim (distcc_client_claim object) = some object
as_client_claim _ = none

pub as_client_claim-object :
    (a : DistccClientClaim) → as_client_claim (distcc_client_claim a) ≡ some a
unfolding as_client_claim
as_client_claim-object a = refl

pub metadata_of-client_claim :
    (a : DistccClientClaim) → metadata_of (distcc_client_claim a) ≡ some a.metadata
unfolding metadata_of
metadata_of-client_claim a = refl

abbrev pub client_claim_kind : Kind DistccClientClaim
client_claim_kind = record {
  object = distcc_client_claim;
  asserted = as_client_claim;
  metadata = λ a. a.metadata;
  resource = "distccclientclaim";
  asserted-object = as_client_claim-object;
  metadata-object = metadata_of-client_claim;
}

module _ {I : Type 0} ⦃index : Indexer I⦄ where
  unfoldable pub list_distccs : I → Selector → Outcome (List Distcc × Option GoError)
  unfolding list
  list_distccs = list distcc_kind

  unfoldable pub list_namespace_distccs :
      I → String → Selector → Outcome (List Distcc × Option GoError)
  unfolding namespace_list
  list_namespace_distccs = namespace_list distcc_kind

  unfoldable pub get_namespace_distcc :
      ⦃lib : Library⦄ → I → String → String → Outcome (Result Distcc)
  unfolding namespace_get
  get_namespace_distcc = namespace_get distcc_kind

  unfoldable pub list_claims : I → Selector → Outcome (List DistccClaim × Option GoError)
  unfolding list
  list_claims = list claim_kind

  unfoldable pub list_namespace_claims :
      I → String → Selector → Outcome (List DistccClaim × Option GoError)
  unfolding namespace_list
  list_namespace_claims = namespace_list claim_kind

  unfoldable pub get_namespace_claim :
      ⦃lib : Library⦄ → I → String → String → Outcome (Result DistccClaim)
  unfolding namespace_get
  get_namespace_claim = namespace_get claim_kind

  unfoldable pub list_clients : I → Selector → Outcome (List DistccClient × Option GoError)
  unfolding list
  list_clients = list client_kind

  unfoldable pub list_namespace_clients :
      I → String → Selector → Outcome (List DistccClient × Option GoError)
  unfolding namespace_list
  list_namespace_clients = namespace_list client_kind

  unfoldable pub get_namespace_client :
      ⦃lib : Library⦄ → I → String → String → Outcome (Result DistccClient)
  unfolding namespace_get
  get_namespace_client = namespace_get client_kind

  unfoldable pub list_client_claims :
      I → Selector → Outcome (List DistccClientClaim × Option GoError)
  unfolding list
  list_client_claims = list client_claim_kind

  unfoldable pub list_namespace_client_claims :
      I → String → Selector → Outcome (List DistccClientClaim × Option GoError)
  unfolding namespace_list
  list_namespace_client_claims = namespace_list client_claim_kind

  unfoldable pub get_namespace_client_claim :
      ⦃lib : Library⦄ → I → String → String → Outcome (Result DistccClientClaim)
  unfolding namespace_get
  get_namespace_client_claim = namespace_get client_claim_kind
