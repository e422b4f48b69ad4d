-- ===== src/Clientset/Kinds.antt =====
-- The typed clients of the four resources, each in the file of its name in
-- pkg/client/clientset/versioned/typed/k8cc.io/v1alpha1.
use k8cc.Prelude.{Action, String, Option, List}
use k8cc.GoError.{GoError, Result}
use k8cc.Types.{Distcc, DistccClaim, DistccClient, DistccClientClaim}
use k8cc.DeepCopy.Raw.{ListOf}
use k8cc.Listers.Kinds.{distcc_kind, claim_kind, client_kind, client_claim_kind}
use k8cc.Clientset.{
  Resource, TypedClient, GetOptions, ListOptions, DeleteOptions, get_object, list_objects,
  watch_objects, create_object, update_object, delete_object, delete_collection, patch_object,
}

abbrev pub distcc_resource : Resource Distcc
distcc_resource = record { plural = "distccs"; kind = distcc_kind }

abbrev pub claim_resource : Resource DistccClaim
claim_resource = record { plural = "distccclaims"; kind = claim_kind }

abbrev pub client_resource : Resource DistccClient
client_resource = record { plural = "distccclients"; kind = client_kind }

abbrev pub client_claim_resource : Resource DistccClientClaim
client_claim_resource = record { plural = "distccclientclaims"; kind = client_claim_kind }

module _ {P Y W : Type 0} where
  unfoldable pub distccs_get :
      TypedClient Distcc P Y W → String → GetOptions → Action W (Distcc × Option GoError)
  unfolding get_object
  distccs_get = get_object distcc_resource

  unfoldable pub distccs_list :
      TypedClient Distcc P Y W → ListOptions → Action W (ListOf Distcc × Option GoError)
  unfolding list_objects
  distccs_list = list_objects distcc_resource

  unfoldable pub distccs_watch : TypedClient Distcc P Y W → ListOptions → Action W (Result Y)
  unfolding watch_objects
  distccs_watch = watch_objects distcc_resource

  unfoldable pub distccs_create :
      TypedClient Distcc P Y W → Distcc → Action W (Distcc × Option GoError)
  unfolding create_object
  distccs_create = create_object distcc_resource

  unfoldable pub distccs_update :
      TypedClient Distcc P Y W → Distcc → Action W (Distcc × Option GoError)
  unfolding update_object
  distccs_update = update_object distcc_resource

  unfoldable pub distccs_delete :
      TypedClient Distcc P Y W → String → Option DeleteOptions → Action W (Option GoError)
  unfolding delete_object
  distccs_delete = delete_object distcc_resource

  unfoldable pub distccs_delete_collection :
      TypedClient Distcc P Y W → Option DeleteOptions → ListOptions → Action W (Option GoError)
  unfolding delete_collection
  distccs_delete_collection = delete_collection distcc_resource

  unfoldable pub distccs_patch :
      TypedClient Distcc P Y W
      → String
      → String
      → String
      → List String
      → Action W (Distcc × Option GoError)
  unfolding patch_object
  distccs_patch = patch_object distcc_resource

  unfoldable pub claims_get :
      TypedClient DistccClaim P Y W → String → GetOptions → Action W (DistccClaim × Option GoError)
  unfolding get_object
  claims_get = get_object claim_resource

  unfoldable pub claims_list :
      TypedClient DistccClaim P Y W → ListOptions → Action W (ListOf DistccClaim × Option GoError)
  unfolding list_objects
  claims_list = list_objects claim_resource

  unfoldable pub claims_watch : TypedClient DistccClaim P Y W → ListOptions → Action W (Result Y)
  unfolding watch_objects
  claims_watch = watch_objects claim_resource

  unfoldable pub claims_create :
      TypedClient DistccClaim P Y W → DistccClaim → Action W (DistccClaim × Option GoError)
  unfolding create_object
  claims_create = create_object claim_resource

  unfoldable pub claims_update :
      TypedClient DistccClaim P Y W → DistccClaim → Action W (DistccClaim × Option GoError)
  unfolding update_object
  claims_update = update_object claim_resource

  unfoldable pub claims_delete :
      TypedClient DistccClaim P Y W → String → Option DeleteOptions → Action W (Option GoError)
  unfolding delete_object
  claims_delete = delete_object claim_resource

  unfoldable pub claims_delete_collection :
      TypedClient DistccClaim P Y W → Option DeleteOptions → ListOptions → Action W (Option GoError)
  unfolding delete_collection
  claims_delete_collection = delete_collection claim_resource

  unfoldable pub claims_patch :
      TypedClient DistccClaim P Y W
      → String
      → String
      → String
      → List String
      → Action W (DistccClaim × Option GoError)
  unfolding patch_object
  claims_patch = patch_object claim_resource

  unfoldable pub clients_get :
      TypedClient DistccClient P Y W
      → String
      → GetOptions
      → Action W (DistccClient × Option GoError)
  unfolding get_object
  clients_get = get_object client_resource

  unfoldable pub clients_list :
      TypedClient DistccClient P Y W → ListOptions → Action W (ListOf DistccClient × Option GoError)
  unfolding list_objects
  clients_list = list_objects client_resource

  unfoldable pub clients_watch : TypedClient DistccClient P Y W → ListOptions → Action W (Result Y)
  unfolding watch_objects
  clients_watch = watch_objects client_resource

  unfoldable pub clients_create :
      TypedClient DistccClient P Y W → DistccClient → Action W (DistccClient × Option GoError)
  unfolding create_object
  clients_create = create_object client_resource

  unfoldable pub clients_update :
      TypedClient DistccClient P Y W → DistccClient → Action W (DistccClient × Option GoError)
  unfolding update_object
  clients_update = update_object client_resource

  unfoldable pub clients_delete :
      TypedClient DistccClient P Y W → String → Option DeleteOptions → Action W (Option GoError)
  unfolding delete_object
  clients_delete = delete_object client_resource

  unfoldable pub clients_delete_collection :
      TypedClient DistccClient P Y W
      → Option DeleteOptions
      → ListOptions
      → Action W (Option GoError)
  unfolding delete_collection
  clients_delete_collection = delete_collection client_resource

  unfoldable pub clients_patch :
      TypedClient DistccClient P Y W
      → String
      → String
      → String
      → List String
      → Action W (DistccClient × Option GoError)
  unfolding patch_object
  clients_patch = patch_object client_resource

  unfoldable pub client_claims_get :
      TypedClient DistccClientClaim P Y W
      → String
      → GetOptions
      → Action W (DistccClientClaim × Option GoError)
  unfolding get_object
  client_claims_get = get_object client_claim_resource

  unfoldable pub client_claims_list :
      TypedClient DistccClientClaim P Y W
      → ListOptions
      → Action W (ListOf DistccClientClaim × Option GoError)
  unfolding list_objects
  client_claims_list = list_objects client_claim_resource

  unfoldable pub client_claims_watch :
      TypedClient DistccClientClaim P Y W → ListOptions → Action W (Result Y)
  unfolding watch_objects
  client_claims_watch = watch_objects client_claim_resource

  unfoldable pub client_claims_create :
      TypedClient DistccClientClaim P Y W
      → DistccClientClaim
      → Action W (DistccClientClaim × Option GoError)
  unfolding create_object
  client_claims_create = create_object client_claim_resource

  unfoldable pub client_claims_update :
      TypedClient DistccClientClaim P Y W
      → DistccClientClaim
      → Action W (DistccClientClaim × Option GoError)
  unfolding update_object
  client_claims_update = update_object client_claim_resource

  unfoldable pub client_claims_delete :
      TypedClient DistccClientClaim P Y W
      → String
      → Option DeleteOptions
      → Action W (Option GoError)
  unfolding delete_object
  client_claims_delete = delete_object client_claim_resource

  unfoldable pub client_claims_delete_collection :
      TypedClient DistccClientClaim P Y W
      → Option DeleteOptions
      → ListOptions
      → Action W (Option GoError)
  unfolding delete_collection
  client_claims_delete_collection = delete_collection client_claim_resource

  unfoldable pub client_claims_patch :
      TypedClient DistccClientClaim P Y W
      → String
      → String
      → String
      → List String
      → Action W (DistccClientClaim × Option GoError)
  unfolding patch_object
  client_claims_patch = patch_object client_claim_resource
