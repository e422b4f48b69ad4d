-- ===== src/Clientset/FakeKinds.antt =====
-- The fake clients of the four resources, each in the file of its name in
-- pkg/client/clientset/versioned/typed/k8cc.io/v1alpha1/fake.
use k8cc.Prelude.{Action, String, Option, List}
use k8cc.GoError.{GoError, Result}
use k8cc.Types.{Distcc, DistccClaim, DistccClient, DistccClientClaim}
use k8cc.ApiService.Answers.{Outcome}
use k8cc.DeepCopy.Raw.{ListOf}
use k8cc.Clientset.{ListOptions}
use k8cc.Clientset.Kinds.{distcc_resource, claim_resource, client_resource, client_claim_resource}
use k8cc.Clientset.Fakes.{
  FakeClient, fake_get, fake_list, fake_watch, fake_create, fake_update, fake_delete,
  fake_delete_collection, fake_patch,
}

module _ {Y W : Type 0} where
  unfoldable pub fake_distccs_get :
      FakeClient Distcc Y W → String → Action W (Outcome (Option Distcc × Option GoError))
  unfolding fake_get
  fake_distccs_get = fake_get distcc_resource

  unfoldable pub fake_distccs_list :
      FakeClient Distcc Y W
      → ListOptions
      → Action W (Outcome (Option (ListOf Distcc) × Option GoError))
  unfolding fake_list
  fake_distccs_list = fake_list distcc_resource

  unfoldable pub fake_distccs_watch :
      FakeClient Distcc Y W → ListOptions → Action W (Outcome (Result Y))
  unfolding fake_watch
  fake_distccs_watch = fake_watch distcc_resource

  unfoldable pub fake_distccs_create :
      FakeClient Distcc Y W → Distcc → Action W (Outcome (Option Distcc × Option GoError))
  unfolding fake_create
  fake_distccs_create = fake_create distcc_resource

  unfoldable pub fake_distccs_update :
      FakeClient Distcc Y W → Distcc → Action W (Outcome (Option Distcc × Option GoError))
  unfolding fake_update
  fake_distccs_update = fake_update distcc_resource

  unfoldable pub fake_distccs_delete : FakeClient Distcc Y W → String → Action W (Option GoError)
  unfolding fake_delete
  fake_distccs_delete = fake_delete distcc_resource

  unfoldable pub fake_distccs_delete_collection :
      FakeClient Distcc Y W → ListOptions → Action W (Outcome (Option GoError))
  unfolding fake_delete_collection
  fake_distccs_delete_collection = fake_delete_collection distcc_resource

  unfoldable pub fake_distccs_patch :
      FakeClient Distcc Y W
      → String
      → String
      → List String
      → Action W (Outcome (Option Distcc × Option GoError))
  unfolding fake_patch
  fake_distccs_patch = fake_patch distcc_resource

  unfoldable pub fake_claims_get :
      FakeClient DistccClaim Y W → String → Action W (Outcome (Option DistccClaim × Option GoError))
  unfolding fake_get
  fake_claims_get = fake_get claim_resource

  unfoldable pub fake_claims_list :
      FakeClient DistccClaim Y W
      → ListOptions
      → Action W (Outcome (Option (ListOf DistccClaim) × Option GoError))
  unfolding fake_list
  fake_claims_list = fake_list claim_resource

  unfoldable pub fake_claims_watch :
      FakeClient DistccClaim Y W → ListOptions → Action W (Outcome (Result Y))
  unfolding fake_watch
  fake_claims_watch = fake_watch claim_resource

  unfoldable pub fake_claims_create :
      FakeClient DistccClaim Y W
      → DistccClaim
      → Action W (Outcome (Option DistccClaim × Option GoError))
  unfolding fake_create
  fake_claims_create = fake_create claim_resource

  unfoldable pub fake_claims_update :
      FakeClient DistccClaim Y W
      → DistccClaim
      → Action W (Outcome (Option DistccClaim × Option GoError))
  unfolding fake_update
  fake_claims_update = fake_update claim_resource

  unfoldable pub fake_claims_delete :
      FakeClient DistccClaim Y W → String → Action W (Option GoError)
  unfolding fake_delete
  fake_claims_delete = fake_delete claim_resource

  unfoldable pub fake_claims_delete_collection :
      FakeClient DistccClaim Y W → ListOptions → Action W (Outcome (Option GoError))
  unfolding fake_delete_collection
  fake_claims_delete_collection = fake_delete_collection claim_resource

  unfoldable pub fake_claims_patch :
      FakeClient DistccClaim Y W
      → String
      → String
      → List String
      → Action W (Outcome (Option DistccClaim × Option GoError))
  unfolding fake_patch
  fake_claims_patch = fake_patch claim_resource

  unfoldable pub fake_clients_get :
      FakeClient DistccClient Y W
      → String
      → Action W (Outcome (Option DistccClient × Option GoError))
  unfolding fake_get
  fake_clients_get = fake_get client_resource

  unfoldable pub fake_clients_list :
      FakeClient DistccClient Y W
      → ListOptions
      → Action W (Outcome (Option (ListOf DistccClient) × Option GoError))
  unfolding fake_list
  fake_clients_list = fake_list client_resource

  unfoldable pub fake_clients_watch :
      FakeClient DistccClient Y W → ListOptions → Action W (Outcome (Result Y))
  unfolding fake_watch
  fake_clients_watch = fake_watch client_resource

  unfoldable pub fake_clients_create :
      FakeClient DistccClient Y W
      → DistccClient
      → Action W (Outcome (Option DistccClient × Option GoError))
  unfolding fake_create
  fake_clients_create = fake_create client_resource

  unfoldable pub fake_clients_update :
      FakeClient DistccClient Y W
      → DistccClient
      → Action W (Outcome (Option DistccClient × Option GoError))
  unfolding fake_update
  fake_clients_update = fake_update client_resource

  unfoldable pub fake_clients_delete :
      FakeClient DistccClient Y W → String → Action W (Option GoError)
  unfolding fake_delete
  fake_clients_delete = fake_delete client_resource

  unfoldable pub fake_clients_delete_collection :
      FakeClient DistccClient Y W → ListOptions → Action W (Outcome (Option GoError))
  unfolding fake_delete_collection
  fake_clients_delete_collection = fake_delete_collection client_resource

  unfoldable pub fake_clients_patch :
      FakeClient DistccClient Y W
      → String
      → String
      → List String
      → Action W (Outcome (Option DistccClient × Option GoError))
  unfolding fake_patch
  fake_clients_patch = fake_patch client_resource

  unfoldable pub fake_client_claims_get :
      FakeClient DistccClientClaim Y W
      → String
      → Action W (Outcome (Option DistccClientClaim × Option GoError))
  unfolding fake_get
  fake_client_claims_get = fake_get client_claim_resource

  unfoldable pub fake_client_claims_list :
      FakeClient DistccClientClaim Y W
      → ListOptions
      → Action W (Outcome (Option (ListOf DistccClientClaim) × Option GoError))
  unfolding fake_list
  fake_client_claims_list = fake_list client_claim_resource

  unfoldable pub fake_client_claims_watch :
      FakeClient DistccClientClaim Y W → ListOptions → Action W (Outcome (Result Y))
  unfolding fake_watch
  fake_client_claims_watch = fake_watch client_claim_resource

  unfoldable pub fake_client_claims_create :
      FakeClient DistccClientClaim Y W
      → DistccClientClaim
      → Action W (Outcome (Option DistccClientClaim × Option GoError))
  unfolding fake_create
  fake_client_claims_create = fake_create client_claim_resource

  unfoldable pub fake_client_claims_update :
      FakeClient DistccClientClaim Y W
      → DistccClientClaim
      → Action W (Outcome (Option DistccClientClaim × Option GoError))
  unfolding fake_update
  fake_client_claims_update = fake_update client_claim_resource

  unfoldable pub fake_client_claims_delete :
      FakeClient DistccClientClaim Y W → String → Action W (Option GoError)
  unfolding fake_delete
  fake_client_claims_delete = fake_delete client_claim_resource

  unfoldable pub fake_client_claims_delete_collection :
      FakeClient DistccClientClaim Y W → ListOptions → Action W (Outcome (Option GoError))
  unfolding fake_delete_collection
  fake_client_claims_delete_collection = fake_delete_collection client_claim_resource

  unfoldable pub fake_client_claims_patch :
      FakeClient DistccClientClaim Y W
      → String
      → String
      → List String
      → Action W (Outcome (Option DistccClientClaim × Option GoError))
  unfolding fake_patch
  fake_client_claims_patch = fake_patch client_claim_resource
