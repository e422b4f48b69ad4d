-- ===== src/ApiService/Operations.antt =====
-- The interface Service of pkg/apiserver/service/service.go, and the one that the service itself fills.
use k8cc.Prelude.{Action, String, Option}
use k8cc.GoError.{GoError}
use k8cc.Library.{Library}
use k8cc.Cluster.{Cluster, Run}
use k8cc.ApiService.Remote.{Store, Backoff}
use k8cc.ApiService.Answers.{Tag, DistccLease, ClientLease, Outcome}
use k8cc.ApiService.{lease_distcc, lease_client, delete_distcc, delete_client}

pub record Service (W : Type 0) : Type 0 where
  pub lease_distcc : String → Tag → Action (Run W) (Outcome (DistccLease × Option GoError))
  pub delete_distcc : String → Tag → Action (Run W) (Option GoError)
  pub lease_client : String → Tag → Action (Run W) (Outcome (ClientLease × Option GoError))
  pub delete_client : String → Tag → Action (Run W) (Option GoError)

module _ ⦃lib : Library⦄ {W : Type 0} ⦃cluster : Cluster W⦄ ⦃store : Store W⦄
    ⦃backoff : Backoff W⦄ where
  -- NewService
  abbrev pub service : Service W
  service = record {
    lease_distcc = lease_distcc;
    delete_distcc = delete_distcc;
    lease_client = lease_client;
    delete_client = delete_client;
  }
