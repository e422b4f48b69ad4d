-- ===== src/Samples/Deploys.antt =====
-- An API server for the tests that keeps one deployment and one service, under whatever name, with
-- caches that are up to date. The clock moves by a second at each reading.
use k8cc.Prelude.{◌+◌, ◌≤◌, refl, Option, none, some, List, [], arith}
use k8cc.Prelude.Int.{ℤ, pos}
use k8cc.Clock.{Time, second}
use k8cc.GoError.{Result, ok}
use k8cc.Kube.{Deployment, Service}
use k8cc.Types.{DistccClaim}
use k8cc.Cluster.{Cluster}
use k8cc.Distcc.Convergence.{Prompt}
use k8cc.Samples.{sample_library, missing}

pub record Deploys : Type 0 where
  pub time : Time
  pub deployment : Option Deployment
  pub service : Option Service

abbrev stored {ℓ} : {A : Type ℓ} → Option A → Result A
stored none = missing
stored (some a) = ok a

-- A deployment is created with one replica, if its number is not given.
abbrev defaulted : Option ℤ → ℤ
defaulted none = pos 1
defaulted (some n) = n

abbrev with_default : Deployment → Deployment
with_default d = record d { spec = record d.spec { replicas = some (defaulted d.spec.replicas) } }

abbrev pub deploying : List DistccClaim → Cluster Deploys
deploying claims = record {
  cached_deployment = λ w namespace name. stored w.deployment;
  cached_deployments = λ w namespace selector. ok [];
  cached_service = λ w namespace name. stored w.service;
  cached_services = λ w namespace selector. ok [];
  cached_distcc = λ w namespace name. missing;
  cached_claim = λ w namespace name. missing;
  cached_claims = λ w namespace selector. ok claims;
  cached_client = λ w namespace name. missing;
  cached_client_claim = λ w namespace name. missing;
  create_deployment = λ d w. (ok (with_default d), record w { deployment = some (with_default d) });
  update_deployment = λ d w. (ok d, record w { deployment = some d });
  create_service = λ v w. (ok v, record w { service = some v });
  update_distcc = λ d w. (ok d, w);
  update_claim = λ c w. (ok c, w);
  delete_claim = λ namespace name w. (none, w);
  update_client_claim = λ c w. (ok c, w);
  delete_client_claim = λ namespace name w. (none, w);
  now = λ w. (w.time, record w { time = w.time + second });
}

pub later : (t : Time) → t ≤ t + second
later t = omega arith

pub still : (t : Time) → t ≤ t
still t = omega arith

abbrev pub prompt_cluster :
    (claims : List DistccClaim) → Prompt Deploys ⦃cluster = deploying claims⦄
prompt_cluster claims = record {
  clock = λ w. w.time;
  now_reading = λ w. (still w.time, later w.time);
  now_same = λ w. (λ ns n. refl, λ ns n. refl, λ ns selector. refl);
  deployment_created = λ d w e absent is. (with_default d, refl, refl, refl);
  create_deployment_later = λ d w. (still w.time, λ ns n. refl, λ ns selector. refl);
  deployment_updated = λ d old w had. (d, refl, refl, λ n h. h, refl);
  update_deployment_later = λ d w. (still w.time, λ ns n. refl, λ ns selector. refl);
  service_created = λ v w e absent is. (v, refl, refl, refl);
  create_service_later = λ v w. (still w.time, λ ns n. refl, λ ns selector. refl);
  distcc_updated = λ d w. (d, refl);
  update_distcc_later = λ d w. (still w.time, λ ns n. refl, λ ns n. refl, λ ns selector. refl);
}
