-- ===== src/Samples/Servers.antt =====
-- An API server for the tests that keeps one claim, under whatever name.
use k8cc.Prelude.{[], ◌+◌, ◌≤◌, refl, inr, Option, none, some, arith}
use k8cc.Clock.{Time, second}
use k8cc.GoError.{Result, ok}
use k8cc.Types.{DistccClaim}
use k8cc.Cluster.{Cluster}
use k8cc.ApiService.Remote.{Store}
use k8cc.Lifecycle.{Backend}
use k8cc.Samples.{Answers, missing}

pub record Server : Type 0 where
  pub time : Time
  pub claim : Option DistccClaim

abbrev held : Option DistccClaim → Result DistccClaim
held none = missing
held (some c) = ok c

-- The caches and all but the claims answer as `answering` does.
abbrev pub serving : Answers → Cluster Server
serving a = record {
  cached_deployment = λ w namespace name. a.deployment;
  cached_deployments = λ w namespace selector. ok [];
  cached_service = λ w namespace name. a.service;
  cached_services = λ w namespace selector. ok [];
  cached_distcc = λ w namespace name. a.distcc;
  cached_claim = λ w namespace name. a.claim;
  cached_claims = λ w namespace selector. ok a.claims;
  cached_client = λ w namespace name. a.client;
  cached_client_claim = λ w namespace name. a.client_claim;
  create_deployment = λ d w. (ok d, w);
  update_deployment = λ d w. (ok d, w);
  create_service = λ d w. (ok d, w);
  update_distcc = λ d w. (ok d, w);
  update_claim = λ c w. (ok c, record w { claim = some c });
  delete_claim = λ namespace name w. (none, record w { claim = none });
  update_client_claim = λ d w. (ok d, w);
  delete_client_claim = λ namespace name w. (none, w);
  now = λ w. (w.time, record w { time = w.time + second });
}

abbrev pub keeping : Answers → Store Server
keeping a = record {
  get_distcc = λ namespace name w. (a.distcc, w);
  get_claim = λ namespace name w. (held w.claim, w);
  get_client = λ namespace name w. (a.client, w);
  get_client_claim = λ namespace name w. (a.client_claim, w);
  get_secret = λ namespace name w. (none, w);
  get_service = λ namespace name w. (a.service, w);
  create_claim = λ c w. (ok c, record w { claim = some c });
  create_client_claim = λ c w. (ok c, w);
}

pub later : (t : Time) → t ≤ t + second
later t = omega arith

pub still : (t : Time) → t ≤ t
still t = omega arith

abbrev pub kept : (a : Answers) → Backend Server ⦃cluster = serving a⦄ ⦃store = keeping a⦄
kept a = record {
  clock = λ w. w.time;
  stored = λ w namespace name. w.claim;
  now_reading = λ w. (still w.time, later w.time);
  now_stored = λ w namespace name. refl;
  get_later = λ namespace name w. still w.time;
  get_stored = λ namespace name w namespace' name'. refl;
  delete_later = λ namespace name w. still w.time;
  delete_stored = λ namespace name w namespace' name'. inr refl;
  deleted = λ namespace name w h. refl;
  update_later = λ c w. still w.time;
  update_stored = λ c w namespace name. inr (c, refl, refl);
  create_later = λ c w. still w.time;
  create_stored = λ c w namespace name. inr (c, refl, refl);
}
