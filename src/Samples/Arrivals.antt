-- ===== src/Samples/Arrivals.antt =====
-- A cluster for the tests in which the objects of a client claim appear: they are created, and the
-- caches have them when the clock has moved on.
use k8cc.Prelude.{none, [], ◌∷◌, ltb, if◌then◌else◌}
use k8cc.Clock.{Time}
use k8cc.GoError.{ok}
use k8cc.Types.{DistccClientClaim}
use k8cc.Cluster.{Cluster, Run}
use k8cc.Samples.{Answers, nothing, missing, answering}
use k8cc.Samples.Objects.{editor, mike_until, mike_deployment, mike_service}

abbrev pub start : Run Time
start = record { world = 1_000_500_000_000; writes = [] }

abbrev pub afterwards : Run Time
afterwards = record { world = 1_010_500_000_000; writes = [] }

abbrev pub fresh_mike : DistccClientClaim
fresh_mike = record (mike_until none) {
  status = record { expiration_time = none; deployment = none; service = none };
}

abbrev appears {ℓ} : {A : Type ℓ} → Time → A → A → A
appears w before after = if ltb w 1_004_000_000_000 then before else after

abbrev pub with_editor : Answers
with_editor = record nothing { client = ok editor }

abbrev pub catching_up : Cluster Time
catching_up = record (answering with_editor) {
  cached_deployment = λ w namespace name. appears w missing (ok mike_deployment);
  cached_deployments = λ w namespace selector. appears w (ok []) (ok (mike_deployment ∷ []));
  cached_service = λ w namespace name. appears w missing (ok mike_service);
  cached_services = λ w namespace selector. appears w (ok []) (ok (mike_service ∷ []));
  create_deployment = λ d w. (ok mike_deployment, w);
  create_service = λ d w. (ok mike_service, w);
}
