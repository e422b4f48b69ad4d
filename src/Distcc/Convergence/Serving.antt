-- ===== src/Distcc/Convergence/Serving.antt =====
-- The second phase of `Sync`, on the service, and the update of the status, in a cluster that takes
-- its writes.
use k8cc.Prelude.{◌≡◌, ◌≢◌, ◌∙◌, refl, Bool, true, none, some, Option, arith, Bool-cases, inl, inr}
use k8cc.Prelude.Text.{str_eq_ne}
use k8cc.GoError.{GoError, Result, ok, err}
use k8cc.Kube.{Service}
use k8cc.Types.{Distcc, group_version_kind}
use k8cc.Library.{Library}
use k8cc.Conv.{to_kube_time}
use k8cc.Cluster.{Cluster, Run}
use k8cc.Distcc.{
  UpdateState, get_or_create_service, check_service, sync_service, update_distcc_status,
  after_service, after_deployment, any, with_times,
}
use k8cc.Distcc.Objects.{new_service}
use k8cc.Distcc.Convergence.{
  SameServices, SameDeployments, Prompt, OwnServiceOrMissing, HasOwnService, Passes,
}
use k8cc.Distcc.Convergence.Deploying.{Passes-trans, now-Passes}

own_new_service :
    ⦃lib : Library⦄ (distcc : Distcc) (answer : Service)
    → answer.metadata.owner_references ≡ (new_service distcc).metadata.owner_references
    → lib.is_controlled_by answer.metadata distcc.metadata ≡ true
unfolding new_service
own_new_service ⦃lib⦄ distcc answer owners =
    lib.is_controlled_by_new answer.metadata distcc.metadata (group_version_kind "Distcc") owners

checked :
    ⦃lib : Library⦄ (distcc : Distcc) (r : Result Service × Bool) (service : Service)
    → r.0 ≡ ok service
    → lib.is_controlled_by service.metadata distcc.metadata ≡ true
    → check_service distcc r ≡ (r.1, none)
unfolding check_service
checked distcc (err e, created) service found ours = absurd (ground arith)
checked distcc (ok v, created) service found ours =
    let same : service ≡ v = ground arith in rw (rw same at ours) refl

module _ ⦃lib : Library⦄ {W : Type 0} ⦃cluster : Cluster W⦄ ⦃prompt : Prompt W⦄ where
  -- The service is there and is controlled by the Distcc, and the deployments are as they were.
  pub record Served (distcc : Distcc) (w v : W) : Type 0 where
    pub service : Service
    pub has : HasOwnService distcc service v
    pub passes : Passes w v
    pub deployments : SameDeployments w v

  Served-later :
      (distcc : Distcc) (u w v : W)
      → Served distcc u w
      → Passes w v
      → SameDeployments w v
      → SameServices w v
      → Served distcc u v
  Served-later distcc u w v served passes deployments services = record {
    service = served.service;
    has =
        (services distcc.metadata.namespace distcc.spec.service_name ∙ served.has.0, served.has.1);
    passes = Passes-trans u w v served.passes passes;
    deployments = λ ns n. deployments ns n ∙ served.deployments ns n;
  }

  module _ (distcc : Distcc) where
    get_or_create-Served :
        (s : Run W)
        → OwnServiceOrMissing distcc s.world
        → (served : Served distcc s.world (get_or_create_service distcc s).1.world)
          × ((get_or_create_service distcc s).0.0 ≡ ok served.service)
    unfolding get_or_create_service new_service
    get_or_create-Served s (OwnServiceOrMissing.own service cached ours) = rw cached (
      record {
        service = service;
        has = (cached, ours);
        passes = (omega arith, λ ns selector. refl);
        deployments = λ ns n. refl;
      },
      refl,
    )
    get_or_create-Served s (OwnServiceOrMissing.missing e cached absent) =
        let (answer, accepted, owners, stored) =
          prompt.service_created (new_service distcc) s.world e cached absent in
        let (clock, deployments, claims) =
          prompt.create_service_later (new_service distcc) s.world in
        rw (cached, absent)
          (
            record {
              service = answer;
              has = (stored, own_new_service distcc answer owners);
              passes = (clock, claims);
              deployments = deployments;
            },
            accepted,
          )

    -- After the second phase the service is there.
    sync_service-Served :
        (s : Run W)
        → distcc.spec.service_name ≢ ""
        → OwnServiceOrMissing distcc s.world
        → ((sync_service distcc s).0.1 ≡ none)
          × Served distcc s.world (sync_service distcc s).1.world
    unfolding sync_service
    sync_service-Served s named own_or_missing =
        let (served, found) = get_or_create-Served s own_or_missing in
        let r = (get_or_create_service distcc s).0 in
        rw
          (
            str_eq_ne distcc.spec.service_name "" named,
            checked distcc r served.service found served.has.1,
          )
          (refl, served)

    -- The update of the status leaves deployments and services.
    update_status-Served :
        (updated : UpdateState) (u : W) (s : Run W)
        → Served distcc u s.world
        → ((update_distcc_status distcc updated s).0 ≡ none)
          × Served distcc u (update_distcc_status distcc updated s).1.world
    unfolding update_distcc_status
    update_status-Served updated u s served =
        let w = (cluster.now s.world).1 in
        let copy = with_times distcc updated (to_kube_time (cluster.now s.world).0) in
        let (deployments, services, claims) = prompt.now_same s.world in
        let ticked =
          Served-later distcc u s.world w served (now-Passes s.world) deployments services in
        let (answer, accepted) = prompt.distcc_updated copy w in
        let (clock, deployments', services', claims') = prompt.update_distcc_later copy w in
        elim (Bool-cases (any updated)) [
          | inl changed ↦
              rw (changed, accepted)
                (refl, Served-later distcc u w _ ticked (clock, claims') deployments' services')
          | inr settled ↦ rw settled (refl, served)
        ]

    after_service-Served :
        (state : UpdateState) (r : Bool × Option GoError) (u : W) (s : Run W)
        → r.1 ≡ none
        → Served distcc u s.world
        → ((after_service distcc state r s).0.1 ≡ none)
          × Served distcc u (after_service distcc state r s).1.world
    unfolding after_service
    after_service-Served state (created, some e) u s fine served = absurd (ground arith)
    after_service-Served state (created, none) u s fine served =
        update_status-Served (record state { service_created = created }) u s served

    -- After the deployment is in order, the rest of a Sync ends without an error, with the service there.
    pub after_deployment-Served :
        (r : UpdateState × Option GoError) (s : Run W)
        → r.1 ≡ none
        → distcc.spec.service_name ≢ ""
        → OwnServiceOrMissing distcc s.world
        → ((after_deployment distcc r s).0.1 ≡ none)
          × Served distcc s.world (after_deployment distcc r s).1.world
    unfolding after_deployment
    after_deployment-Served (state, some e) s clean named own_or_missing = absurd (ground arith)
    after_deployment-Served (state, none) s clean named own_or_missing =
        let (fine, served) = sync_service-Served s named own_or_missing in
        after_service-Served state (sync_service distcc s).0 s.world (sync_service distcc s).1 fine
          served
