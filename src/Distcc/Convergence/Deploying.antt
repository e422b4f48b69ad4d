-- ===== src/Distcc/Convergence/Deploying.antt =====
-- The first phase of `Sync`, on the deployment, in a cluster that takes its writes.
use k8cc.Prelude.{
  ◌≡◌, ◌≢◌, ◌∙◌, refl, Bool, true, false, none, some, Option, arith, Bool-cases, inl, inr,
}
use k8cc.Prelude.Int.{ℤ}
use k8cc.Prelude.Text.{str_eq_ne}
use k8cc.Clock.{Time}
use k8cc.GoError.{Result, ok, err}
use k8cc.Kube.{Deployment}
use k8cc.Types.{Distcc, group_version_kind}
use k8cc.Library.{Library}
use k8cc.Cluster.{Cluster, Run}
use k8cc.Distcc.{
  UpdateState, no_update, get_or_create_deployment, scale, check_deployment, sync_deployment,
  desired_replicas, scaled,
}
use k8cc.Distcc.Objects.{new_deployment}
use k8cc.Distcc.Replicas.{need_scale}
use k8cc.Distcc.Convergence.{
  SameServices, Prompt, OwnOrMissing, HasOwn, HasReplicas, Passes, Demands,
}

not_needed :
    (now : Time) (distcc : Distcc) (deploy : Deployment) (desired : ℤ)
    → distcc.spec.downscale_window ≡ none
    → need_scale now distcc deploy desired ≡ false
    → deploy.spec.replicas ≡ some desired
unfolding need_scale
not_needed now distcc deploy desired windowless h = ground arith

pub own_new :
    ⦃lib : Library⦄ (distcc : Distcc) (answer : Deployment) (replicas : Option ℤ)
    → answer.metadata.owner_references ≡ (new_deployment distcc replicas).metadata.owner_references
    → lib.is_controlled_by answer.metadata distcc.metadata ≡ true
unfolding new_deployment
own_new ⦃lib⦄ distcc answer replicas owners =
    lib.is_controlled_by_new answer.metadata distcc.metadata (group_version_kind "Distcc") owners

module _ ⦃lib : Library⦄ {W : Type 0} ⦃cluster : Cluster W⦄ ⦃prompt : Prompt W⦄ where
  -- What a phase on the deployment leaves: its result, and the services as they were.
  pub record Leaves (P : W → Type 0) (w v : W) : Type 0 where
    pub result : P v
    pub passes : Passes w v
    pub services : SameServices w v

  pub Passes-trans : (u v w : W) → Passes u v → Passes v w → Passes u w
  Passes-trans u v w (a, f) (b, g) = (omega arith, λ ns selector. g ns selector ∙ f ns selector)

  pub Leaves-trans : {P Q : W → Type 0} (u v w : W) → Leaves P u v → Leaves Q v w → Leaves Q u w
  Leaves-trans u v w first second = record {
    result = second.result;
    passes = Passes-trans u v w first.passes second.passes;
    services = λ ns n. second.services ns n ∙ first.services ns n;
  }

  pub Demands-later :
      (distcc : Distcc) (desired : ℤ) (w v : W)
      → Passes w v
      → Demands distcc desired w
      → Demands distcc desired v
  Demands-later distcc desired w v passes demands t further =
      demands t (Passes-trans w v t.world passes further)

  pub now-Passes : (w : W) → Passes w (cluster.now w).1
  now-Passes w = let (low, high) = prompt.now_reading w in (omega arith, (prompt.now_same w).2)

  module _ (distcc : Distcc) where
    -- The answer is the deployment in the cache, and it is ours.
    abbrev pub Found : Result Deployment × Bool → W → Type 0
    Found r w = (deploy : Deployment) × (r.0 ≡ ok deploy) × HasOwn distcc deploy w

    or_create-Leaves :
        (s : Run W)
        → OwnOrMissing distcc s.world
        → Leaves
            (Found (get_or_create_deployment distcc s).0)
            s.world
            (get_or_create_deployment distcc s).1.world
    unfolding get_or_create_deployment new_deployment
    or_create-Leaves s (OwnOrMissing.own deploy cached ours) = rw cached (record {
      result = (deploy, refl, (cached, ours));
      passes = (omega arith, λ ns selector. refl);
      services = λ ns n. refl;
    })
    or_create-Leaves s (OwnOrMissing.missing e cached absent) =
        let (answer, accepted, owners, stored) =
          prompt.deployment_created (new_deployment distcc none) s.world e cached absent in
        let (clock, services, claims) =
          prompt.create_deployment_later (new_deployment distcc none) s.world in
        rw (cached, absent)
          (record {
            result = (answer, accepted, (stored, own_new distcc answer none owners));
            passes = (clock, claims);
            services = services;
          })

    scale-Leaves :
        (deploy : Deployment) (state : UpdateState) (desired : ℤ) (s : Run W)
        → distcc.spec.downscale_window ≡ none
        → HasOwn distcc deploy s.world
        → ((scale distcc deploy state (ok desired) s).0.1 ≡ none)
          × Leaves
              (HasReplicas distcc desired)
              s.world
              (scale distcc deploy state (ok desired) s).1.world
    unfolding scale new_deployment
    scale-Leaves deploy state desired s windowless (cached, ours) =
        let w = (cluster.now s.world).1 in
        let (deployments, services, claims) = prompt.now_same s.world in
        let passed = now-Passes s.world in
        let still = deployments distcc.metadata.namespace distcc.spec.deployment_name ∙ cached in
        elim (Bool-cases (need_scale (cluster.now s.world).0 distcc deploy desired)) [
          | inl needed ↦
              let (answer, accepted, owners, replicas, stored) =
                prompt.deployment_updated (new_deployment distcc (some desired)) deploy w still in
              let (clock, same, kept) =
                prompt.update_deployment_later (new_deployment distcc (some desired)) w in
              rw (needed, accepted)
                (
                  refl,
                  record {
                    result = (
                      answer,
                      (stored, own_new distcc answer (some desired) owners),
                      replicas desired refl,
                    );
                    passes = Passes-trans s.world w _ passed (clock, kept);
                    services = λ ns n. same ns n ∙ services ns n;
                  },
                )
          | inr fine ↦ rw fine (
            refl,
            record {
              result = (
                deploy,
                (still, ours),
                not_needed (cluster.now s.world).0 distcc deploy desired windowless fine,
              );
              passes = passed;
              services = services;
            },
          )
        ]

    check-Leaves :
        (desired : ℤ) (r : Result Deployment × Bool) (s : Run W)
        → distcc.spec.downscale_window ≡ none
        → Found r s.world
        → Demands distcc desired s.world
        → ((check_deployment distcc r s).0.1 ≡ none)
          × Leaves (HasReplicas distcc desired) s.world (check_deployment distcc r s).1.world
    unfolding check_deployment desired_replicas
    check-Leaves desired (err e, created) s windowless (deploy, found, own) demands =
        absurd (ground arith)
    check-Leaves desired (ok d, created) s windowless (deploy, found, (cached, ours)) demands =
        let same : deploy ≡ d = ground arith in
        let state : UpdateState = record no_update { stateful_created = created } in
        let t = (desired_replicas distcc s).1 in
        let wants = demands s (omega arith, λ ns selector. refl) in
        let (deployments, services, claims) = prompt.now_same s.world in
        let still = deployments distcc.metadata.namespace distcc.spec.deployment_name ∙ cached in
        let (fine, scaled) =
          scale-Leaves d state desired t windowless (rw same at still, rw same at ours) in
        let passed : Leaves (HasOwn distcc d) s.world t.world = record {
          result = (rw same at still, rw same at ours);
          passes = now-Passes s.world;
          services = services;
        } in
        rw (rw same at ours, wants) (fine, Leaves-trans s.world t.world _ passed scaled)

    -- After the first phase the deployment has the replicas that the claims ask for.
    pub sync_deployment-Leaves :
        (desired : ℤ) (s : Run W)
        → distcc.spec.deployment_name ≢ ""
        → distcc.spec.downscale_window ≡ none
        → OwnOrMissing distcc s.world
        → Demands distcc desired s.world
        → ((sync_deployment distcc s).0.1 ≡ none)
          × Leaves (HasReplicas distcc desired) s.world (sync_deployment distcc s).1.world
    unfolding sync_deployment
    sync_deployment-Leaves desired s named windowless own_or_missing demands =
        let (r, t) = get_or_create_deployment distcc s in
        let first = or_create-Leaves s own_or_missing in
        let (fine, checked) =
          check-Leaves desired r t windowless first.result
            (Demands-later distcc desired s.world t.world first.passes demands) in
        rw (str_eq_ne distcc.spec.deployment_name "" named)
          (fine, Leaves-trans s.world t.world _ first checked)
