-- ===== src/Distcc/Convergence/Settling.antt =====
-- A Distcc is in order after one `Sync`, in a cluster that takes its writes: the next one has nothing
-- to do.
use k8cc.Prelude.{◌≡◌, ◌≢◌, ◌∙◌, refl, false, none, some, arith}
use k8cc.Prelude.Int.{ℤ}
use k8cc.Clock.{Time}
use k8cc.Kube.{Deployment}
use k8cc.Types.{Distcc, DistccStatus}
use k8cc.Library.{Library}
use k8cc.Cluster.{Cluster, Run}
use k8cc.Distcc.{sync, sync_deployment, desired_replicas}
use k8cc.Distcc.Replicas.{need_scale}
use k8cc.Distcc.Reconcile.{later, sync_settled}
use k8cc.Distcc.Convergence.{
  SameServices, Prompt, OwnOrMissing, OwnServiceOrMissing, InOrder, Passes, Demands,
}
use k8cc.Distcc.Convergence.Deploying.{Passes-trans, Demands-later, sync_deployment-Leaves}
use k8cc.Distcc.Convergence.Serving.{after_deployment-Served}

enough :
    (now : Time) (distcc : Distcc) (deploy : Deployment) (desired : ℤ)
    → deploy.spec.replicas ≡ some desired
    → need_scale now distcc deploy desired ≡ false
unfolding need_scale
enough now distcc deploy desired h = ground arith

module _ ⦃lib : Library⦄ {W : Type 0} ⦃cluster : Cluster W⦄ ⦃prompt : Prompt W⦄ (distcc : Distcc)
    (desired : ℤ) where
  own_service_later :
      (w v : W) → SameServices w v → OwnServiceOrMissing distcc w → OwnServiceOrMissing distcc v
  own_service_later w v services (OwnServiceOrMissing.own service cached ours) =
      OwnServiceOrMissing.own service
        (services distcc.metadata.namespace distcc.spec.service_name ∙ cached) ours
  own_service_later w v services (OwnServiceOrMissing.missing e cached absent) =
      OwnServiceOrMissing.missing e
        (services distcc.metadata.namespace distcc.spec.service_name ∙ cached) absent

  -- In a cluster that takes its writes, one Sync of a Distcc with both names set and no downscale
  -- window, whose deployment and service are missing or its own, ends without an error: the deployment
  -- has the replicas that the claims ask for, the service is there, and the Distcc controls both.
  pub sync_reaches :
      (s : Run W)
      → distcc.spec.deployment_name ≢ ""
      → distcc.spec.service_name ≢ ""
      → distcc.spec.downscale_window ≡ none
      → OwnOrMissing distcc s.world
      → OwnServiceOrMissing distcc s.world
      → Demands distcc desired s.world
      → ((sync distcc s).0.1 ≡ none)
        × InOrder distcc desired (sync distcc s).1.world
        × Passes s.world (sync distcc s).1.world
  unfolding sync
  sync_reaches s named service_named windowless deployment service demands =
      let (r, t) = sync_deployment distcc s in
      let (clean, left) =
        sync_deployment-Leaves distcc desired s named windowless deployment demands in
      let (fine, served) =
        after_deployment-Served distcc r t clean service_named
          (own_service_later s.world t.world left.services service) in
      let (deploy, (cached, ours), replicas) = left.result in
      let still =
        served.deployments distcc.metadata.namespace distcc.spec.deployment_name ∙ cached in
      (
        fine,
        ((deploy, (still, ours), replicas), (served.service, served.has)),
        Passes-trans s.world t.world _ left.passes served.passes,
      )

  -- Once they are in order, a Sync of the Distcc with any status changes nothing.
  InOrder-settled :
      (status : DistccStatus) (t : Run W)
      → distcc.spec.deployment_name ≢ ""
      → distcc.spec.service_name ≢ ""
      → InOrder distcc desired t.world
      → Demands distcc desired t.world
      → sync (record distcc { status = status }) t
        ≡ ((false, none), record t { world = later (later t.world) })
  unfolding desired_replicas
  InOrder-settled status t named service_named
        ((deploy, (cached, ours), replicas), (service, (there, owned))) demands =
      let copy : Distcc = record distcc { status = status } in
      let (deployments, services, claims) = prompt.now_same t.world in
      let (deployments', services', claims') = prompt.now_same (later t.world) in
      sync_settled copy t deploy service desired (named, cached) ours
        (demands t (omega arith, λ ns selector. refl))
        (enough (cluster.now (later t.world)).0 copy deploy desired replicas)
        (
          service_named,
          services' distcc.metadata.namespace distcc.spec.service_name
              ∙ services distcc.metadata.namespace distcc.spec.service_name
              ∙ there,
        )
        owned

  -- In a cluster that takes its writes, two Syncs of a Distcc with both names set and no downscale
  -- window, whose deployment and service are missing or its own, and whose claims ask for the same
  -- replicas all the while: after the first, which ends without an error, the deployment has the
  -- replicas, the service is there, and the Distcc controls both; the second, whatever status the first
  -- has left, reports no change and no error, and writes nothing.
  pub sync-sync_settled :
      (s : Run W) (status : DistccStatus)
      → distcc.spec.deployment_name ≢ ""
      → distcc.spec.service_name ≢ ""
      → distcc.spec.downscale_window ≡ none
      → OwnOrMissing distcc s.world
      → OwnServiceOrMissing distcc s.world
      → Demands distcc desired s.world
      → ((sync distcc s).0.1 ≡ none)
        × InOrder distcc desired (sync distcc s).1.world
        × (sync (record distcc { status = status }) (sync distcc s).1 ≡ (
          (false, none),
          record (sync distcc s).1 { world = later (later (sync distcc s).1.world) },
        ))
  sync-sync_settled s status named service_named windowless deployment service demands =
      let (fine, order, passes) =
        sync_reaches s named service_named windowless deployment service demands in
      (
        fine,
        order,
        InOrder-settled status (sync distcc s).1 named service_named order
            (Demands-later distcc desired s.world (sync distcc s).1.world passes demands),
      )
