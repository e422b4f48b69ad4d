-- ===== src/Distcc/Ownership.antt =====
-- What `Sync` of pkg/controller/distcc/distcc_controller.go writes.
use k8cc.Prelude.{◌≡◌, refl, Bool, true, Option, none, some}
use k8cc.Prelude.Int.{ℤ}
use k8cc.GoError.{GoError, Result, ok, err}
use k8cc.Kube.{Deployment, Service, ObjectMeta}
use k8cc.Types.{Distcc, group_version_kind}
use k8cc.Library.{Library}
use k8cc.Conv.{to_kube_time}
use k8cc.Cluster.{
  Cluster, Run, Write, created_deployment, updated_deployment, created_service, updated_distcc,
}
use k8cc.Cluster.Writes.{Adds, Adds-refl, Adds-trans, Adds-if, Adds-write, Adds-read}
use k8cc.Distcc.{
  UpdateState, or_create_deployment, or_create_service, desired_replicas, scale, check_deployment,
  sync_deployment, sync_service, with_times, update_distcc_status, after_service, after_deployment,
  sync,
}
use k8cc.Distcc.Objects.{new_deployment, new_service}

module _ ⦃lib : Library⦄ where
  -- The object has the given name, in the namespace of the Distcc, and is controlled by it.
  pub record IsOwnObject (distcc : Distcc) (m : ObjectMeta) : Type 0 where
    pub namespaced : m.namespace ≡ distcc.metadata.namespace
    pub controlled : lib.is_controlled_by m distcc.metadata ≡ true

  -- A deployment or service of this Distcc, under the name that the spec gives, or the Distcc itself
  -- with its status changed.
  abbrev pub IsOwnWrite : Distcc → Write → Type 0
  IsOwnWrite distcc (created_deployment d) =
      IsOwnObject distcc d.metadata
      × (d.metadata.name ≡ distcc.spec.deployment_name)
      × (d.spec.replicas ≡ none)
  IsOwnWrite distcc (updated_deployment d) =
      IsOwnObject distcc d.metadata
      × (d.metadata.name ≡ distcc.spec.deployment_name)
      × (d.spec.template ≡ distcc.spec.template)
  IsOwnWrite distcc (created_service d) =
      IsOwnObject distcc d.metadata × (d.metadata.name ≡ distcc.spec.service_name)
  IsOwnWrite distcc (updated_distcc d) = (d.metadata ≡ distcc.metadata) × (d.spec ≡ distcc.spec)
  IsOwnWrite distcc _ = ⊥

module _ ⦃lib : Library⦄ where
  new_deployment-IsOwn :
      (distcc : Distcc) (replicas : Option ℤ)
      → IsOwnObject distcc (new_deployment distcc replicas).metadata
  unfolding new_deployment
  new_deployment-IsOwn distcc replicas = record {
    namespaced = refl;
    controlled = lib.is_controlled_by_new _ distcc.metadata (group_version_kind "Distcc") refl;
  }

  new_service-IsOwn : (distcc : Distcc) → IsOwnObject distcc (new_service distcc).metadata
  unfolding new_service
  new_service-IsOwn distcc = record {
    namespaced = refl;
    controlled = lib.is_controlled_by_new _ distcc.metadata (group_version_kind "Distcc") refl;
  }

module _ ⦃lib : Library⦄ {W : Type 0} ⦃cluster : Cluster W⦄ (distcc : Distcc) where
  or_create_deployment-Adds :
      (r : Result Deployment) (s : Run W)
      → Adds (IsOwnWrite distcc) s (or_create_deployment distcc r s).1
  unfolding or_create_deployment new_deployment
  or_create_deployment-Adds (ok deploy) s = Adds-refl s
  or_create_deployment-Adds (err e) s =
      Adds-if (lib.is_not_found e) _ _
        (Adds-write (created_deployment (new_deployment distcc none)) (cluster.create_deployment _)
          s (new_deployment-IsOwn distcc none, refl, refl))
        (Adds-refl s)

  or_create_service-Adds :
      (r : Result Service) (s : Run W) → Adds (IsOwnWrite distcc) s (or_create_service distcc r s).1
  unfolding or_create_service new_service
  or_create_service-Adds (ok deploy) s = Adds-refl s
  or_create_service-Adds (err e) s =
      Adds-if (lib.is_not_found e) _ _
        (Adds-write (created_service (new_service distcc)) (cluster.create_service _) s
          (new_service-IsOwn distcc, refl))
        (Adds-refl s)

  scale-Adds :
      (deploy : Deployment) (state : UpdateState) (r : Result ℤ) (s : Run W)
      → Adds (IsOwnWrite distcc) s (scale distcc deploy state r s).1
  unfolding scale new_deployment
  scale-Adds deploy state (err e) s = Adds-refl s
  scale-Adds deploy state (ok desired) s =
      let clock = Adds-read cluster.now s in
      Adds-if _ _ _
        (Adds-trans clock (
          Adds-write (updated_deployment (new_deployment distcc (some desired)))
            (cluster.update_deployment _) _
            (new_deployment-IsOwn distcc (some desired), refl, refl)))
        clock

  check_deployment-Adds :
      (r : Result Deployment) (created : Bool) (s : Run W)
      → Adds (IsOwnWrite distcc) s (check_deployment distcc (r, created) s).1
  unfolding check_deployment
  check_deployment-Adds (err e) created s = Adds-refl s
  check_deployment-Adds (ok deploy) created s =
      Adds-if _ _ _
        (Adds-trans (Adds-read cluster.now s) (scale-Adds deploy _ (desired_replicas distcc s).0 _))
        (Adds-refl s)

  sync_deployment-Adds : (s : Run W) → Adds (IsOwnWrite distcc) s (sync_deployment distcc s).1
  unfolding sync_deployment
  sync_deployment-Adds s =
      let found =
        cluster.cached_deployment s.world distcc.metadata.namespace distcc.spec.deployment_name in
      let (r, t) = or_create_deployment distcc found s in
      Adds-if _ _ _ (Adds-refl s)
        (Adds-trans (or_create_deployment-Adds found s) (check_deployment-Adds r.0 r.1 t))

  sync_service-Adds : (s : Run W) → Adds (IsOwnWrite distcc) s (sync_service distcc s).1
  unfolding sync_service
  sync_service-Adds s = Adds-if _ _ _ (Adds-refl s) (
      or_create_service-Adds
        (cluster.cached_service s.world distcc.metadata.namespace distcc.spec.service_name) s)

  update_distcc_status-Adds :
      (updated : UpdateState) (s : Run W)
      → Adds (IsOwnWrite distcc) s (update_distcc_status distcc updated s).1
  unfolding update_distcc_status
  update_distcc_status-Adds updated s =
      let copy = with_times distcc updated (to_kube_time (cluster.now s.world).0) in
      Adds-if _ _ _
        (Adds-trans (Adds-read cluster.now s)
          (Adds-write (updated_distcc copy) (cluster.update_distcc copy) _ (refl, refl)))
        (Adds-refl s)

  after_service-Adds :
      (state : UpdateState) (created : Bool) (e : Option GoError) (s : Run W)
      → Adds (IsOwnWrite distcc) s (after_service distcc state (created, e) s).1
  unfolding after_service
  after_service-Adds state created (some e) s = Adds-refl s
  after_service-Adds state created none s =
      update_distcc_status-Adds (record state { service_created = created }) s

  after_deployment-Adds :
      (state : UpdateState) (e : Option GoError) (s : Run W)
      → Adds (IsOwnWrite distcc) s (after_deployment distcc (state, e) s).1
  unfolding after_deployment
  after_deployment-Adds state (some e) s = Adds-refl s
  after_deployment-Adds state none s =
      let (r, t) = sync_service distcc s in
      Adds-trans (sync_service-Adds s) (after_service-Adds state r.0 r.1 t)

  -- Whatever the caches hold and whichever calls fail, every write of a Sync is the creation or the
  -- update of the deployment that the spec names, the creation of the service that it names, both in
  -- the namespace of the Distcc and controlled by it, or an update of the Distcc that leaves its
  -- metadata and its spec as they are.
  pub sync-IsOwnWrite : (s : Run W) → Adds (IsOwnWrite distcc) s (sync distcc s).1
  unfolding sync
  sync-IsOwnWrite s =
      let (r, t) = sync_deployment distcc s in
      Adds-trans (sync_deployment-Adds s) (after_deployment-Adds r.0 r.1 t)
