-- ===== src/Conv.antt =====
-- pkg/conv/time.go: the conversion of a time to Kubernetes' whole seconds.
use k8cc.Prelude.{◌≡◌}
use k8cc.Clock.{Time, truncate}
use k8cc.Library.{Library}

module _ ⦃lib : Library⦄ where
  unfoldable pub to_kube_time : Time → Time
  to_kube_time t = lib.rfc3339_copy t

  pub to_kube_time_lem : (t : Time) → to_kube_time t ≡ truncate t
  unfolding to_kube_time
  to_kube_time_lem t = lib.rfc3339_copy_lem t
