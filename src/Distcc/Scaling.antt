-- ===== src/Distcc/Scaling.antt =====
-- When pkg/controller/distcc/distcc_controller.go scales a deployment: `needScale`.
use k8cc.Prelude.{◌<◌, ◌≡◌, ◌↔◌, ◌⊎◌, true, Option, none, some, arith}
use k8cc.Prelude.Int.{ℤ, ◌<ℤ◌}
use k8cc.Clock.{Time, Duration, add}
use k8cc.Kube.{Deployment}
use k8cc.Types.{Distcc}
use k8cc.Distcc.Replicas.{window_passed, need_scale, need_scale_from}

-- No window is asked for, nothing was scaled yet, or the window has passed since then.
abbrev pub WindowPassed : Time → Option Duration → Option Time → Type 0
WindowPassed now none last = Unit
WindowPassed now (some window) none = Unit
WindowPassed now (some window) (some last) = add last window < now

window_passed_iff :
    (now : Time) (window : Option Duration) (last : Option Time)
    → (window_passed now window last ≡ true) ↔ WindowPassed now window last
unfolding window_passed
window_passed_iff now none last = (λ _. tt, λ _. λ i. true)
window_passed_iff now (some window) none = (λ _. tt, λ _. λ i. true)
window_passed_iff now (some window) (some last) = ground arith

-- The desired number is above the current one, or below it with the window passed.
abbrev pub NeedsScale : Time → Distcc → Option ℤ → ℤ → Type 0
NeedsScale now distcc none desired = Unit
NeedsScale now distcc (some current) desired =
    (current <ℤ desired)
    ⊎ ((desired <ℤ current)
        × WindowPassed now distcc.spec.downscale_window distcc.status.last_scale_time)

need_scale_from_iff :
    (now : Time) (distcc : Distcc) (replicas : Option ℤ) (desired : ℤ)
    → (need_scale_from now distcc replicas desired ≡ true) ↔ NeedsScale now distcc replicas desired
unfolding need_scale_from
need_scale_from_iff now distcc none desired = (λ _. tt, λ _. λ i. true)
need_scale_from_iff now distcc (some current) desired =
    ground (arith, window_passed_iff now distcc.spec.downscale_window distcc.status.last_scale_time)

-- A deployment is scaled exactly when its replicas are not set, or fewer than desired, or more than
-- desired and the downscale window is not set, nothing was scaled yet, or the window has passed.
pub need_scale_iff :
    (now : Time) (distcc : Distcc) (deploy : Deployment) (desired : ℤ)
    → (need_scale now distcc deploy desired ≡ true)
      ↔ NeedsScale now distcc deploy.spec.replicas desired
unfolding need_scale
need_scale_iff now distcc deploy desired =
    need_scale_from_iff now distcc deploy.spec.replicas desired
