-- ===== src/ClientClaim/Volumes.antt =====
-- The volumes that pkg/controller/distccclientclaim/distccclientclaim_controller.go gives a claim.
use mathlib.Core.List.{append_assoc, map-append, append-nil}
use k8cc.Prelude.{◌≡◌, refl, ◌∙◌, ap, sym, Option, none, some, List, [], ◌∷◌, ◌++◌, map}
use k8cc.Kube.{Volume, secret}
use k8cc.Types.{Secret}
use k8cc.ClientClaim.Objects.{
  PendingVolume, LoopState, of_loop_variable, pending, add_secret, add_secrets, resolved,
  volumes_with,
}

abbrev volume_of_loop : Secret → PendingVolume
volume_of_loop s = record { name = s.name; source = of_loop_variable }

-- A volume under the name of one secret, with the source of another.
abbrev pub volume_from : Secret → Secret → Volume
volume_from last s = record { name = s.name; source = secret last.volume_source }

add_secrets-volumes :
    (st : LoopState) (secrets : List Secret)
    → (add_secrets st secrets).volumes ≡ st.volumes ++ map volume_of_loop secrets
unfolding add_secrets
add_secrets-volumes st [] = sym (append-nil st.volumes)
add_secrets-volumes st (s ∷ secrets) =
    add_secrets-volumes (add_secret st s) secrets
    ∙ append_assoc st.volumes (volume_of_loop s ∷ []) (map volume_of_loop secrets)

add_secrets-variable :
    (st : LoopState) (secrets : List Secret) (last : Secret)
    → (add_secrets st (secrets ++ last ∷ [])).variable ≡ some last
unfolding add_secrets
add_secrets-variable st [] last = refl
add_secrets-variable st (s ∷ secrets) last = add_secrets-variable (add_secret st s) secrets last

resolved-pending : (v : Option Secret) (vs : List Volume) → map (resolved v) (map pending vs) ≡ vs
unfolding resolved pending
resolved-pending v [] = refl
resolved-pending v (x ∷ vs) = ap (λ rest. x ∷ rest) (resolved-pending v vs)

resolved-volume_of_loop :
    (last : Secret) (secrets : List Secret)
    → map (resolved (some last)) (map volume_of_loop secrets) ≡ map (volume_from last) secrets
unfolding resolved
resolved-volume_of_loop last [] = refl
resolved-volume_of_loop last (s ∷ secrets) =
    ap (λ rest. volume_from last s ∷ rest) (resolved-volume_of_loop last secrets)

-- Behind the volumes of the template there is one volume for each secret of the claim, in order and
-- under its name, and all of them have the source of the last secret.
pub volumes_share_last :
    (volumes : List Volume) (secrets : List Secret) (last : Secret)
    → volumes_with volumes (secrets ++ last ∷ [])
      ≡ volumes ++ map (volume_from last) (secrets ++ last ∷ [])
unfolding volumes_with
volumes_share_last volumes secrets last =
    let start : LoopState = record { variable = none; volumes = map pending volumes } in
    rw
      (
        add_secrets-variable start secrets last,
        add_secrets-volumes start (secrets ++ last ∷ []),
        map-append (resolved (some last)) (map pending volumes)
            (map volume_of_loop (secrets ++ last ∷ [])),
        resolved-pending (some last) volumes,
        resolved-volume_of_loop last (secrets ++ last ∷ []),
      )
      refl
