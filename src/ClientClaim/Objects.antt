-- ===== src/ClientClaim/Objects.antt =====
-- pkg/controller/distccclientclaim/distccclientclaim_controller.go: `newDeploy` and `newService`.
-- The loop over the secrets stores `&secret.VolumeSource`, the address of a field of the loop
-- variable. The build has no go.mod, so the loop has one such variable (Go before 1.22): all the
-- volumes point to one cell, and what they show is what the cell holds when they are read.
use k8cc.Prelude.{ℕ, String, Option, none, some, List, [], ◌∷◌, ◌++◌, map}
use k8cc.Prelude.Int.{pos}
use k8cc.Prelude.Text.{◌<>◌}
use k8cc.Kube.{Volume, VolumeSource, secret, other_source, Deployment, Service, no_meta}
use k8cc.Types.{DistccClient, DistccClientClaim, Secret, group_version_kind}
use k8cc.Library.{Library}
use k8cc.ClientClaim.Labels.{get_labels_for_user, get_selector_for_user}

-- SSHPort
abbrev pub ssh_port : ℕ
ssh_port = 22

-- The source of a volume under construction: its own, or the field of the loop variable.
pub data SourceRef : Type 0 where
  own : VolumeSource → SourceRef
  of_loop_variable : SourceRef

pub record PendingVolume : Type 0 where
  pub name : String
  pub source : SourceRef

-- The loop variable and the volumes so far.
pub record LoopState : Type 0 where
  pub variable : Option Secret
  pub volumes : List PendingVolume

unfoldable pub pending : Volume → PendingVolume
pending v = record { name = v.name; source = own v.source }

unfoldable pub add_secret : LoopState → Secret → LoopState
add_secret st s = record {
  variable = some s;
  volumes = st.volumes ++ record { name = s.name; source = of_loop_variable } ∷ [];
}

unfoldable pub add_secrets : LoopState → List Secret → LoopState
unfolding add_secret
add_secrets st [] = st
add_secrets st (s ∷ secrets) = add_secrets (add_secret st s) secrets

-- What a reference shows; without a secret no volume refers to the loop variable.
unfoldable pub source_at : Option Secret → SourceRef → VolumeSource
source_at variable (own source) = source
source_at none of_loop_variable = other_source ""
source_at (some s) of_loop_variable = secret s.volume_source

unfoldable pub resolved : Option Secret → PendingVolume → Volume
unfolding source_at
resolved variable v = record { name = v.name; source = source_at variable v.source }

-- The volumes of the template behind the loop.
unfoldable pub volumes_with : List Volume → List Secret → List Volume
unfolding add_secrets resolved pending
volumes_with volumes secrets =
    let end = add_secrets (record { variable = none; volumes = map pending volumes }) secrets in
    map (resolved end.variable) end.volumes

module _ ⦃lib : Library⦄ where
  unfoldable pub new_deploy : DistccClientClaim → DistccClient → Deployment
  unfolding get_labels_for_user get_selector_for_user volumes_with
  new_deploy claim client =
      let labels = get_labels_for_user client.metadata.labels claim.spec.user_name in
      record {
        metadata = record no_meta {
          generate_name = claim.metadata.name <> "-";
          namespace = claim.metadata.namespace;
          owner_references =
              lib.new_controller_ref claim.metadata (group_version_kind "DistccClientClaim") ∷ [];
          labels = labels;
        };
        spec = record {
          replicas = some (pos 1);
          selector = get_selector_for_user client.spec.selector claim.spec.user_name;
          template = record client.spec.template {
            volumes = volumes_with client.spec.template.volumes claim.spec.secrets;
            labels = labels;
          };
          strategy = some "RollingUpdate";
        };
      }

  unfoldable pub new_service : DistccClientClaim → DistccClient → Service
  unfolding get_labels_for_user
  new_service claim client =
      let selector = get_labels_for_user client.metadata.labels claim.spec.user_name in
      record {
        metadata = record no_meta {
          generate_name = claim.metadata.name <> "-";
          namespace = claim.metadata.namespace;
          owner_references =
              lib.new_controller_ref claim.metadata (group_version_kind "DistccClientClaim") ∷ [];
          labels = selector;
        };
        spec = record {
          ports = record { port = ssh_port; node_port = 0 } ∷ [];
          selector = some selector;
          type = "NodePort";
        };
      }
