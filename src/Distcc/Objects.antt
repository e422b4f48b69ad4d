-- ===== src/Distcc/Objects.antt =====
-- pkg/controller/distcc/distcc_controller.go: `newDeployment` and `newService`.
use k8cc.Prelude.{ℕ, Option, none, some, [], ◌∷◌}
use k8cc.Prelude.Int.{ℤ}
use k8cc.Kube.{LabelSelector, Labels, Deployment, Service, no_meta}
use k8cc.Types.{Distcc, group_version_kind}
use k8cc.Library.{Library}

-- DistccPort
abbrev pub distcc_port : ℕ
distcc_port = 3632

-- selector = distcc.Spec.Selector.MatchLabels, unless there is no selector
unfoldable pub match_labels_of : Option LabelSelector → Option Labels
match_labels_of none = none
match_labels_of (some selector) = selector.match_labels

module _ ⦃lib : Library⦄ where
  unfoldable pub new_deployment : Distcc → Option ℤ → Deployment
  new_deployment distcc replicas = record {
    metadata = record no_meta {
      name = distcc.spec.deployment_name;
      namespace = distcc.metadata.namespace;
      labels = distcc.metadata.labels;
      owner_references = lib.new_controller_ref distcc.metadata (group_version_kind "Distcc") ∷ [];
    };
    spec = record {
      replicas = replicas;
      selector = distcc.spec.selector;
      template = distcc.spec.template;
      strategy = none;
    };
  }

  unfoldable pub new_service : Distcc → Service
  unfolding match_labels_of
  new_service distcc = record {
    metadata = record no_meta {
      name = distcc.spec.service_name;
      namespace = distcc.metadata.namespace;
      labels = distcc.metadata.labels;
      owner_references = lib.new_controller_ref distcc.metadata (group_version_kind "Distcc") ∷ [];
    };
    spec = record {
      ports = record { port = distcc_port; node_port = 0 } ∷ [];
      selector = match_labels_of distcc.spec.selector;
      type = "ClusterIP";
    };
  }
