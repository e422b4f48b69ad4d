-- ===== src/Samples/Objects.antt =====
-- Small objects for the tests.
use k8cc.Prelude.{String, true, [], ◌∷◌, Option, none, some}
use k8cc.Prelude.Int.{pos}
use k8cc.Clock.{Time}
use k8cc.Kube.{PodTemplateSpec, LabelSelector, Deployment, Service, no_meta, OwnerReference}
use k8cc.Types.{Distcc, DistccClaim, DistccClient, DistccClientClaim, Secret}

abbrev pub template : PodTemplateSpec
template = record { labels = ("app", "distcc") ∷ []; volumes = []; rest = "containers" }

-- 8 replicas at most, 3 for each user, a lease of ten minutes, a window of five.
abbrev pub dev : Distcc
dev = record {
  metadata = record no_meta {
    name = "dev";
    namespace = "default";
    uid = "u1";
    labels = ("track", "unstable") ∷ [];
  };
  spec = record {
    deployment_name = "dev-deploy";
    service_name = "dev-svc";
    selector = none;
    min_replicas = some (pos 1);
    max_replicas = pos 8;
    user_replicas = pos 3;
    lease_duration = pos 600_000_000_000;
    downscale_window = some (pos 300_000_000_000);
    template = template;
  };
  status = record { last_update_time = none; last_scale_time = some 1_000_000_000_000 };
}

abbrev pub claim_until : Option Time → DistccClaim
claim_until t = record {
  metadata = record no_meta {
    name = "mike-dev";
    namespace = "default";
    uid = "u2";
    labels = ("track", "unstable") ∷ [];
  };
  spec = record { distcc_name = "dev"; user_name = "mike" };
  status = record { expiration_time = t };
}

abbrev pub editor_labels : LabelSelector
editor_labels = record { match_labels = some (("app", "editor") ∷ []); match_expressions = [] }

-- A lease of ten minutes.
abbrev pub editor : DistccClient
editor = record {
  metadata = record no_meta {
    name = "editor";
    namespace = "default";
    uid = "u3";
    labels = ("app", "editor") ∷ [];
  };
  spec = record {
    lease_duration = pos 600_000_000_000;
    selector = some editor_labels;
    template = template;
  };
}

abbrev pub secret_named : String → Secret
secret_named name = record {
  name = name;
  volume_source = record { secret_name = name; default_mode = none };
}

-- A claim of the user "mike" with a deployment and a service of its own.
abbrev pub mike_until : Option Time → DistccClientClaim
mike_until t = record {
  metadata = record no_meta { name = "mike-editor"; namespace = "default"; uid = "u4" };
  spec = record { distcc_client_name = "editor"; user_name = "mike"; secrets = [] };
  status = record {
    expiration_time = t;
    deployment = some (record { name = "mike-editor-1" });
    service = some (record { name = "mike-editor-2" });
  };
}

abbrev owned_by_mike : OwnerReference
owned_by_mike = record {
  api_version = "k8cc.io/v1alpha1";
  kind = "DistccClientClaim";
  name = "mike-editor";
  uid = "u4";
  controller = true;
}

abbrev pub mike_deployment : Deployment
mike_deployment = record {
  metadata = record no_meta {
    name = "mike-editor-1";
    namespace = "default";
    owner_references = owned_by_mike ∷ [];
  };
  spec = record { replicas = some (pos 1); selector = none; template = template; strategy = none };
}

abbrev pub mike_service : Service
mike_service = record {
  metadata = record no_meta {
    name = "mike-editor-2";
    namespace = "default";
    owner_references = owned_by_mike ∷ [];
  };
  spec = record {
    ports = record { port = 22; node_port = 30022 } ∷ [];
    selector = none;
    type = "NodePort";
  };
}
