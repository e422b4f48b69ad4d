-- ===== src/ApiService/Claims.antt =====
-- pkg/apiserver/service/service.go: the claims that the service creates, and their names.
use k8cc.Prelude.{ℕ, String, none, some, List, [], ◌∷◌, if◌then◌else◌}
use k8cc.Prelude.Text.{str_eq, join}
use k8cc.Kube.{no_meta}
use k8cc.Types.{Distcc, DistccClaim, DistccClient, DistccClientClaim, Secret}

-- fmt.Sprintf("%s-%s", u, resourceName)
unfoldable pub make_claim_name : String → String → String
make_claim_name u resource_name = join "-" u resource_name

unfoldable pub new_distcc_claim : String → Distcc → DistccClaim
unfolding make_claim_name
new_distcc_claim user distcc = record {
  metadata = record no_meta {
    name = make_claim_name user distcc.metadata.name;
    namespace = distcc.metadata.namespace;
    labels = distcc.metadata.labels;
  };
  spec = record { distcc_name = distcc.metadata.name; user_name = user };
  status = record { expiration_time = none };
}

-- 0755
abbrev pub secret_mode : ℕ
secret_mode = 493

unfoldable pub secrets_of : String → List Secret
secrets_of secret_name =
    if str_eq secret_name ""
    then []
    else record {
      name = "ssh";
      volume_source = record { secret_name = secret_name; default_mode = some secret_mode };
    }
      ∷ []

unfoldable pub new_distcc_client_claim : String → DistccClient → String → DistccClientClaim
unfolding make_claim_name secrets_of
new_distcc_client_claim user client secret_name = record {
  metadata = record no_meta {
    name = make_claim_name user client.metadata.name;
    namespace = client.metadata.namespace;
    labels = client.metadata.labels;
  };
  spec = record {
    distcc_client_name = client.metadata.name;
    user_name = user;
    secrets = secrets_of secret_name;
  };
  status = record { expiration_time = none; deployment = none; service = none };
}
