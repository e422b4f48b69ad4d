-- ===== src/DeepCopy/Loads.antt =====
-- What a load of a cell gives: what it holds or, where it is of another kind, a zero value.
use k8cc.Prelude.{none, List, []}
use k8cc.Prelude.Int.{ℤ, pos}
use k8cc.Clock.{Time, Duration}
use k8cc.Kube.{LocalObjectReference}
use k8cc.Types.{DistccClaimSpec}
use k8cc.DeepCopy.Raw.{
  RawDistccSpec, RawDistccStatus, RawDistcc, RawClaimStatus, RawClaim, RawClientSpec, RawClient,
  RawSecret, RawClientClaimSpec, RawClientClaimStatus, RawClientClaim, RawList, Cell, Foreign,
  selector, int32, duration, time, reference, secrets, secret, distcc_spec, distcc_status, distcc,
  distccs, claim_spec, claim_status, claim, claims, client_spec, client, clients, client_claim_spec,
  client_claim_status, client_claim, client_claims, list_of,
}

abbrev pub zero_status : RawDistccStatus
zero_status = record { last_update_time = none; last_scale_time = none }

abbrev pub zero_claim_spec : DistccClaimSpec
zero_claim_spec = record { distcc_name = ""; user_name = "" }

abbrev pub zero_claim_status : RawClaimStatus
zero_claim_status = record { expiration_time = none }

abbrev pub zero_client_claim_spec : RawClientClaimSpec
zero_client_claim_spec = record { distcc_client_name = ""; user_name = ""; secrets = none }

abbrev pub zero_client_claim_status : RawClientClaimStatus
zero_client_claim_status = record { expiration_time = none; deployment = none; service = none }

abbrev pub zero_reference : LocalObjectReference
zero_reference = record { name = "" }

abbrev pub zero_list : RawList
zero_list = record { metadata = record { resource_version = ""; continue = "" }; items = none }

module _ {M P S U X : Type 0} (f : Foreign M P S U X) where
  abbrev pub zero_spec : RawDistccSpec P
  zero_spec = record {
    deployment_name = "";
    service_name = "";
    selector = none;
    min_replicas = none;
    max_replicas = pos 0;
    user_replicas = pos 0;
    lease_duration = pos 0;
    downscale_window = none;
    template = f.zero_template;
  }

  abbrev pub zero_distcc : RawDistcc M P
  zero_distcc = record { metadata = f.zero_meta; spec = zero_spec; status = zero_status }

  abbrev pub zero_claim : RawClaim M
  zero_claim = record { metadata = f.zero_meta; spec = zero_claim_spec; status = zero_claim_status }

  abbrev pub zero_client_spec : RawClientSpec P
  zero_client_spec = record { lease_duration = pos 0; selector = none; template = f.zero_template }

  abbrev pub zero_client : RawClient M P
  zero_client = record { metadata = f.zero_meta; spec = zero_client_spec }

  abbrev pub zero_secret : RawSecret U
  zero_secret = record { name = ""; volume_source = f.zero_source }

  abbrev pub zero_client_claim : RawClientClaim M
  zero_client_claim = record {
    metadata = f.zero_meta;
    spec = zero_client_claim_spec;
    status = zero_client_claim_status;
  }

  abbrev pub load_selector : Cell M P S U X → S
  load_selector (selector x) = x
  load_selector _ = f.zero_selector

  abbrev pub load_int32 : Cell M P S U X → ℤ
  load_int32 (int32 x) = x
  load_int32 _ = pos 0

  abbrev pub load_duration : Cell M P S U X → Duration
  load_duration (duration x) = x
  load_duration _ = pos 0

  abbrev pub load_time : Cell M P S U X → Time
  load_time (time x) = x
  load_time _ = 0

  abbrev pub load_reference : Cell M P S U X → LocalObjectReference
  load_reference (reference x) = x
  load_reference _ = zero_reference

  abbrev pub load_secrets : Cell M P S U X → List (RawSecret U)
  load_secrets (secrets x) = x
  load_secrets _ = []

  abbrev pub load_secret : Cell M P S U X → RawSecret U
  load_secret (secret x) = x
  load_secret _ = zero_secret

  abbrev pub load_distcc_spec : Cell M P S U X → RawDistccSpec P
  load_distcc_spec (distcc_spec x) = x
  load_distcc_spec _ = zero_spec

  abbrev pub load_distcc_status : Cell M P S U X → RawDistccStatus
  load_distcc_status (distcc_status x) = x
  load_distcc_status _ = zero_status

  abbrev pub load_distcc : Cell M P S U X → RawDistcc M P
  load_distcc (distcc x) = x
  load_distcc _ = zero_distcc

  abbrev pub load_distccs : Cell M P S U X → List (RawDistcc M P)
  load_distccs (distccs x) = x
  load_distccs _ = []

  abbrev pub load_claim_spec : Cell M P S U X → DistccClaimSpec
  load_claim_spec (claim_spec x) = x
  load_claim_spec _ = zero_claim_spec

  abbrev pub load_claim_status : Cell M P S U X → RawClaimStatus
  load_claim_status (claim_status x) = x
  load_claim_status _ = zero_claim_status

  abbrev pub load_claim : Cell M P S U X → RawClaim M
  load_claim (claim x) = x
  load_claim _ = zero_claim

  abbrev pub load_claims : Cell M P S U X → List (RawClaim M)
  load_claims (claims x) = x
  load_claims _ = []

  abbrev pub load_client_spec : Cell M P S U X → RawClientSpec P
  load_client_spec (client_spec x) = x
  load_client_spec _ = zero_client_spec

  abbrev pub load_client : Cell M P S U X → RawClient M P
  load_client (client x) = x
  load_client _ = zero_client

  abbrev pub load_clients : Cell M P S U X → List (RawClient M P)
  load_clients (clients x) = x
  load_clients _ = []

  abbrev pub load_client_claim_spec : Cell M P S U X → RawClientClaimSpec
  load_client_claim_spec (client_claim_spec x) = x
  load_client_claim_spec _ = zero_client_claim_spec

  abbrev pub load_client_claim_status : Cell M P S U X → RawClientClaimStatus
  load_client_claim_status (client_claim_status x) = x
  load_client_claim_status _ = zero_client_claim_status

  abbrev pub load_client_claim : Cell M P S U X → RawClientClaim M
  load_client_claim (client_claim x) = x
  load_client_claim _ = zero_client_claim

  abbrev pub load_client_claims : Cell M P S U X → List (RawClientClaim M)
  load_client_claims (client_claims x) = x
  load_client_claims _ = []

  abbrev pub load_list_of : Cell M P S U X → RawList
  load_list_of (list_of x) = x
  load_list_of _ = zero_list
