-- ===== src/ApiService/Tests.antt =====
-- Tests of the leases, and their theorems at concrete inputs.
use k8cc.Prelude.{String, Action, ◌+◌, true, none, some, ◌≡◌, ◌≢◌, refl, [], ◌∷◌, arith, eq_iff}
use k8cc.Prelude.Int.{pos}
use k8cc.Clock.{Time}
use k8cc.GoError.{
  Result, ok, err, message, transient_error, sentinel, Sentinel, status, StatusReason,
}
use k8cc.Errors.{is_transient}
use k8cc.Types.{Distcc}
use k8cc.Cluster.{Cluster, Run, deleted_claim}
use k8cc.Cluster.Writes.{Adds}
use k8cc.Samples.{sample_library, answering, Answers, nothing}
use k8cc.Samples.Objects.{dev, editor}
use k8cc.Samples.Remotes.{sample_backoff, storing}
use k8cc.ApiService.Answers.{Tag, DistccLease, returned}
use k8cc.ApiService.Retry.{get_with_retry}
use k8cc.ApiService.Transport.{LeaseRequest, encode_response}
use k8cc.ApiService.Endpoints.{LeaseDistccResponse, put_lease_distcc, delete_lease_distcc}
use k8cc.Claim.{sync}
use k8cc.Claim.Outcomes.{updating}
use k8cc.ApiService.Granted.{created_claim_granted}
use k8cc.ApiService.Claims.{make_claim_name, new_distcc_claim}
use k8cc.ApiService.Operations.{Service, service}
use k8cc.ApiService.Endings.{ErrorSource, get_with_retry-ErrorSource, transient_times_out}
use k8cc.ApiService.Codes.{missing_tag_code, deletion_code}
use k8cc.ApiService.Middleware.{Logger, logging_middleware}
use k8cc.ApiService.Logged.{begun, logged_answers, log_failure_code}
use k8cc.ApiService.Leases.{Returns, lease_client-Returns}
use k8cc.ApiService.Ownership.{AsksLease, lease_distcc-AsksLease}
use k8cc.ApiService.{lease_distcc, lease_client}

abbrev start : Run Time
start = record { world = 1_000_500_000_000; writes = [] }

abbrev tag : Tag
tag = record { namespace = "default"; name = "dev" }

abbrev with_dev : Answers
with_dev = record nothing { distcc = ok dev; client = ok editor }

lease_distcc-AsksLease_example :
    Adds
      (AsksLease (storing with_dev) "mike" tag)
      start
      (lease_distcc ⦃cluster = answering with_dev⦄ ⦃store = storing with_dev⦄ "mike" tag start).1
lease_distcc-AsksLease_example =
    lease_distcc-AsksLease ⦃cluster = answering with_dev⦄ ⦃store = storing with_dev⦄ "mike" tag
      start

lease_client-Returns_example :
    Returns
      (lease_client ⦃cluster = answering with_dev⦄ ⦃store = storing with_dev⦄ "mike" tag start).0
lease_client-Returns_example =
    lease_client-Returns ⦃cluster = answering with_dev⦄ ⦃store = storing with_dev⦄ "mike" tag start

named : ◌≢◌ {A = String} "dev" ""
named e = ground (arith, eq_iff "dev" "")

created_claim_granted_example :
    (sync ⦃cluster = answering with_dev⦄ (new_distcc_claim "mike" dev) start).1
    ≡ updating ⦃cluster = answering with_dev⦄ (new_distcc_claim "mike" dev) 1_600_000_000_000 start
created_claim_granted_example =
    created_claim_granted ⦃cluster = answering with_dev⦄ "mike" dev start 600_000_000_000 named refl
      refl (omega arith)

-- Two users with dashes may share the name of a claim.
shared_name : make_claim_name "a-b" "c" ≡ make_claim_name "a" "b-c"
unfolding make_claim_name
shared_name = refl

abbrev unreachable : Action (Run Time) (Result Distcc)
unreachable s = (err (transient_error (message "timeout")), record s { world = s.world + 1 })

passing : is_transient (transient_error (message "timeout")) ≡ true
unfolding is_transient
passing = refl

-- A call that fails for ever.
transient_times_out_example :
    (get_with_retry unreachable start).0.1 ≡ some (sentinel Sentinel.err_wait_timeout)
transient_times_out_example =
    transient_times_out unreachable start
      (λ t. (transient_error (message "timeout"), refl, passing)) (λ w. refl)

get_with_retry-ErrorSource_example : ErrorSource unreachable (sentinel Sentinel.err_wait_timeout)
get_with_retry-ErrorSource_example =
    get_with_retry-ErrorSource unreachable start (sentinel Sentinel.err_wait_timeout)
      transient_times_out_example

abbrev asked : LeaseRequest
asked = record { user = "mike"; namespace = "default"; tag = "dev" }

missing_tag_code_example :
    (r : LeaseDistccResponse) × ((put_lease_distcc
        (service ⦃cluster = answering nothing⦄ ⦃store = storing nothing⦄)
        asked
        start).0
      ≡ returned r)
    × (encode_response r.err ≡ 500)
    × ((put_lease_distcc
          (service ⦃cluster = answering nothing⦄ ⦃store = storing nothing⦄)
          asked
          start).1.writes
        ≡ start.writes)
missing_tag_code_example =
    missing_tag_code ⦃cluster = answering nothing⦄ ⦃store = storing nothing⦄ asked start
      (status StatusReason.not_found "not found") refl refl refl

abbrev without_claim : Cluster Time
without_claim = record (answering with_dev) {
  delete_claim = λ namespace name w. (some (status StatusReason.not_found "not found"), w);
}

deletion_code_example :
    (encode_response
        (delete_lease_distcc
          (service ⦃cluster = without_claim⦄ ⦃store = storing with_dev⦄)
          asked
          start).0.err
      ≡ 404)
    × ((delete_lease_distcc
          (service ⦃cluster = without_claim⦄ ⦃store = storing with_dev⦄)
          asked
          start).1.writes
        ≡ deleted_claim "default" "mike-dev" ∷ [])
deletion_code_example =
    deletion_code ⦃cluster = without_claim⦄ ⦃store = storing with_dev⦄ asked start
      (some (status StatusReason.not_found "not found")) refl refl refl

abbrev quiet_logger : Logger Time
quiet_logger = record { log = λ line w. (none, w) }

abbrev full_disk : Logger Time
full_disk = record { log = λ line w. (some (message "disk full"), w) }

-- The service at work, a clock that moves, and a deletion that finds nothing.
abbrev at_work : Service Time
at_work = service ⦃cluster = without_claim⦄ ⦃store = storing with_dev⦄

logged_answers_example :
    ((logging_middleware ⦃cluster = without_claim⦄ quiet_logger at_work).lease_distcc "mike" tag
      start).0
    ≡ (at_work.lease_distcc "mike" tag (begun ⦃cluster = without_claim⦄ start)).0
logged_answers_example =
    (logged_answers ⦃cluster = without_claim⦄ quiet_logger at_work "mike" tag start
      (λ line w. refl)).0

abbrev granted_lease : DistccLease
granted_lease = record { endpoints = []; replicas = pos 2; expiration = 1_600_500_000_000 }

-- A service that grants each lease.
abbrev generous : Service Time
generous = record at_work { lease_distcc = λ user t s. (returned (granted_lease, none), s) }

log_failure_code_example :
    (r : LeaseDistccResponse) × ((put_lease_distcc
        (logging_middleware ⦃cluster = without_claim⦄ full_disk generous)
        asked
        start).0
      ≡ returned r)
    × (encode_response r.err ≡ 500)
log_failure_code_example =
    log_failure_code ⦃cluster = without_claim⦄ full_disk generous asked start granted_lease
      "disk full" refl (λ line w. refl)
