-- ===== src/ApiService/Logged.antt =====
-- What the callers of a logged service see.
use k8cc.Prelude.{String, ◌≡◌, ◌∙◌, refl, ap, Option, none, some}
use k8cc.Clock.{round}
use k8cc.GoError.{GoError, message}
use k8cc.Cluster.{Cluster, Run, read}
use k8cc.ApiService.Answers.{Tag, DistccLease, Outcome, returned, panicked}
use k8cc.ApiService.Transport.{LeaseRequest, encode_response}
use k8cc.ApiService.Operations.{Service}
use k8cc.ApiService.Middleware.{Logger, LogLine, with_log_error, or_log_error, logging_middleware}
use k8cc.ApiService.Endpoints.{
  LeaseDistccResponse, new_lease_distcc_response, put_lease_distcc, tag_of,
}

or_log_error-none : (e : Option GoError) → or_log_error e none ≡ e
or_log_error-none none = refl
or_log_error-none (some e) = refl

with_log_error-none : {A : Type 0} (r : Outcome (A × Option GoError)) → with_log_error r none ≡ r
with_log_error-none panicked = refl
with_log_error-none (returned (a, none)) = refl
with_log_error-none (returned (a, some e)) = refl

-- What a failing log makes of a lease that has been granted.
spoiled :
    (r : Outcome (DistccLease × Option GoError)) (logged : Option GoError) (lease : DistccLease)
    (m : String)
    → r ≡ returned (lease, none)
    → logged ≡ some (message m)
    → new_lease_distcc_response (with_log_error r logged)
      ≡ new_lease_distcc_response (returned (lease, some (message m)))
spoiled r logged lease m granted failing =
    ap
      (λ (x : Outcome (DistccLease × Option GoError)).
        new_lease_distcc_response (with_log_error x logged))
      granted
    ∙ ap (λ e. new_lease_distcc_response (with_log_error (returned (lease, none)) e)) failing

-- The state behind the reading of the clock.
abbrev pub begun : {W : Type 0} ⦃cluster : Cluster W⦄ → Run W → Run W
begun ⦃cluster⦄ s = (read cluster.now s).1

module _ {W : Type 0} ⦃cluster : Cluster W⦄ (logger : Logger W) (next : Service W) where
  -- With a logger that does not fail, each operation of the logged service answers, panics included, as
  -- that of the service does a reading of the clock later.
  pub logged_answers :
      (user : String) (tag : Tag) (s : Run W)
      → ((line : LogLine) (w : W) → (logger.log line w).0 ≡ none)
      → (((logging_middleware logger next).lease_distcc user tag s).0
          ≡ (next.lease_distcc user tag (begun s)).0)
        × (((logging_middleware logger next).delete_distcc user tag s).0
            ≡ (next.delete_distcc user tag (begun s)).0)
        × (((logging_middleware logger next).lease_client user tag s).0
            ≡ (next.lease_client user tag (begun s)).0)
        × (((logging_middleware logger next).delete_client user tag s).0
            ≡ (next.delete_client user tag (begun s)).0)
  unfolding logging_middleware
  logged_answers user tag s quiet = (
    ap (with_log_error (next.lease_distcc user tag (begun s)).0) (quiet _ _)
        ∙ with_log_error-none (next.lease_distcc user tag (begun s)).0,
    ap (or_log_error (next.delete_distcc user tag (begun s)).0) (quiet _ _)
        ∙ or_log_error-none (next.delete_distcc user tag (begun s)).0,
    ap (with_log_error (next.lease_client user tag (begun s)).0) (quiet _ _)
        ∙ with_log_error-none (next.lease_client user tag (begun s)).0,
    ap (or_log_error (next.delete_client user tag (begun s)).0) (quiet _ _)
        ∙ or_log_error-none (next.delete_client user tag (begun s)).0,
  )

  -- Where the logger fails with an error of its own, a lease that the service has granted is answered by
  -- 500, a server error.
  pub log_failure_code :
      (req : LeaseRequest) (s : Run W) (lease : DistccLease) (m : String)
      → (next.lease_distcc req.user (tag_of req) (begun s)).0 ≡ returned (lease, none)
      → ((line : LogLine) (w : W) → (logger.log line w).0 ≡ some (message m))
      → (r : LeaseDistccResponse) × ((put_lease_distcc (logging_middleware logger next) req s).0
          ≡ returned r)
        × (encode_response r.err ≡ 500)
  unfolding put_lease_distcc logging_middleware encode_response new_lease_distcc_response
  log_failure_code req s lease m granted failing = (
    record { lease = record lease { expiration = round lease.expiration }; err = some (message m) },
    spoiled (next.lease_distcc req.user (tag_of req) (begun s)).0 _ lease m granted (failing _ _),
    refl,
  )
