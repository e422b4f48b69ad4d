-- ===== src/ApiService/Middleware.antt =====
-- pkg/apiserver/service/middlewares.go: the middleware that logs each operation.
use k8cc.Prelude.{Action, String, Option, none, some}
use k8cc.Prelude.Int.{sub_ℕ}
use k8cc.Clock.{Time, Duration}
use k8cc.GoError.{GoError}
use k8cc.Cluster.{Cluster, Run, read}
use k8cc.ApiService.Answers.{Tag, Outcome, returned, panicked}
use k8cc.ApiService.Operations.{Service}

-- What Log is given.
pub record LogLine : Type 0 where
  pub method : String
  pub user : String
  pub tag : Tag
  pub took : Duration
  pub err : Option GoError

-- github.com/go-kit/kit/log.Logger
pub record Logger (W : Type 0) : Type 0 where
  pub log : LogLine → Action W (Option GoError)

-- if err == nil { err = lerr }
abbrev pub or_log_error : Option GoError → Option GoError → Option GoError
or_log_error (some e) logged = some e
or_log_error none logged = logged

-- The named results behind the deferred function; a panic goes on behind it.
abbrev pub with_log_error :
    {A : Type 0} → Outcome (A × Option GoError) → Option GoError → Outcome (A × Option GoError)
with_log_error panicked logged = panicked
with_log_error (returned (a, e)) logged = returned (a, or_log_error e logged)

-- `err` as the deferred function sees it: nil in a panic.
abbrev pub error_so_far : {A : Type 0} → Outcome (A × Option GoError) → Option GoError
error_so_far panicked = none
error_so_far (returned (a, e)) = e

module _ {W : Type 0} ⦃cluster : Cluster W⦄ (logger : Logger W) where
  -- The deferred function, with the time at which the operation began.
  unfoldable pub log_operation :
      String → String → Tag → Time → Option GoError → Action (Run W) (Option GoError)
  log_operation method user tag begin e s =
      let (now, t) = read cluster.now s in
      read
        (logger.log
          (record { method = method; user = user; tag = tag; took = sub_ℕ now begin; err = e }))
        t

  unfoldable pub logged_operation :
      {A : Type 0}
      → String
      → (String → Tag → Action (Run W) (Outcome (A × Option GoError)))
      → String
      → Tag
      → Action (Run W) (Outcome (A × Option GoError))
  unfolding log_operation
  logged_operation method operation user tag s =
      let (begin, t) = read cluster.now s in
      let (r, u) = operation user tag t in
      let (logged, v) = log_operation method user tag begin (error_so_far r) u in
      (with_log_error r logged, v)

  unfoldable pub logged_deletion :
      String
      → (String → Tag → Action (Run W) (Option GoError))
      → String
      → Tag
      → Action (Run W) (Option GoError)
  unfolding log_operation
  logged_deletion method operation user tag s =
      let (begin, t) = read cluster.now s in
      let (e, u) = operation user tag t in
      let (logged, v) = log_operation method user tag begin e u in (or_log_error e logged, v)

  module _ (next : Service W) where
    -- LoggingMiddleware
    unfoldable pub logging_middleware : Service W
    unfolding logged_operation logged_deletion
    logging_middleware = record {
      lease_distcc = logged_operation "LeaseDistcc" next.lease_distcc;
      delete_distcc = logged_deletion "DeleteDistcc" next.delete_distcc;
      lease_client = logged_operation "LeaseClient" next.lease_client;
      delete_client = logged_deletion "DeleteClient" next.delete_client;
    }
