-- ===== src/ApiService/Codes.antt =====
-- The status codes of pkg/apiserver/service/transport.go that the outcomes of an operation get.
use k8cc.Prelude.{
  ◌≡◌, refl, ap, sym, ◌∙◌, Bool, true, false, Option, none, some, [], ◌∷◌, ◌++◌, arith,
  if◌then◌else◌,
}
use k8cc.Prelude.Text.{join}
use k8cc.GoError.{
  GoError, status, message, transient_error, ambiguous_reference_error, eventful_error, ok, err,
  sentinel, Sentinel, wrapped,
}
use k8cc.Errors.{is_transient}
use k8cc.Clock.{round}
use k8cc.Types.{Distcc}
use k8cc.Library.{Library, is_missing}
use k8cc.Cluster.{Cluster, Run, deleted_claim}
use k8cc.ApiService.Remote.{Store, Backoff}
use k8cc.ApiService.Retry.{get_with_retry}
use k8cc.ApiService.Endings.{permanent_once, success_once}
use k8cc.ApiService.Answers.{no_distcc_lease, returned}
use k8cc.ApiService.Claims.{make_claim_name}
use k8cc.ApiService.Transport.{LeaseRequest, encode_response}
use k8cc.ApiService.Endpoints.{
  new_lease_distcc_response, tag_of, put_lease_distcc, delete_lease_distcc, LeaseDistccResponse,
}
use k8cc.ApiService.Operations.{service}
use k8cc.ApiService.{lease_distcc, delete_distcc, distcc_getter, deleting_getter, lease_found}

module _ ⦃lib : Library⦄ where
  lasting : (e : GoError) → is_missing e ≡ true → is_transient e ≡ false
  unfolding is_transient
  lasting (status r m) missing = rw (lib.cause_else (status r m) refl) refl
  lasting (message m) missing = absurd (ground arith)
  lasting (sentinel k) missing = absurd (ground arith)
  lasting (wrapped e m) missing = absurd (ground arith)
  lasting (transient_error e) missing = absurd (ground arith)
  lasting (ambiguous_reference_error e) missing = absurd (ground arith)
  lasting (eventful_error e v) missing = absurd (ground arith)

  missing_lasting : (e : GoError) → lib.is_not_found e ≡ true → is_transient e ≡ false
  missing_lasting e missing = lasting e (sym (lib.is_not_found_lem e) ∙ missing)

  sentinel_lasting : (k : Sentinel) → is_transient (sentinel k) ≡ false
  unfolding is_transient
  sentinel_lasting k = rw (lib.cause_else (sentinel k) refl) refl

abbrev pub is_none : Option GoError → Bool
is_none none = true
is_none (some e) = false

abbrev pub deleted_or_absent : ⦃lib : Library⦄ → Option GoError → Bool
deleted_or_absent none = true
deleted_or_absent ⦃lib⦄ (some e) = lib.is_not_found e

module _ ⦃lib : Library⦄ {W : Type 0} ⦃cluster : Cluster W⦄ ⦃store : Store W⦄ ⦃backoff : Backoff W⦄
    (req : LeaseRequest) (s : Run W) where
  -- The answer where the lookup of the tag fails.
  abbrev pub unanswered : GoError → LeaseDistccResponse
  unanswered e = record {
    lease = record no_distcc_lease { expiration = round 0 };
    err = some (wrapped e "failed to get Distcc object");
  }

  failed_lookup :
      (object : Option Distcc) (e : GoError) (t : Run W)
      → get_with_retry (distcc_getter (tag_of req)) s ≡ ((object, some e), t)
      → put_lease_distcc service req s ≡ (returned (unanswered e), t)
  unfolding put_lease_distcc lease_distcc
  failed_lookup object e t h =
      ap
        (λ (x : (Option Distcc × Option GoError) × Run W).
          let (r, u) = lease_found req.user (tag_of req) x.0 x.1 in
          (new_lease_distcc_response r, u))
        h

  -- A lease on a tag that names no Distcc is answered by a server error, 500, at the first
  -- attempt, if the request is not canceled first, and nothing is written.
  pub missing_tag_code :
      (e : GoError)
      → (store.get_distcc req.namespace req.tag s.world).0 ≡ err e
      → lib.is_not_found e ≡ true
      → backoff.canceled_first (store.get_distcc req.namespace req.tag s.world).1 ≡ false
      → (r : LeaseDistccResponse) × ((put_lease_distcc service req s).0 ≡ returned r)
        × (encode_response r.err ≡ 500)
        × ((put_lease_distcc service req s).1.writes ≡ s.writes)
  unfolding distcc_getter encode_response
  missing_tag_code e failed missing running =
      let failing : (distcc_getter (tag_of req) s).0 ≡ err e = simp (failed, missing) in
      let once =
        permanent_once (distcc_getter (tag_of req)) s e failing (missing_lasting e missing)
          running in
      let answer = failed_lookup none e (distcc_getter (tag_of req) s).1 once in
      (unanswered e, ap (λ r. r.0) answer, refl, ap (λ r. r.1.writes) answer)

  deletion_once :
      (r : Option (Unit {0}) × Option GoError)
      → get_with_retry (deleting_getter req.user (tag_of req)) s
        ≡ (r, (deleting_getter req.user (tag_of req) s).1)
      → ((delete_lease_distcc service req s).0.err ≡ r.1)
        × ((delete_lease_distcc service req s).1 ≡ (deleting_getter req.user (tag_of req) s).1)
  unfolding delete_lease_distcc delete_distcc
  deletion_once r h = (
    ap (λ (x : (Option (Unit {0}) × Option GoError) × Run W). x.0.1) h,
    ap (λ (x : (Option (Unit {0}) × Option GoError) × Run W). x.1) h,
  )

  -- A deletion whose first attempt deletes the claim is answered by 200, and one that finds no claim
  -- by 404, if the request is not canceled first; in both cases the claim of the user on the tag is
  -- asked to be deleted once, and nothing else is written.
  pub deletion_code :
      (outcome : Option GoError)
      → (cluster.delete_claim req.namespace (make_claim_name req.user req.tag) s.world).0 ≡ outcome
      → deleted_or_absent outcome ≡ true
      → backoff.canceled_first
          (cluster.delete_claim req.namespace (make_claim_name req.user req.tag) s.world).1
        ≡ false
      → (encode_response (delete_lease_distcc service req s).0.err
          ≡ (if is_none outcome then 200 else 404))
        × ((delete_lease_distcc service req s).1.writes
            ≡ s.writes ++ deleted_claim req.namespace (join "-" req.user req.tag) ∷ [])
  unfolding deleting_getter encode_response make_claim_name
  deletion_code none gone settled running =
      let deleted : (deleting_getter req.user (tag_of req) s).0 ≡ ok tt = simp gone in
      let (answer, ends) =
        deletion_once (some tt, none)
          (success_once (deleting_getter req.user (tag_of req)) s tt deleted running) in
      (ap encode_response answer, ap (λ (t : Run W). t.writes) ends)
  deletion_code (some e) failed missing running =
      let absent : (deleting_getter req.user (tag_of req) s).0
          ≡ err (sentinel Sentinel.err_not_found) =
        simp (failed, missing) in
      let (answer, ends) =
        deletion_once (none, some (sentinel Sentinel.err_not_found))
          (permanent_once (deleting_getter req.user (tag_of req)) s
            (sentinel Sentinel.err_not_found) absent (sentinel_lasting Sentinel.err_not_found)
            running) in
      (ap encode_response answer, ap (λ (t : Run W). t.writes) ends)
