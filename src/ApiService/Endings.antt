-- ===== src/ApiService/Endings.antt =====
-- How the retries of pkg/apiserver/service/service.go end.
use k8cc.Prelude.{
  Action, ◌≡◌, ◌∙◌, refl, sym, ap, subst, inl, inr, true, false, Option, none, some, arith,
  Bool-cases,
}
use k8cc.GoError.{GoError, Result, ok, err, sentinel, Sentinel}
use k8cc.Errors.{is_transient}
use k8cc.Library.{Library}
use k8cc.Cluster.{Run}
use k8cc.ApiService.Remote.{Backoff, decided}
use k8cc.ApiService.Retry.{verdict, attempt, get_with_retry}
use k8cc.ApiService.Attempts.{backoff_induction}

option_clash : {A : Type 0} {a : A} → none ≡ some a → ⊥
option_clash h = ground arith

verdict_failed :
    ⦃lib : Library⦄ {A : Type 0} (r : Result A) (e : GoError)
    → decided (verdict r) ≡ some (some e)
    → (r ≡ err e) × (is_transient e ≡ false)
unfolding verdict
verdict_failed (ok a) e h = absurd (ground arith)
verdict_failed (err x) e h = ground arith

module _ ⦃lib : Library⦄ {W : Type 0} ⦃backoff : Backoff W⦄ {A : Type 0} where
  -- Where the errors of a retried call come from.
  pub data ErrorSource (getter : Action (Run W) (Result A)) (e : GoError) : Type 0 where
    canceled : e ≡ sentinel Sentinel.err_canceled → ErrorSource getter e
    timed_out : e ≡ sentinel Sentinel.err_wait_timeout → ErrorSource getter e
    permanent : (s : Run W) → (getter s).0 ≡ err e → is_transient e ≡ false → ErrorSource getter e

  attempt-ErrorSource :
      (getter : Action (Run W) (Result A)) (s : Option A × Run W) (e : GoError)
      → decided (attempt getter s).0 ≡ some (some e)
      → ErrorSource getter e
  unfolding attempt
  attempt-ErrorSource getter (object, s) e h =
      elim (Bool-cases (backoff.canceled_first (getter s).1.world)) [
        | inl stopped ↦ canceled (ground arith)
        | inr running ↦
            let closed : decided (verdict (getter s).0) ≡ some (some e) = ground arith in
            let (failed, lasting) = verdict_failed (getter s).0 e closed in
            permanent s failed lasting
      ]

  -- An error of a retried call is the cancellation, the timeout, or an error of the getter that is not
  -- transient: a transient error is never handed on.
  pub get_with_retry-ErrorSource :
      (getter : Action (Run W) (Result A)) (s : Run W) (e : GoError)
      → (get_with_retry getter s).0.1 ≡ some e
      → ErrorSource getter e
  unfolding get_with_retry
  get_with_retry-ErrorSource getter s e =
      backoff_induction (attempt getter) (λ st r. r.0 ≡ some e → ErrorSource getter e)
        (λ st r closed h.
          attempt-ErrorSource getter st e
            (subst (λ x. decided (attempt getter st).0 ≡ some x) h closed))
        (λ st undecided h. timed_out (ground arith)) (λ st r undecided h. h) 11 (none, s)

  attempt_undecided :
      (getter : Action (Run W) (Result A)) (st : Option A × Run W) (e : GoError)
      → (getter st.1).0 ≡ err e
      → is_transient e ≡ true
      → backoff.canceled_first (getter st.1).1.world ≡ false
      → decided (attempt getter st).0 ≡ none
  unfolding attempt verdict
  attempt_undecided getter (object, s) e failed passing running = simp (running, failed, passing)

  -- A getter that only ever fails, with transient errors, and is not canceled: after its attempts
  -- the call has timed out.
  pub transient_times_out :
      (getter : Action (Run W) (Result A)) (s : Run W)
      → ((t : Run W) → (e : GoError) × ((getter t).0 ≡ err e) × (is_transient e ≡ true))
      → ((w : W) → backoff.canceled_first w ≡ false)
      → (get_with_retry getter s).0.1 ≡ some (sentinel Sentinel.err_wait_timeout)
  unfolding get_with_retry
  transient_times_out getter s failing patient =
      let never : (st : Option A × Run W) → decided (attempt getter st).0 ≡ none = λ st.
        let (e, failed, passing) = failing st.1 in
        attempt_undecided getter st e failed passing (patient (getter st.1).1.world) in
      backoff_induction (attempt getter) (λ st r. r.0 ≡ some (sentinel Sentinel.err_wait_timeout))
        (λ st r closed. absurd (option_clash (sym (never st) ∙ closed))) (λ st undecided. refl)
        (λ st r undecided h. h) 11 (none, s)

  -- A getter whose first error is permanent is called once.
  pub permanent_once :
      (getter : Action (Run W) (Result A)) (s : Run W) (e : GoError)
      → (getter s).0 ≡ err e
      → is_transient e ≡ false
      → backoff.canceled_first (getter s).1.world ≡ false
      → get_with_retry getter s ≡ ((none, some e), (getter s).1)
  unfolding get_with_retry attempt verdict
  permanent_once getter s e failed lasting running =
      let once : attempt getter (none, s) ≡ ((false, some e), (none, (getter s).1)) =
        simp (running, failed, lasting) in
      let ends =
        backoff.backoff_decided 11 (attempt getter) (none, s) (some e)
          (ap (λ r. decided r.0) once) in
      rw (ends, once) refl

  -- A getter that succeeds is called once.
  pub success_once :
      (getter : Action (Run W) (Result A)) (s : Run W) (a : A)
      → (getter s).0 ≡ ok a
      → backoff.canceled_first (getter s).1.world ≡ false
      → get_with_retry getter s ≡ ((some a, none), (getter s).1)
  unfolding get_with_retry attempt verdict
  success_once getter s a done running =
      let once : attempt getter (none, s) ≡ ((true, none), (some a, (getter s).1)) =
        simp (running, done) in
      let ends =
        backoff.backoff_decided 11 (attempt getter) (none, s) none (ap (λ r. decided r.0) once) in
      rw (ends, once) refl
