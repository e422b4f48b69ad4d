-- ===== src/ApiService/Attempts.antt =====
-- What the retries of pkg/apiserver/service/service.go may answer, and what they write.
use k8cc.Prelude.{
  ℕ, suc, zero, Action, ◌≡◌, refl, sym, subst, Bool, Option, none, some, ◌⊎◌, inl, inr, Bool-cases,
  arith,
}
use k8cc.GoError.{GoError, Result, ok, err, sentinel, Sentinel}
use k8cc.Library.{Library}
use k8cc.Cluster.{Run, Write}
use k8cc.Cluster.Writes.{Adds, Adds-trans, Adds-read}
use k8cc.ApiService.Remote.{Backoff, decided, paused}
use k8cc.ApiService.Retry.{verdict, attempt, get_with_retry}

Option-cases : {A : Type 0} (o : Option A) → (o ≡ none) ⊎ ((a : A) × (o ≡ some a))
Option-cases none = inl refl
Option-cases (some a) = inr (a, refl)

module _ {W : Type 0} ⦃backoff : Backoff W⦄ {A : Type 0} where
  -- What holds of the last check, and of each check before it if it holds of what follows, holds of
  -- the loop.
  pub backoff_induction :
      (condition : Action (A × Run W) (Bool × Option GoError))
      (P : A × Run W → Option GoError × (A × Run W) → Type 0)
      → ((s : A × Run W) (r : Option GoError)
          → decided (condition s).0 ≡ some r
          → P s (r, (condition s).1))
      → ((s : A × Run W)
          → decided (condition s).0 ≡ none
          → P s (some (sentinel Sentinel.err_wait_timeout), (condition s).1))
      → ((s : A × Run W) (r : Option GoError × (A × Run W))
          → decided (condition s).0 ≡ none
          → P (paused backoff.pause (condition s).1) r
          → P s r)
      → (steps : ℕ) (s : A × Run W) → P s (backoff.exponential_backoff (suc steps) condition s)
  backoff_induction condition P last timeout more zero s =
      elim (Option-cases (decided (condition s).0)) [
        | inl undecided ↦
            subst (P s) (sym (backoff.backoff_timeout condition s undecided)) (timeout s undecided)
        | inr (r, closed) ↦
            subst (P s) (sym (backoff.backoff_decided 0 condition s r closed)) (last s r closed)
      ]
  backoff_induction condition P last timeout more (suc n) s =
      elim (Option-cases (decided (condition s).0)) [
        | inl undecided ↦ subst (P s) (sym (backoff.backoff_again n condition s undecided)) (
            more s _ undecided (
              backoff_induction condition P last timeout more n
                (paused backoff.pause (condition s).1)))
        | inr (r, closed) ↦
            subst (P s) (sym (backoff.backoff_decided (suc n) condition s r closed))
              (last s r closed)
      ]

-- The object of a call without an error.
abbrev pub Found : {A : Type 0} → (A → Type 0) → Option A → Type 0
Found {A = A} Q object = (a : A) × (object ≡ some a) × Q a

verdict_closed :
    ⦃lib : Library⦄ {A : Type 0} (r : Result A)
    → decided (verdict r) ≡ some none
    → (a : A) × (r ≡ ok a)
unfolding verdict
verdict_closed (ok a) h = (a, refl)
verdict_closed (err e) h = absurd (ground arith)

module _ ⦃lib : Library⦄ {W : Type 0} ⦃backoff : Backoff W⦄ {A : Type 0} where
  attempt_closed :
      (getter : Action (Run W) (Result A)) (Q : A → Type 0)
      → ((s : Run W) (a : A) → (getter s).0 ≡ ok a → Q a)
      → (s : Option A × Run W) → decided (attempt getter s).0 ≡ some none
      → Found Q (attempt getter s).1.0
  unfolding attempt
  attempt_closed getter Q each (object, s) h =
      elim (Bool-cases (backoff.canceled_first (getter s).1.world)) [
        | inl canceled ↦ absurd (ground arith)
        | inr running ↦
            let closed : decided (verdict (getter s).0) ≡ some none = ground arith in
            let (a, got) = verdict_closed (getter s).0 closed in
            rw (running, got) (a, refl, each s a got)
      ]

  -- A call that returns no error returns an object that the getter returned.
  pub get_with_retry-Found :
      (getter : Action (Run W) (Result A)) (Q : A → Type 0)
      → ((s : Run W) (a : A) → (getter s).0 ≡ ok a → Q a)
      → (s : Run W) → (get_with_retry getter s).0.1 ≡ none
      → Found Q (get_with_retry getter s).0.0
  unfolding get_with_retry
  get_with_retry-Found getter Q each s =
      backoff_induction (attempt getter) (λ st r. r.0 ≡ none → Found Q r.1.0)
        (λ st r closed h.
          attempt_closed getter Q each st
            (subst (λ x. decided (attempt getter st).0 ≡ some x) h closed))
        (λ st undecided h. absurd (ground arith)) (λ st r undecided h. h) 11 (none, s)

  attempt-Adds :
      (getter : Action (Run W) (Result A)) (P : Write → Type 0)
      → ((s : Run W) → Adds P s (getter s).1)
      → (st : Option A × Run W) → Adds P st.1 (attempt getter st).1.1
  unfolding attempt
  attempt-Adds getter P each (object, s) =
      elim (Bool-cases (backoff.canceled_first (getter s).1.world)) [
        | inl canceled ↦ rw canceled (each s)
        | inr running ↦ rw running (each s)
      ]

  -- The writes of all the attempts are writes of the getter.
  pub get_with_retry-Adds :
      (getter : Action (Run W) (Result A)) (P : Write → Type 0)
      → ((s : Run W) → Adds P s (getter s).1)
      → (s : Run W) → Adds P s (get_with_retry getter s).1
  unfolding get_with_retry
  get_with_retry-Adds getter P each s =
      let one : (st : Option A × Run W) → Adds P st.1 (attempt getter st).1.1 =
        attempt-Adds getter P each in
      backoff_induction (attempt getter) (λ st r. Adds P st.1 r.1.1) (λ st r closed. one st)
        (λ st undecided. one st)
        (λ st r undecided rest.
          Adds-trans (one st) (Adds-trans (Adds-read (λ w. (tt {0}, backoff.pause w)) _) rest))
        11 (none, s)
