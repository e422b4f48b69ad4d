-- ===== src/Samples/Remotes.antt =====
-- An API server and retries for the tests: the caches' answers, an hour of patience.
use k8cc.Prelude.{ℕ, zero, suc, Action, ◌≡◌, ap, Bool, false, Option, none, some, ◌+◌}
use k8cc.Clock.{Time, second}
use k8cc.GoError.{GoError, ok, sentinel, Sentinel}
use k8cc.Cluster.{Run}
use k8cc.ApiService.Remote.{Store, Backoff, decided, paused}
use k8cc.Samples.{Answers}

abbrev pub storing : Answers → Store Time
storing a = record {
  get_distcc = λ namespace name w. (a.distcc, w);
  get_claim = λ namespace name w. (a.claim, w);
  get_client = λ namespace name w. (a.client, w);
  get_client_claim = λ namespace name w. (a.client_claim, w);
  get_secret = λ namespace name w. (none, w);
  get_service = λ namespace name w. (a.service, w);
  create_claim = λ c w. (ok c, w);
  create_client_claim = λ c w. (ok c, w);
}

-- A second between two checks.
abbrev wait : Time → Time
wait w = w + second

abbrev chosen : {R : Type 0} → R → (Option GoError → R) → Option (Option GoError) → R
chosen more last none = more
chosen more last (some r) = last r

abbrev loop :
    {A : Type 0}
    → ℕ
    → Action (A × Run Time) (Bool × Option GoError)
    → Action (A × Run Time) (Option GoError)
loop zero condition s = (some (sentinel Sentinel.err_wait_timeout), s)
loop (suc zero) condition s =
    chosen (some (sentinel Sentinel.err_wait_timeout), (condition s).1) (λ r. (r, (condition s).1))
      (decided (condition s).0)
loop (suc (suc n)) condition s =
    let rest = loop (suc n) condition (paused wait (condition s).1) in
    chosen rest (λ r. (r, (condition s).1)) (decided (condition s).0)

module _ {A : Type 0} (condition : Action (A × Run Time) (Bool × Option GoError)) where
  pub loop-decided :
      (steps : ℕ) (s : A × Run Time) (r : Option GoError)
      → decided (condition s).0 ≡ some r
      → loop (suc steps) condition s ≡ (r, (condition s).1)
  loop-decided zero s r h = ap (chosen _ _) h
  loop-decided (suc n) s r h = ap (chosen _ _) h

  pub loop_timeout :
      (s : A × Run Time)
      → decided (condition s).0 ≡ none
      → loop 1 condition s ≡ (some (sentinel Sentinel.err_wait_timeout), (condition s).1)
  loop_timeout s h = ap (chosen _ _) h

  pub loop_again :
      (steps : ℕ) (s : A × Run Time)
      → decided (condition s).0 ≡ none
      → loop (suc (suc steps)) condition s
        ≡ loop (suc steps) condition (paused wait (condition s).1)
  loop_again steps s h = ap (chosen _ _) h

instance abbrev pub sample_backoff : Backoff Time
sample_backoff = record {
  pause = wait;
  canceled_first = λ w. false;
  exponential_backoff = loop;
  backoff_decided = λ steps condition s r h. loop-decided condition steps s r h;
  backoff_timeout = λ condition s h. loop_timeout condition s h;
  backoff_again = λ steps condition s h. loop_again condition steps s h;
}
