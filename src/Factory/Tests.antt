-- ===== src/Factory/Tests.antt =====
-- A factory that is asked for two informers, with a Start before and after the second.
use k8cc.Prelude.{ℕ, Action, ◌+◌, ◌≡◌, refl, some, [], ◌∷◌, true}
use k8cc.Factory.{
  SharedInformerFactory, new_factory, start, start_each, start_one, informer_for, wait_each,
  started_of, wait_for_cache_sync, Reach, here, started, asked, entry,
}
use k8cc.Factory.Sharing.{count, started_once, informer_shared}

-- Informers are numbered as they are made.
abbrev new_informer : Action ℕ ℕ
new_informer w = (w, w + 1)

abbrev first : SharedInformerFactory ℕ
first = (informer_for "Distcc" new_informer (new_factory, 7)).1.0

abbrev second : SharedInformerFactory ℕ
second = (informer_for "DistccClaim" new_informer (start first, 8)).1.0

first_steps : Reach ℕ new_factory first
first_steps = asked "Distcc" new_informer 7 here

second_steps : Reach ℕ first second
second_steps = asked "DistccClaim" new_informer 8 (started here)

asked_first : entry "Distcc" first.informers ≡ some 7
unfolding informer_for new_factory
asked_first = refl

asked_second : entry "DistccClaim" second.informers ≡ some 8
unfolding informer_for new_factory start start_each start_one
asked_second = refl

-- The second informer has not been started yet.
waited : (wait_for_cache_sync {W = ℕ} (λ informer w. (true, w)) second 9).0 ≡ ("Distcc", true) ∷ []
unfolding wait_for_cache_sync wait_each started_of informer_for new_factory start start_each
    start_one
waited = refl

started_once_example : count "DistccClaim" (start second).runs ≡ 1
started_once_example =
    started_once second "DistccClaim" 8
      (asked "DistccClaim" new_informer 8 (started (asked "Distcc" new_informer 7 here)))
      asked_second

abbrev unused_informer : Action ℕ ℕ
unused_informer w = (w + 100, w)

informer_shared_example :
    informer_for "Distcc" unused_informer (second, 9)
    ≡ ((informer_for "Distcc" new_informer (new_factory, 7)).0, (second, 9))
informer_shared_example =
    informer_shared new_factory second "Distcc" new_informer unused_informer 7 9 second_steps
