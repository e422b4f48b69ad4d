-- ===== src/Samples/Queues.antt =====
-- A work queue that meets the interface: waiting items in order, and the rate limiter's counts.
use k8cc.Prelude.{
  ℕ, suc, ◌≡◌, refl, Bool, true, false, ◌||◌, Option, none, some, List, [], ◌∷◌, arith,
  if◌then◌else◌,
}
use k8cc.Prelude.Text.{str_eq, str_eq_refl}
use k8cc.Kit.Queue.{Item, key, foreign, WorkQueue, Draining}

abbrev item_eq : Item → Item → Bool
item_eq (key a) (key b) = str_eq a b
item_eq (foreign a) (foreign b) = str_eq a b
item_eq _ _ = false

item_eq_refl : (i : Item) → item_eq i i ≡ true
item_eq_refl (key a) = str_eq_refl a
item_eq_refl (foreign a) = str_eq_refl a

abbrev contains : List Item → Item → Bool
contains [] i = false
contains (j ∷ js) i = item_eq j i || contains js i

abbrev without : Item → List Item → List Item
without i [] = []
without i (j ∷ js) = let rest = without i js in if item_eq j i then rest else j ∷ rest

contains-without : (i : Item) (js : List Item) → contains (without i js) i ≡ false
contains-without i [] = refl
contains-without i (j ∷ js) = ground (arith, contains-without i js)

pub record Waiting : Type 0 where
  pub items : List Item
  pub counts : Item → ℕ

abbrev take_first : List Item → (Item → ℕ) → Option Item × Waiting
take_first [] counts = (none, record { items = []; counts = counts })
take_first (i ∷ is) counts = (some i, record { items = without i is; counts = counts })

pub first_taken :
    (items : List Item) (counts : Item → ℕ) (i : Item)
    → (take_first items counts).0 ≡ some i
    → contains (take_first items counts).1.items i ≡ false
first_taken [] counts i h = refl
first_taken (j ∷ js) counts i h = ground (arith, contains-without j js)

pub first-counts :
    (items : List Item) (counts : Item → ℕ) (i : Item)
    → (take_first items counts).1.counts i ≡ counts i
first-counts [] counts i = refl
first-counts (j ∷ js) counts i = refl

pub counted : (q : Waiting) (i : Item) (n : ℕ) → (if item_eq i i then n else q.counts i) ≡ n
counted q i n = rw (item_eq_refl i)

pub added : (q : Waiting) (i : Item) → contains (i ∷ q.items) i ≡ true
added q i = rw (item_eq_refl i)

instance abbrev pub sample_queue : WorkQueue Waiting
sample_queue = record {
  get = λ q. take_first q.items q.counts;
  done = λ i q. q;
  forget = λ i q. record q { counts = λ j. if item_eq i j then 0 else q.counts j };
  add_rate_limited = λ i q. record {
    items = i ∷ q.items;
    counts = λ j. if item_eq i j then suc (q.counts i) else q.counts j;
  };
  scheduled = λ q i. contains q.items i;
  num_requeues = λ q i. q.counts i;
  get-num_requeues = λ q i. first-counts q.items q.counts i;
  done-scheduled = λ q i j. refl;
  forget-scheduled = λ q i j. refl;
  forget-num_requeues = λ q i. counted q i 0;
  done-num_requeues = λ q i j. refl;
  shutting_down = λ q. false;
  add-scheduled = λ q i running. added q i;
  add-num_requeues = λ q i. counted q i (suc (q.counts i));
}

abbrev distinct : List Item → Bool
distinct [] = true
distinct (i ∷ is) = let rest = distinct is in if contains is i then false else rest

without_absent : (i : Item) (js : List Item) → contains js i ≡ false → without i js ≡ js
without_absent i [] h = refl
without_absent i (j ∷ js) h = ground (arith, without_absent i js)

pub first_drained :
    (items : List Item) (counts : Item → ℕ) (i : Item) (rest : List Item)
    → distinct items ≡ true
    → items ≡ i ∷ rest
    → ((take_first items counts).0 ≡ some i)
      × ((take_first items counts).1.items ≡ rest)
      × (distinct (take_first items counts).1.items ≡ true)
first_drained [] counts i rest shut h = absurd (ground arith)
first_drained (j ∷ js) counts i rest shut h =
    let absent : contains js j ≡ false = ground arith in
    let same = without_absent j js absent in
    let others : distinct js ≡ true = ground arith in rw same (ground arith, ground arith, others)

pub last_drained :
    (items : List Item) (counts : Item → ℕ)
    → items ≡ []
    → ((take_first items counts).0 ≡ none) × ((take_first items counts).1.items ≡ [])
last_drained [] counts h = (refl, refl)
last_drained (j ∷ js) counts h = absurd (ground arith)

-- Nobody adds to a queue of the tests, so one without duplicates drains.
instance abbrev pub sample_draining : Draining Waiting
sample_draining = record {
  draining = λ q. distinct q.items;
  left = λ q. q.items;
  get_next = λ q i rest shut h. first_drained q.items q.counts i rest shut h;
  get_last = λ q shut h. last_drained q.items q.counts h;
  done_draining = λ q i shut. (shut, refl);
  forget_draining = λ q i shut. (shut, refl);
}
