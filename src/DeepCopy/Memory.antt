-- ===== src/DeepCopy/Memory.antt =====
-- Memory for the deep copies: cells at addresses, of which those from `next` on are free. Go's
-- pointers are typed and never dangle, so a load of a cell of another kind stands for nothing.
use k8cc.Prelude.{ℕ, ◌+◌, ◌≤◌, ◌<◌, ◌≡◌, ◌∙◌, Action, ◌==◌, if◌then◌else◌, arith}

pub record Heap (C : Type 0) : Type 0 where
  pub next : ℕ
  pub cell : ℕ → C

module _ {C : Type 0} where
  -- The two heaps have the same cells from `lo` up to `hi`.
  abbrev pub Agree : ℕ → ℕ → Heap C → Heap C → Type 0
  Agree lo hi h k = (p : ℕ) → lo ≤ p → p < hi → k.cell p ≡ h.cell p

  unfoldable pub store : ℕ → C → Heap C → Heap C
  store p c h = record h { cell = λ q. if q == p then c else h.cell q }

  -- new(T)
  unfoldable pub new : C → Action (Heap C) ℕ
  new zero h =
      (h.next, record { next = h.next + 1; cell = λ q. if q == h.next then zero else h.cell q })

  pub Agree-trans :
      (lo hi : ℕ) (h k l : Heap C) → Agree lo hi h k → Agree lo hi k l → Agree lo hi h l
  Agree-trans lo hi h k l f g p low high = g p low high ∙ f p low high

  pub Agree-narrow :
      (lo hi lo' hi' : ℕ) (h k : Heap C) → lo ≤ lo' → hi' ≤ hi → Agree lo hi h k → Agree lo' hi' h k
  Agree-narrow lo hi lo' hi' h k a b f p low high = f p (omega arith) (omega arith)

  pub store-Agree : (p : ℕ) (c : C) (h : Heap C) → Agree 0 p h (store p c h)
  unfolding store
  store-Agree p c h q low high = ground arith

  pub store-Agree_behind : (p hi : ℕ) (c : C) (h : Heap C) → Agree (p + 1) hi h (store p c h)
  unfolding store
  store-Agree_behind p hi c h q low high = ground arith

  pub new-Agree : (c : C) (h : Heap C) → Agree 0 h.next h (new c h).1
  unfolding new
  new-Agree c h q low high = ground arith

  pub cell-store : (p : ℕ) (c : C) (h : Heap C) → (store p c h).cell p ≡ c
  unfolding store
  cell-store p c h = ground arith

-- What a type `A` of values in memory, which stand for values `V`, promises of its deep copy: the
-- copy stands for the same, and each address that it reaches is new.
pub record Copied {C A V : Type 0} (value : Heap C → A → V) (Within : ℕ → ℕ → Heap C → A → Type 0)
    (h : Heap C) (a b : A) (k : Heap C) : Type 0 where
  pub grown : h.next ≤ k.next
  pub untouched : Agree 0 h.next h k
  pub separate : Within h.next k.next k b
  pub same_value : value k b ≡ value h a

-- How the values of a type lie in memory.
pub record Located (C A V : Type 0) : Type 1 where
  pub value : Heap C → A → V
  -- Each address that is reached lies from `lo` up to `hi`.
  pub Within : ℕ → ℕ → Heap C → A → Type 0
  pub within_frame :
      (lo hi : ℕ) (h k : Heap C) (a : A)
      → Within lo hi h a
      → Agree lo hi h k
      → Within lo hi k a × (value k a ≡ value h a)
  pub within_widen :
      (lo hi lo' hi' : ℕ) (h : Heap C) (a : A)
      → lo' ≤ lo
      → hi ≤ hi'
      → Within lo hi h a
      → Within lo' hi' h a

abbrev pub CopiedAt : {C A V : Type 0} → Located C A V → Heap C → A → A × Heap C → Type 0
CopiedAt c h a (b, k) = Copied c.value c.Within h a b k

pub record Copyable (C A V : Type 0) : Type 1 where
  pub place : Located C A V
  pub copy : A → Action (Heap C) A
  pub copied :
      (hi : ℕ) (h : Heap C) (a : A)
      → place.Within 0 hi h a
      → hi ≤ h.next
      → CopiedAt place h a (copy a h)

-- The copy and the original are independent: no change of the old cells reaches the copy, and none
-- of the new ones the original.
pub record Independent {C A V : Type 0} (value : Heap C → A → V) (h : Heap C) (a b : A) (k : Heap C)
    : Type 0 where
  pub same_value : value k b ≡ value h a
  pub copy_kept : (l : Heap C) → Agree h.next k.next k l → value l b ≡ value k b
  pub original_kept : (l : Heap C) → Agree 0 h.next k l → value l a ≡ value h a

pub copy-Independent :
    {C A V : Type 0} (c : Copyable C A V) (hi : ℕ) (h : Heap C) (a : A)
    → c.place.Within 0 hi h a
    → hi ≤ h.next
    → Independent c.place.value h a (c.copy a h).0 (c.copy a h).1
copy-Independent c hi h a inside below =
    let k = (c.copy a h).1 in
    let done = c.copied hi h a inside below in
    record {
      same_value = done.same_value;
      copy_kept =
          λ l agree. (c.place.within_frame h.next k.next k l (c.copy a h).0 done.separate agree).1;
      original_kept = λ l agree.
          (c.place.within_frame 0 hi h l a inside (
            Agree-narrow 0 h.next 0 hi h l (omega arith) below
              (Agree-trans 0 h.next h k l done.untouched agree))).1;
    }
