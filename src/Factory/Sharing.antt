-- ===== src/Factory/Sharing.antt =====
-- The informers of a factory are shared, and each is run once.
use k8cc.Prelude.{
  ℕ, suc, Action, String, true, some, Option-cases, List, [], ◌∷◌, ◌≡◌, ◌∙◌, refl, sym, ap, arith,
  eq_iff, if◌then◌else◌, Bool-cases, inl, inr,
}
use k8cc.Prelude.Text.{str_eq, str_eq_refl}
use k8cc.Factory.{
  entry, SharedInformerFactory, new_factory, is_started, start_one, start_each, start, informer_for,
  Reach, here, started, asked,
}

module _ {J : Type 0} where
  -- How often an informer of this type was run.
  abbrev pub count : String → List (String × J) → ℕ
  count t [] = 0
  count t ((u, informer) ∷ rest) =
      let others = count t rest in if str_eq u t then suc others else others

  -- Each started type was run once, and no other.
  abbrev RunOnce : SharedInformerFactory J → Type 0
  RunOnce f = (t : String) → count t f.runs ≡ (if is_started t f then 1 else 0)

  start_one-RunOnce :
      (t : String) (informer : J) (f : SharedInformerFactory J)
      → RunOnce f
      → RunOnce (start_one t informer f)
  unfolding start_one
  start_one-RunOnce t informer f once u = ground (arith, once u, once t, eq_iff t u)

  start_each-RunOnce :
      (informers : List (String × J)) (f : SharedInformerFactory J)
      → RunOnce f
      → RunOnce (start_each informers f)
  unfolding start_each
  start_each-RunOnce [] f once = once
  start_each-RunOnce ((t, informer) ∷ rest) f once =
      start_each-RunOnce rest (start_one t informer f) (start_one-RunOnce t informer f once)

  start_one-is_started :
      (t u : String) (informer : J) (f : SharedInformerFactory J)
      → is_started u f ≡ true
      → is_started u (start_one t informer f) ≡ true
  unfolding start_one
  start_one-is_started t u informer f h = ground (arith, eq_iff t u)

  start_each-is_started :
      (informers : List (String × J)) (u : String) (f : SharedInformerFactory J)
      → is_started u f ≡ true
      → is_started u (start_each informers f) ≡ true
  unfolding start_each
  start_each-is_started [] u f h = h
  start_each-is_started ((t, informer) ∷ rest) u f h =
      start_each-is_started rest u (start_one t informer f) (start_one-is_started t u informer f h)

  start_one_starts :
      (t : String) (informer : J) (f : SharedInformerFactory J)
      → is_started t (start_one t informer f) ≡ true
  unfolding start_one
  start_one_starts t informer f = ground (arith, str_eq_refl t)

  start_each_starts :
      (informers : List (String × J)) (t : String) (informer : J) (f : SharedInformerFactory J)
      → entry t informers ≡ some informer
      → is_started t (start_each informers f) ≡ true
  unfolding start_each
  start_each_starts [] t informer f h = absurd (ground arith)
  start_each_starts ((u, other) ∷ rest) t informer f h = elim (Bool-cases (str_eq u t)) [
    | inl same ↦
        let named : u ≡ t = ground (arith, eq_iff u t) in
        start_each-is_started rest t (start_one u other f)
          (ap (λ v. is_started v (start_one u other f)) (sym named) ∙ start_one_starts u other f)
    | inr other_type ↦
        let further : entry t rest ≡ some informer = ground arith in
        start_each_starts rest t informer (start_one u other f) further
  ]

  start_one-informers :
      (t : String) (informer : J) (f : SharedInformerFactory J)
      → (start_one t informer f).informers ≡ f.informers
  unfolding start_one
  start_one-informers t informer f = ground arith

  start_each-informers :
      (informers : List (String × J)) (f : SharedInformerFactory J)
      → (start_each informers f).informers ≡ f.informers
  unfolding start_each
  start_each-informers [] f = refl
  start_each-informers ((t, informer) ∷ rest) f =
      start_each-informers rest (start_one t informer f) ∙ start_one-informers t informer f

  module _ {W : Type 0} where
    informer_for-RunOnce :
        (t : String) (new_func : Action W J) (f : SharedInformerFactory J) (w : W)
        → RunOnce f
        → RunOnce (informer_for t new_func (f, w)).1.0
    unfolding informer_for
    informer_for-RunOnce t new_func f w once = elim (Option-cases (entry t f.informers)) [
      | inl missing ↦ rw (missing, informer_for) once
      | inr (informer, found) ↦ rw (found, informer_for) once
    ]

    reach-RunOnce : (f g : SharedInformerFactory J) → RunOnce f → Reach W f g → RunOnce g
    unfolding start
    reach-RunOnce f _ once here = once
    reach-RunOnce f _ once (started {g} steps) =
        start_each-RunOnce g.informers g (reach-RunOnce f g once steps)
    reach-RunOnce f _ once (asked {g} t new_func w steps) =
        informer_for-RunOnce t new_func g w (reach-RunOnce f g once steps)

    informer_for-entry :
        (t u : String) (new_func : Action W J) (f : SharedInformerFactory J) (w : W) (informer : J)
        → entry u f.informers ≡ some informer
        → entry u (informer_for t new_func (f, w)).1.0.informers ≡ some informer
    unfolding informer_for
    informer_for-entry t u new_func f w informer h = elim (Option-cases (entry t f.informers)) [
      | inl missing ↦ rw (missing, informer_for) (ground (arith, eq_iff t u))
      | inr (other, found) ↦ rw (found, informer_for) h
    ]

    informer_for-stores :
        (t : String) (new_func : Action W J) (f : SharedInformerFactory J) (w : W)
        → entry t (informer_for t new_func (f, w)).1.0.informers
          ≡ some (informer_for t new_func (f, w)).0
    unfolding informer_for
    informer_for-stores t new_func f w = elim (Option-cases (entry t f.informers)) [
      | inl missing ↦ rw (missing, informer_for) (ground (arith, str_eq_refl t))
      | inr (informer, found) ↦ rw (found, informer_for) found
    ]

    reach-entry :
        (f g : SharedInformerFactory J) (t : String) (informer : J)
        → entry t f.informers ≡ some informer
        → Reach W f g
        → entry t g.informers ≡ some informer
    unfolding start
    reach-entry f _ t informer h here = h
    reach-entry f _ t informer h (started {g} steps) =
        ap (entry t) (start_each-informers g.informers g) ∙ reach-entry f g t informer h steps
    reach-entry f _ t informer h (asked {g} u other v steps) =
        informer_for-entry u t other g v informer (reach-entry f g t informer h steps)

    -- Whatever was asked for and started before, and is asked for and started in between: who asks for
    -- the same type again, even with another constructor, gets the informer that the first one got, and
    -- nothing changes.
    pub informer_shared :
        (f g : SharedInformerFactory J) (t : String) (new_func again : Action W J) (w v : W)
        → Reach W (informer_for t new_func (f, w)).1.0 g
        → informer_for t again (g, v) ≡ ((informer_for t new_func (f, w)).0, (g, v))
    unfolding informer_for
    informer_shared f g t new_func again w v steps =
        let stored = informer_for-stores t new_func f w in
        rw
          (
            reach-entry (informer_for t new_func (f, w)).1.0 g t (informer_for t new_func (f, w)).0
                stored steps,
            informer_for,
          )
          refl

    -- After any history of a new factory that ends with a Start, each informer that was asked for
    -- has been run once.
    pub started_once :
        (f : SharedInformerFactory J) (t : String) (informer : J)
        → Reach W new_factory f
        → entry t f.informers ≡ some informer
        → count t (start f).runs ≡ 1
    unfolding new_factory start
    started_once f t informer steps h =
        let once =
          start_each-RunOnce f.informers f (reach-RunOnce new_factory f (λ u. refl) steps) in
        let runs = start_each_starts f.informers t informer f h in once t ∙ rw runs refl
