-- ===== src/Lifecycle/Spec.antt =====
-- What the life of a claim promises, without the code: a user asks for a lease, the controller grants
-- it for a time, and either of them may drop it.
use k8cc.Prelude.{ℕ, ◌+◌, ◌≤◌, ◌≡◌, subst, sym, arith}

pub data LeaseState : Type 0 where
  absent asked : LeaseState
  until : ℕ → LeaseState

-- A step of the controller between two times: a lease that it grants has not ended, and is no longer
-- than `longest`. It never takes a lease back to one that is only asked for.
pub data ControllerStep (longest from upto : ℕ) (x y : LeaseState) : Type 0 where
  keep : y ≡ x → ControllerStep longest from upto x y
  drop : y ≡ absent → ControllerStep longest from upto x y
  grant :
      (t : ℕ) → y ≡ until t → from ≤ t → t ≤ upto + longest → ControllerStep longest from upto x y

-- A step of the service: it grants nothing.
pub data ServiceStep (x y : LeaseState) : Type 0 where
  same : y ≡ x → ServiceStep x y
  ask : y ≡ asked → ServiceStep x y
  gone : y ≡ absent → ServiceStep x y

-- No lease goes beyond the longest one from now.
abbrev pub IsBounded : ℕ → ℕ → LeaseState → Type 0
IsBounded longest now absent = Unit
IsBounded longest now asked = Unit
IsBounded longest now (until t) = t ≤ now + longest

pub IsBounded-later :
    (longest now later : ℕ) (x : LeaseState)
    → now ≤ later
    → IsBounded longest now x
    → IsBounded longest later x
IsBounded-later longest now later absent h b = tt
IsBounded-later longest now later asked h b = tt
IsBounded-later longest now later (until t) h b = omega arith

pub ControllerStep-earlier :
    (longest first from upto : ℕ) (x y : LeaseState)
    → first ≤ from
    → ControllerStep longest from upto x y
    → ControllerStep longest first upto x y
ControllerStep-earlier longest first from upto x y h (keep e) = keep e
ControllerStep-earlier longest first from upto x y h (drop e) = drop e
ControllerStep-earlier longest first from upto x y h (grant t e low high) =
    grant t e (omega arith) high

pub ServiceStep-trans : (x y z : LeaseState) → ServiceStep x y → ServiceStep y z → ServiceStep x z
ServiceStep-trans x y z s (same e) = subst (ServiceStep x) (sym e) s
ServiceStep-trans x y z s (ask e) = ask e
ServiceStep-trans x y z s (gone e) = gone e

pub ControllerStep-IsBounded :
    (longest from upto : ℕ) (x y : LeaseState)
    → from ≤ upto
    → ControllerStep longest from upto x y
    → IsBounded longest from x
    → IsBounded longest upto y
ControllerStep-IsBounded longest from upto x y h (keep e) b =
    rw e (IsBounded-later longest from upto x h b)
ControllerStep-IsBounded longest from upto x y h (drop e) b = rw e tt
ControllerStep-IsBounded longest from upto x y h (grant t e low high) b = rw e high

pub ServiceStep-IsBounded :
    (longest from upto : ℕ) (x y : LeaseState)
    → from ≤ upto
    → ServiceStep x y
    → IsBounded longest from x
    → IsBounded longest upto y
ServiceStep-IsBounded longest from upto x y h (same e) b =
    rw e (IsBounded-later longest from upto x h b)
ServiceStep-IsBounded longest from upto x y h (ask e) b = rw e tt
ServiceStep-IsBounded longest from upto x y h (gone e) b = rw e tt
