-- ===== src/Pipeline/Run/Yields.antt =====
-- Runs that return, whatever was written before, with a value that has a property.
use spamallam.Prelude.{◌≡◌, refl, Bool, true, false, Option, none, some, if◌then◌else◌}
use spamallam.Pipeline.Run.{Event, Journal, Run, continue, ◌>>=◌, pure, lift, event}

module _ {A : Type 0} where
  abbrev pub Yields : (A → Type 0) → Run A → Type 0
  Yields P m = (j : Journal) → (a : A) × ((m j).0 ≡ some a) × P a

  pub Yields-pure : (P : A → Type 0) (a : A) → P a → Yields P (pure a)
  unfolding pure
  Yields-pure P a h j = (a, refl, h)

  pub Yields-lift : (P : A → Type 0) (o : Option A) (a : A) → o ≡ some a → P a → Yields P (lift o)
  unfolding lift
  Yields-lift P o a e h j = (a, e, h)

  pub Yields-if :
      (P : A → Type 0) (b : Bool) (m n : Run A)
      → Yields P m
      → Yields P n
      → Yields P (if b then m else n)
  Yields-if P true m n h k = h
  Yields-if P false m n h k = k

abbrev pub Anything : {A : Type 0} → A → Type 0
Anything a = Unit

pub Yields-event : (e : Event) → Yields Anything (event e)
unfolding event
Yields-event e j = (tt, refl, tt)

module _ {A B : Type 0} (P : A → Type 0) (Q : B → Type 0) (m : Run A) (f : A → Run B) where
  continue-Yields :
      (o : Option A) (j : Journal) (a : A)
      → o ≡ some a
      → Yields Q (f a)
      → (b : B) × ((continue o f j).0 ≡ some b) × Q b
  continue-Yields none j a e k = cc
  continue-Yields (some x) j a e k =
      let (b, g, h) = k j in let same : x ≡ a = cc e in (b, simp same g, h)

  pub Yields-bind : Yields P m → ((a : A) → P a → Yields Q (f a)) → Yields Q (m >>= f)
  unfolding ◌>>=◌
  Yields-bind h k j = let (a, e, p) = h j in continue-Yields (m j).0 (m j).1 a e (k a p)
