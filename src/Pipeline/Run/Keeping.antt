-- ===== src/Pipeline/Run/Keeping.antt =====
-- Runs that write neither to the quarantine nor the end of the trace, one rule for each way to
-- build a run.
use spamallam.Prelude.{◌≡◌, refl, ◌∙◌, Bool, true, false, Option, none, some, if◌then◌else◌}
use spamallam.Pipeline.Run.{Event, Journal, Run, continue, ◌>>=◌, pure, lift, event}

pub record Keeps {A : Type 0} (m : Run A) : Type 0 where
  pub entries : (j : Journal) → (m j).1.entries ≡ j.entries
  pub finished : (j : Journal) → (m j).1.finished ≡ j.finished

module _ {A : Type 0} where
  pub Keeps-pure : (a : A) → Keeps (pure a)
  unfolding pure
  Keeps-pure a = record { entries = λ j. refl; finished = λ j. refl }

  pub Keeps-lift : (o : Option A) → Keeps (lift o)
  unfolding lift
  Keeps-lift o = record { entries = λ j. refl; finished = λ j. refl }

  pub Keeps-if : (b : Bool) (m n : Run A) → Keeps m → Keeps n → Keeps (if b then m else n)
  Keeps-if true m n h k = h
  Keeps-if false m n h k = k

pub Keeps-event : (e : Event) → Keeps (event e)
unfolding event
Keeps-event e = record { entries = λ j. refl; finished = λ j. refl }

module _ {A B : Type 0} (f : A → Run B) (k : (a : A) → Keeps (f a)) where
  continue-entries : (o : Option A) (j : Journal) → (continue o f j).1.entries ≡ j.entries
  continue-entries none j = refl
  continue-entries (some a) j = (k a).entries j

  continue-finished : (o : Option A) (j : Journal) → (continue o f j).1.finished ≡ j.finished
  continue-finished none j = refl
  continue-finished (some a) j = (k a).finished j

pub Keeps-bind :
    {A B : Type 0} (m : Run A) (f : A → Run B) → Keeps m → ((a : A) → Keeps (f a)) → Keeps (m >>= f)
unfolding ◌>>=◌
Keeps-bind m f h k = record {
  entries = λ j. continue-entries f k (m j).0 (m j).1 ∙ h.entries j;
  finished = λ j. continue-finished f k (m j).0 (m j).1 ∙ h.finished j;
}

pub ruleset keeps_rules = (Keeps-pure, Keeps-lift, Keeps-if, Keeps-event, Keeps-bind)
