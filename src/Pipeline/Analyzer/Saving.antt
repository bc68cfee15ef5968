-- ===== src/Pipeline/Analyzer/Saving.antt =====
-- What saving a dropped message does (spamallam/app/pipeline/analyzer.py, `_save_raw_copy` and
-- `_save_quarantine`).
use spamallam.Prelude.{
  ◌≡◌, refl, inl, inr, Bool-cases, Bool, true, false, Option, none, some, [], ◌∷◌, ◌++◌, Text,
  Bytes,
}
use spamallam.Pipeline.Run.{Journal, Run, ◌>>=◌, pure, lift, event, finish, store_entry, store_raw}
use spamallam.Pipeline.Analyzer.Base.{Env, Request, MsgHeaders, Scored}
use spamallam.Pipeline.Analyzer.Verdict.{
  save_raw_as, saved_raw, save_entry_as, saved_entry, save_raw_copy, save_quarantine, entry_of,
}

unfoldable pub run : Unit {0}
unfolding ◌>>=◌ pure lift event finish store_entry store_raw
run = tt

-- The run returns, and touches neither the quarantine nor the end of the trace.
pub record IsQuiet {A : Type 0} (m : Run A) (j : Journal) : Type 0 where
  pub value : A
  pub returns : (m j).0 ≡ some value
  pub entries : (m j).1.entries ≡ j.entries
  pub finished : (m j).1.finished ≡ j.finished

module _ (env : Env) (req : Request) where
  IsQuiet-saved_raw :
      (id day : Text) (copy : Bytes) (o : Option Text) (j : Journal)
      → IsQuiet (saved_raw env req id day copy o) j
  unfolding run
  IsQuiet-saved_raw id day copy none j = record {
    value = true;
    returns = refl;
    entries = refl;
    finished = refl;
  }
  IsQuiet-saved_raw id day copy (some text) j = record {
    value = false;
    returns = refl;
    entries = refl;
    finished = refl;
  }

  IsQuiet-save_raw_as :
      (tagged : Bytes) (o : Option (Text × Text)) (j : Journal)
      → IsQuiet (save_raw_as env req tagged o) j
  unfolding run
  IsQuiet-save_raw_as tagged none j = record {
    value = false;
    returns = refl;
    entries = refl;
    finished = refl;
  }
  IsQuiet-save_raw_as tagged (some (id, day)) j =
      let copy = env.strip_for_review tagged in
      IsQuiet-saved_raw id day copy (env.raw_save id day copy) j

  pub IsQuiet-save_raw_copy :
      (tagged : Bytes) (j : Journal) → IsQuiet (save_raw_copy env req tagged) j
  unfolding save_raw_copy
  IsQuiet-save_raw_copy tagged j = IsQuiet-save_raw_as tagged req.trace j

module _ (env : Env) (req : Request) (cleaned : Bytes) (s : Scored) (h : MsgHeaders) where
  -- The message stands in the quarantine, as the last of the entries.
  abbrev pub IsHeld : Text → Journal → Journal → Type 0
  IsHeld why j j' =
      (at_day : Text × Text) × (req.trace ≡ some at_day)
      × (j'.entries ≡ j.entries ++ entry_of env req cleaned s why h at_day ∷ [])

  -- Saving to the quarantine returns whether the message is held; if not, nothing was written.
  pub record IsSaving (why : Text) (m : Run Bool) (j : Journal) : Type 0 where
    pub held : Bool
    pub returns : (m j).0 ≡ some held
    pub finished : (m j).1.finished ≡ j.finished
    pub when_held : held ≡ true → IsHeld why j (m j).1
    pub otherwise : held ≡ false → (m j).1.entries ≡ j.entries

  IsSaving-not : (why : Text) (j : Journal) → IsSaving why (pure false) j
  unfolding run
  IsSaving-not why j = record {
    held = false;
    returns = refl;
    finished = refl;
    when_held = λ e. cc;
    otherwise = λ e. refl;
  }

  IsSaving-saved_entry :
      (why : Text) (at_day : Text × Text) (o : Option Text) (j : Journal)
      → req.trace ≡ some at_day
      → IsSaving why (saved_entry env req (entry_of env req cleaned s why h at_day) o) j
  unfolding run
  IsSaving-saved_entry why at_day none j e = record {
    held = true;
    returns = refl;
    finished = refl;
    when_held = λ _. (at_day, e, refl);
    otherwise = λ f. cc;
  }
  IsSaving-saved_entry why at_day (some text) j e = record {
    held = false;
    returns = refl;
    finished = refl;
    when_held = λ f. cc;
    otherwise = λ _. refl;
  }

  IsSaving-save_entry_as :
      (why : Text) (o : Option (Text × Text)) (j : Journal)
      → req.trace ≡ o
      → IsSaving why (save_entry_as env req cleaned s why h o) j
  IsSaving-save_entry_as why none j e = IsSaving-not why j
  IsSaving-save_entry_as why (some at_day) j e = IsSaving-saved_entry why at_day _ j e

  pub IsSaving-save_quarantine :
      (why : Text) (j : Journal) → IsSaving why (save_quarantine env req cleaned s why h) j
  unfolding save_quarantine
  IsSaving-save_quarantine why j = elim (Bool-cases env.cfg.quarantine_enabled) [
    | inl e ↦ simp e (IsSaving-save_entry_as why req.trace j refl)
    | inr e ↦ simp e (IsSaving-not why j)
  ]
