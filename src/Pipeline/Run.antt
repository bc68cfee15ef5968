-- ===== src/Pipeline/Run.antt =====
-- Code that appends to a trace, may write to the stores, and may raise. What was written before an
-- exception stays written.
pub mod Keeping
pub mod Yields
use spamallam.Prelude.{
  ◌≡◌, refl, Option, none, some, Bool, true, false, if◌then◌else◌, List, [], ◌∷◌, ◌++◌, Text, Bytes,
  Float,
}
use spamallam.Pipeline.Failure.{Policy}
use spamallam.Pipeline.Overrides.{Source}
use spamallam.Pipeline.Headers.Verdict.{SpamallamVerdict}
use spamallam.Pipeline.Rspamd.{RspamdResult}

pub data Action : Type 0 where
  deliver drop tempfail : Action

-- A control that did not run, by its name in sorted order.
pub data Failed : Type 0 where
  ai antivirus rspamd : Failed

-- The events of a message trace, with the fields that tell what was decided.
pub data Event : Type 0 where
  headers_stripped : List Bytes → Event
  whitelist_denied : Text → Source → Bool → Event
  whitelist blocklist : Text → Event
  ai_skipped : Event
  ai_error : Text → Event
  ai_bypass : Text → Float → Event
  rspamd_scored : Text → Float → Event
  antivirus_error rspamd_error : Text → Event
  raw_save_error quarantine_save_error body_rewrite_error : Text → Event
  control_failure : List Failed → Policy → Event
  quarantine_unavailable : Event

-- What `trace.finish` records: the action, and `_verdict_dict`.
pub record Finish : Type 0 where
  pub action : Action
  pub failed_controls : List Failed
  pub verdict : SpamallamVerdict
  pub rspamd_action : Text
  pub rspamd_score : Float
  pub drop_reason : Text
  pub raw_saved : Bool
  pub quarantined : Bool

-- A message held in quarantine: its trace id and day, who sent it to whom, why, and its bytes.
pub record Entry : Type 0 where
  pub id : Text
  pub day : Text
  pub envelope_from : Text
  pub from_header : Text
  pub subject : Text
  pub message_id : Text
  pub rcpt_tos : List Text
  pub client_addr : Text
  pub client_name : Text
  pub drop_reason : Text
  pub verdict : SpamallamVerdict
  pub rspamd_action : Text
  pub rspamd_score : Float
  pub original : Bytes

pub record Journal : Type 0 where
  pub events : List Event
  pub finished : List Finish
  pub entries : List Entry
  pub raw_copies : List (Text × Text × Bytes)

abbrev pub empty_journal : Journal
empty_journal = record { events = []; finished = []; entries = []; raw_copies = [] }

-- `none` is an exception that leaves the code.
abbrev pub Run : Type 0 → Type 0
Run A = Journal → Option A × Journal

abbrev pub continue : {A B : Type 0} → Option A → (A → Run B) → Run B
continue none f j = (none, j)
continue (some a) f j = f a j

module _ {A B : Type 0} where
  infixl 5 ◌>>=◌ ◌>>◌
  unfoldable pub ◌>>=◌ : Run A → (A → Run B) → Run B
  ◌>>=◌ m f j = continue (m j).0 f (m j).1

  abbrev pub ◌>>◌ : Run A → Run B → Run B
  m >> k = m >>= λ _. k

module _ {A : Type 0} where
  unfoldable pub pure : A → Run A
  pure a j = (some a, j)

  unfoldable pub lift : Option A → Run A
  lift o j = (o, j)

unfoldable pub event : Event → Run (Unit {0})
event e j = (some tt, record j { events = j.events ++ e ∷ [] })

-- MessageTrace.finish: appending the line to the trace log may raise.
unfoldable pub finish : (Finish → Bool) → Finish → Run (Unit {0})
finish fails f j =
    if fails f then (none, j) else (some tt, record j { finished = j.finished ++ f ∷ [] })

unfoldable pub store_entry : Entry → Run (Unit {0})
store_entry e j = (some tt, record j { entries = j.entries ++ e ∷ [] })

unfoldable pub store_raw : Text → Text → Bytes → Run (Unit {0})
store_raw id day data_bytes j =
    (some tt, record j { raw_copies = j.raw_copies ++ (id, day, data_bytes) ∷ [] })

-- A run that returned went through its parts.
pub bind-eq-some :
    {A B : Type 0} (m : Run A) (f : A → Run B) (j : Journal) {b : B}
    → ((m >>= f) j).0 ≡ some b
    → (a : A) × ((m j).0 ≡ some a)
      × ((f a (m j).1).0 ≡ some b)
      × (((m >>= f) j).1 ≡ (f a (m j).1).1)
unfolding ◌>>=◌
bind-eq-some {A} {B} m f j {b} e = go (m j).0 (m j).1 e
  where
    go :
        (o : Option A) (k : Journal)
        → (continue o f k).0 ≡ some b
        → (a : A) × (o ≡ some a) × ((f a k).0 ≡ some b) × ((continue o f k).1 ≡ (f a k).1)
    go none k e = cc
    go (some a) k e = (a, refl, e, refl)
