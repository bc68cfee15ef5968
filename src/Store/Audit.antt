-- ===== src/Store/Audit.antt =====
-- The audit log (spamallam/app/store/audit.py), a file of JSON lines that is only appended to, and
-- the log of block suggestions, which is read in the same way (spamallam/app/tools/unifi.py).
pub mod Tail
mod Tests
use mathlib.Core.List.{reverse}
use spamallam.Prelude.{
  ℕ, zero, suc, ◌-◌, Bool, Option, none, some, List, [], ◌∷◌, ◌++◌, ◌==◌, if◌then◌else◌, length,
  drop, Text, codes,
}

pub record AuditEntry (Json : Type 0) : Type 0 where
  pub ts : Text
  pub actor : Text
  pub action : Text
  pub detail : Json

-- A changed setting: its path, and its old and new value.
pub record Change (Json : Type 0) : Type 0 where
  pub path : Text
  pub old : Json
  pub new : Json

-- A file of lines; one that does not parse is `none`.
abbrev pub Lines : Type 0 → Type 0
Lines A = List (Option A)

module _ {Json : Type 0} (redact : Json → Json) where
  -- record(actor, action, detail)
  unfoldable pub record_audit :
      Text → Text → Text → Json → Lines (AuditEntry Json) → Lines (AuditEntry Json)
  record_audit ts actor action detail log =
      log ++ some (record { ts = ts; actor = actor; action = action; detail = redact detail }) ∷ []

  -- record_changes(actor, changes), with the object that a change is printed as.
  unfoldable pub record_changes :
      (Change Json → Json)
      → Text
      → Text
      → List (Change Json)
      → Lines (AuditEntry Json)
      → Lines (AuditEntry Json)
  unfolding record_audit
  record_changes print_change ts actor [] log = log
  record_changes print_change ts actor (c ∷ changes) log =
      record_changes print_change ts actor changes
        (record_audit ts actor (codes "setting.change") (print_change c) log)

module _ {A : Type 0} where
  -- `lines[-limit:]`, which is the whole list at 0.
  abbrev pub last_lines : ℕ → Lines A → Lines A
  last_lines zero lines = lines
  last_lines (suc n) lines = drop (length lines - suc n) lines

  abbrev pub cons_parsed : Option A → List A → List A
  cons_parsed none rest = rest
  cons_parsed (some a) rest = a ∷ rest

  abbrev pub parsed_lines : Lines A → List A
  parsed_lines [] = []
  parsed_lines (line ∷ lines) = cons_parsed line (parsed_lines lines)

  abbrev pub tail_of : ℕ → Option (Lines A) → List A
  tail_of limit none = []
  tail_of limit (some lines) = reverse (parsed_lines (last_lines limit lines))

  -- tail(limit); there is no file before the first entry.
  unfoldable pub tail : ℕ → Option (Lines A) → List A
  tail limit file = tail_of limit file

  -- read_suggestions(limit)
  unfoldable pub read_suggestions : ℕ → Option (Lines A) → List A
  read_suggestions limit file = tail_of limit file
