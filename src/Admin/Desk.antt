-- ===== src/Admin/Desk.antt =====
-- The quarantine routes of the admin application (spamallam/app/admin/app.py): the entries, who
-- may see them, and their names. The relay, the cipher, the parser of messages and the clock are arguments.
pub mod Acting
pub mod Listing
pub mod Seeing
pub mod Releasing
mod Tests
use spamallam.Prelude.{
  ℕ, zero, suc, ◌+◌, Bool, true, false, not, ◌&&◌, ◌||◌, Option, none, some, List, [], ◌∷◌, ◌++◌,
  map, leb, ◌==◌, if◌then◌else◌, all, keep, is_empty, length, take, Text, Bytes, codes, text_eq,
  text_le, strip, lower, join, words, get,
}
use spamallam.Pipeline.Headers.Verdict.{prepend_headers}
use spamallam.Pipeline.Overrides.{domain_of}
use spamallam.Pipeline.Sanitize.Preview.{MailReader, preview_document}
use spamallam.Store.Quarantine.{
  Status, quarantined, released, deleted, Meta, Box, Faults, Days, get_meta, get_original, mark,
}
use spamallam.Store.Users.{User, Users, owned_recipients, user_can_see_address}
use spamallam.Admin.Sessions.{Guarded, granted, denied, require_user, has_privileges, check_csrf}
use spamallam.Admin.Requests.{Keys, AdminRequest, csrf_passed}

-- What the pipeline wrote of a message; a missing value is empty.
pub record Held : Type 0 where
  pub envelope_from : Text
  pub from_header : Text
  pub subject : Text
  pub rcpt_tos : List Text
  pub ai_verdict : Text
  pub drop_reason : Text

-- What is handed to the relay.
pub record Sent : Type 0 where
  pub mail_from : Text
  pub rcpts : List Text
  pub message : Bytes

pub data DeskAction : Type 0 where
  previewed deleted_entry : Text → Text → Text → DeskAction
  -- The entry, its sender, the recipients and the whitelisted domain.
  released_entry : Text → Text → Text → List Text → Text → DeskAction
  whitelist_changed : List Text → List Text → DeskAction

-- overrides.whitelist_domains stands for the settings.
pub record Desk : Type 0 where
  pub days : Days Held
  pub whitelist : List Text
  pub sent : List Sent
  pub audits : List (Text × DeskAction)

-- The key of the quarantine, the clock, the relay, the faults of a request, str.isdecimal of a
-- character, and the parser of messages.
pub record Station : Type 0 where
  pub keys : Keys
  pub box : Box
  pub now : Text
  -- reinject(mail_from, rcpts, message): whether it succeeds.
  pub reinject : Text → List Text → Bytes → Bool
  pub faults : Faults
  pub is_digit : ℕ → Bool
  pub reader : MailReader

-- `$` also matches before a line break at the end.
abbrev pub ends_here : Text → Bool
ends_here s = is_empty s || text_eq s (10 ∷ [])

-- n characters of a kind, then the rest.
abbrev pub repeats : (ℕ → Bool) → ℕ → (Text → Bool) → Text → Bool
repeats p zero rest s = rest s
repeats p (suc n) rest [] = false
repeats p (suc n) rest (c ∷ s) = p c && repeats p n rest s

abbrev pub dash_then : (Text → Bool) → Text → Bool
dash_then rest [] = false
dash_then rest (c ∷ s) = c == 45 && rest s

-- _DAY_RE
unfoldable pub is_day : (ℕ → Bool) → Text → Bool
is_day is_digit =
    repeats is_digit 4 (dash_then (repeats is_digit 2 (dash_then (repeats is_digit 2 ends_here))))

abbrev pub is_hex : ℕ → Bool
is_hex c = leb 48 c && leb c 57 || leb 97 c && leb c 102

-- [0-9a-f]{0,n}$
abbrev pub hex_up_to : ℕ → Text → Bool
hex_up_to zero s = ends_here s
hex_up_to (suc n) [] = true
hex_up_to (suc n) (c ∷ s) = is_hex c && hex_up_to n s || ends_here (c ∷ s)

abbrev pub some_hex : Text → Bool
some_hex [] = false
some_hex (c ∷ s) = is_hex c && hex_up_to 31 s

-- _TRACE_ID_RE
unfoldable pub is_trace_id : Text → Bool
is_trace_id s = some_hex s

-- sorted({*xs}), by insertion.
abbrev pub insert_text : Text → List Text → List Text
insert_text x [] = x ∷ []
insert_text x (y ∷ ys) =
    let later = y ∷ insert_text x ys in
    if text_eq x y then y ∷ ys else if text_le x y then x ∷ y ∷ ys else later

unfoldable pub sorted_set : List Text → List Text
sorted_set [] = []
sorted_set (x ∷ xs) = insert_text x (sorted_set xs)

-- sorted(xs)
abbrev pub insert_any : Text → List Text → List Text
insert_any x [] = x ∷ []
insert_any x (y ∷ ys) = let later = y ∷ insert_any x ys in if text_le x y then x ∷ y ∷ ys else later

unfoldable pub sorted_texts : List Text → List Text
sorted_texts [] = []
sorted_texts (x ∷ xs) = insert_any x (sorted_texts xs)

abbrev pub same_texts : List Text → List Text → Bool
same_texts [] [] = true
same_texts (x ∷ xs) (y ∷ ys) = text_eq x y && same_texts xs ys
same_texts [] (y ∷ ys) = false
same_texts (x ∷ xs) [] = false

abbrev pub noted : Text → DeskAction → Desk → Desk
noted username action s = record s { audits = s.audits ++ (username, action) ∷ [] }

-- The note of a release.
abbrev pub release_note : Text → Held → Text
release_note username held = take 900 (
    join (codes " ") (
      words (
        codes "by "
        ++ (username
            ++ (codes "; original-verdict="
                ++ (held.ai_verdict ++ (codes "; reason=" ++ held.drop_reason)))))))

module _ (station : Station) (users : Users) where
  -- _is_admin(username)
  unfoldable pub is_admin : Text → Bool
  is_admin username = has_privileges station.keys.sessions users (get username users)

  -- _can_see_entry(username, entry)
  unfoldable pub can_see_entry : Text → Held → Bool
  can_see_entry username held =
      if is_admin username
      then true
      else user_can_see_address station.keys.parse_address (get username users) held.rcpt_tos

  abbrev pub seen_by : Text → Option (Meta Held) → Guarded (Text × Meta Held)
  seen_by username none = denied 404
  seen_by username (some rec) =
      if can_see_entry username rec.info then granted (username, rec) else denied 403

  abbrev pub entry_for : Text → Text → Days Held → Guarded Text → Guarded (Text × Meta Held)
  entry_for day id days (denied status) = denied status
  entry_for day id days (granted username) =
      if not (is_day station.is_digit day) || not (is_trace_id id)
      then denied 400
      else seen_by username (get_meta id day days)

  -- _load_entry_for_action(request, day, entry_id)
  unfoldable pub load_entry : Option Text → Text → Text → Days Held → Guarded (Text × Meta Held)
  load_entry cookie day id days =
      entry_for day id days (require_user station.keys.sessions users cookie)
