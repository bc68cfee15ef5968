-- ===== src/Admin/Desk/Tests.antt =====
-- Runs of the quarantine routes (spamallam/app/admin/app.py).
use spamallam.Prelude.{
  ◌≡◌, refl, Bool, true, false, ◌&&◌, leb, none, some, List, [], ◌∷◌, length, All, Text, codes,
  text_eq, get, put, remove, words_from, partition, encode,
}
use spamallam.Pipeline.Headers.Message.{contains}
use spamallam.Pipeline.Headers.Verdict.{prepend_headers}
use spamallam.Pipeline.Overrides.{domain_of, base_recipient}
use spamallam.Store.Quarantine.{
  Meta, quarantined, get_meta, get_original, mark, list_entries, collect, records_of,
}
use spamallam.Store.Users.{User, Users, normalize_address, owned_recipients, user_can_see_address}
use spamallam.Admin.Sessions.{Serializer, read_session, require_user, check_csrf}
use spamallam.Admin.Sessions.Granting.{IsSession}
use spamallam.Admin.Requests.{Keys, AdminRequest}
use spamallam.Admin.Desk.{
  Held, Sent, Desk, Station, is_day, is_trace_id, sorted_set, sorted_texts, is_admin, can_see_entry,
  load_entry,
}
use spamallam.Admin.Desk.Acting.{
  quarantine_preview, release_rcpts, quarantine_release, quarantine_delete,
}
use spamallam.Admin.Desk.Listing.{Row, own_rows, quarantine_page, IsRow, quarantine_page_lem}
use spamallam.Admin.Desk.Releasing.{IsReleasing, quarantine_release-IsReleasing}

desk : Unit {0}
unfolding encode text_eq get put remove words_from partition contains prepend_headers domain_of
    base_recipient get_meta get_original mark list_entries collect records_of normalize_address
    owned_recipients user_can_see_address read_session require_user check_csrf is_day is_trace_id
    sorted_set sorted_texts is_admin can_see_entry load_entry quarantine_preview release_rcpts
    quarantine_release quarantine_delete own_rows quarantine_page
desk = tt

abbrev signer : Serializer
signer = record { dumps = λ m. []; loads = λ raw ttl. some ((codes "u", raw) ∷ []) }

abbrev keys : Keys
keys = record {
  sessions = signer;
  csrf = signer;
  challenges = signer;
  b64url = λ b. b;
  unb64url = λ t. some t;
  hash_of = λ t. t;
  parse_address = λ a. a;
}

abbrev station : Station
station = record {
  keys = keys;
  box = record { encrypt = λ b. b; decrypt = λ t. some t };
  now = codes "now";
  reinject = λ mail_from rcpts message. true;
  faults = record { blob_write = false; meta_write = false; blob_unlink = false };
  is_digit = λ c. leb 48 c && leb c 57;
  reader = record {
    read = λ raw. none;
    decode = λ raw. raw;
    parse_html = λ m. none;
    is_word = λ c. true;
  };
}

abbrev held : Held
held = record {
  envelope_from = codes "x@evil.example";
  from_header = [];
  subject = codes "Hi";
  rcpt_tos = codes "ann@x.org" ∷ codes "bob@x.org" ∷ [];
  ai_verdict = codes "MALICIOUS";
  drop_reason = [];
}

abbrev entry : Meta Held
entry = record {
  info = held;
  id = codes "a1";
  day = codes "2026-01-02";
  ts = codes "t";
  size = 1;
  status = quarantined;
  acted = none;
}

abbrev state : Desk
state = record {
  days =
      (
        codes "2026-01-02",
        record {
          metas = (codes "a1", some entry) ∷ [];
          blobs = (codes "a1", codes "S: Hi\n\nx") ∷ [];
        },
      )
      ∷ [];
  whitelist = codes "a.example" ∷ [];
  sent = [];
  audits = [];
}

abbrev user_of : Bool → Text → User
user_of admin address = record {
  display = [];
  is_admin = admin;
  created = [];
  timezone = [];
  credentials = [];
  addresses = address ∷ [];
}

abbrev users : Users
users =
    (codes "root", user_of true (codes "root@x.org"))
    ∷ (codes "bob", user_of false (codes "Bob@x.org"))
    ∷ (codes "eve", user_of false (codes "eve@x.org"))
    ∷ []

abbrev from : Text → AdminRequest
from name = record { cookie = some name; csrf = name; csrf_header = none }

abbrev release : Text → Desk
release name =
    (quarantine_release station users (from name) (codes "2026-01-02") (codes "a1") true state).1

abbrev copy_to : List Text → Sent
copy_to rcpts = record {
  mail_from = codes "x@evil.example";
  rcpts = rcpts;
  message = codes "X-SpamAllam-Released: by bob; original-verdict=MALICIOUS; reason=\nS: Hi\n\nx";
}

release_test :
    ((release (codes "bob")).sent ≡ copy_to (codes "bob@x.org" ∷ []) ∷ [])
    × ((release (codes "bob")).whitelist ≡ codes "a.example" ∷ [])
    × ((release (codes "root")).whitelist ≡ codes "a.example" ∷ codes "evil.example" ∷ [])
    × (length (release (codes "root")).sent ≡ 1)
    × ((release (codes "eve")).sent ≡ [])
unfolding desk
release_test = (refl, refl, refl, refl, refl)

-- A line break at the end of a day passes.
is_day_test :
    (is_day station.is_digit (codes "2026-01-02\n") ≡ true)
    × (is_day station.is_digit (codes "2026-01-0a") ≡ false)
    × (is_trace_id (codes "../x") ≡ false)
unfolding desk
is_day_test = (refl, refl, refl)

quarantine_release-IsReleasing_example :
    IsReleasing station users
      (from (codes "bob"))
      (codes "2026-01-02")
      (codes "a1")
      state
      (release (codes "bob"))
quarantine_release-IsReleasing_example =
    quarantine_release-IsReleasing station users (from (codes "bob")) (codes "2026-01-02")
      (codes "a1") true state

abbrev bobs_rows : List Row
bobs_rows = record { rec = entry; release_to = some (codes "bob@x.org" ∷ []) } ∷ []

quarantine_page_lem_example :
    IsSession signer users (some (codes "bob")) (codes "bob")
    × All (IsRow station users (codes "bob")) bobs_rows
unfolding desk
quarantine_page_lem_example =
    quarantine_page_lem station users (some (codes "bob")) (codes "evil") [] false state.days
      (codes "bob") bobs_rows refl
