-- ===== src/Admin/Desk/Listing.antt =====
-- The page of the quarantine (spamallam/app/admin/app.py, `quarantine_page`).
use spamallam.Prelude.{
  ◌≡◌, refl, sym, ap, subst, ◌∙◌, inl, inr, Bool-cases, Bool, true, false, not, ◌&&◌, Option, none,
  some, List, [], ◌∷◌, ◌++◌, map, if◌then◌else◌, is_empty, keep, All, Text, codes, lower, join, get,
}
use spamallam.Pipeline.Headers.Message.{contains}
use spamallam.Store.Quarantine.{Meta, Days, list_entries}
use spamallam.Store.Users.{Users, owned_recipients, user_can_see_address}
use spamallam.Admin.Sessions.{Guarded, granted, denied, require_user}
use spamallam.Admin.Sessions.Granting.{IsSession, require_user-IsSession}
use spamallam.Admin.Desk.{Held, Station, is_day, is_admin, can_see_entry}
use spamallam.Admin.Desk.Acting.{release_rcpts}

-- A row: the entry, and what a release by the user goes to, for a user who is no admin.
pub record Row : Type 0 where
  pub rec : Meta Held
  pub release_to : Option (List Text)

abbrev pub plain_row : Meta Held → Row
plain_row rec = record { rec = rec; release_to = none }

abbrev pub none_if_no : Text → Option Text
none_if_no day = if is_empty day then none else some day

-- The text that the search looks in.
abbrev pub search_text : Row → Text
search_text row =
    let held = row.rec.info in
    lower (
      held.subject
      ++ (codes " "
          ++ (held.from_header
              ++ (codes " "
                  ++ (held.envelope_from ++ (codes " " ++ join (codes " ") held.rcpt_tos))))))

module _ (station : Station) (users : Users) where
  -- The entries that have a recipient of the user's own.
  unfoldable pub own_rows : Text → List (Meta Held) → List Row
  own_rows username [] = []
  own_rows username (rec ∷ recs) =
      let owned =
        owned_recipients station.keys.parse_address (get username users) rec.info.rcpt_tos in
      let rest = own_rows username recs in
      if is_empty owned then rest else record { rec = rec; release_to = some owned } ∷ rest

  -- The filter of the search; an empty one keeps all.
  abbrev pub matches : Text → Row → Bool
  matches q row = if is_empty q then true else contains (lower q) (search_text row)

  abbrev pub rows_for : Text → Text → Bool → Days Held → Text → List Row
  rows_for q day all_shown days username =
      let admin = is_admin station users username in
      let recs = list_entries 1000 (none_if_no day) (admin && all_shown) days in
      keep (matches q) (if admin then map plain_row recs else own_rows username recs)

  abbrev pub page_for : Text → Text → Bool → Days Held → Guarded Text → Guarded (Text × List Row)
  page_for q day all_shown days (denied status) = denied status
  page_for q day all_shown days (granted username) =
      if not (is_empty day) && not (is_day station.is_digit day)
      then denied 400
      else granted (username, rows_for q day all_shown days username)

  -- GET /quarantine
  unfoldable pub quarantine_page :
      Option Text → Text → Text → Bool → Days Held → Guarded (Text × List Row)
  quarantine_page cookie q day all_shown days =
      page_for q day all_shown days (require_user station.keys.sessions users cookie)

  -- The user may see the entry, and a release of it goes to what the row says.
  abbrev pub IsRow : Text → Row → Type 0
  IsRow username row =
      (can_see_entry station users username row.rec.info ≡ true)
      × ((rcpts : List Text)
          → row.release_to ≡ some rcpts
          → (release_rcpts station users username row.rec.info ≡ rcpts) × (is_empty rcpts ≡ false))

  All-plain_row :
      (username : Text) (recs : List (Meta Held))
      → is_admin station users username ≡ true
      → All (IsRow username) (map plain_row recs)
  unfolding can_see_entry
  All-plain_row username [] e = tt
  All-plain_row username (rec ∷ recs) e = ((simp e, λ rcpts f. cc f), All-plain_row username recs e)

  All-own_rows :
      (username : Text) (recs : List (Meta Held))
      → is_admin station users username ≡ false
      → All (IsRow username) (own_rows username recs)
  unfolding own_rows can_see_entry release_rcpts user_can_see_address
  All-own_rows username [] e = tt
  All-own_rows username (rec ∷ recs) e =
      let owned =
        owned_recipients station.keys.parse_address (get username users) rec.info.rcpt_tos in
      elim (Bool-cases (is_empty owned)) [
        | inl f ↦ simp f (All-own_rows username recs e)
        | inr f ↦ simp f (
          (
            simp e,
            λ rcpts g. let same : owned ≡ rcpts = cc g in (simp e same, ap is_empty (sym same) ∙ f),
          ),
          All-own_rows username recs e,
        )
      ]

  All-keep_rows :
      (P : Row → Type 0) (p : Row → Bool) (rows : List Row) → All P rows → All P (keep p rows)
  All-keep_rows P p [] h = tt
  All-keep_rows P p (row ∷ rows) (x, h) = elim (Bool-cases (p row)) [
    | inl e ↦ rw e (x, All-keep_rows P p rows h)
    | inr e ↦ rw e (All-keep_rows P p rows h)
  ]

  All-rows_for :
      (q day : Text) (all_shown : Bool) (days : Days Held) (username : Text)
      → All (IsRow username) (rows_for q day all_shown days username)
  All-rows_for q day all_shown days username =
      let admin = is_admin station users username in
      let recs = list_entries 1000 (none_if_no day) (admin && all_shown) days in
      All-keep_rows (IsRow username) (matches q)
        (if admin then map plain_row recs else own_rows username recs)
        (elim (Bool-cases admin) [
          | inl e ↦ simp e (All-plain_row username _ e)
          | inr e ↦ simp e (All-own_rows username _ e)
        ])

  page_for_lem :
      (cookie : Option Text) (q day : Text) (all_shown : Bool) (days : Days Held) (username : Text)
      (rows : List Row) (g : Guarded Text)
      → require_user station.keys.sessions users cookie ≡ g
      → page_for q day all_shown days g ≡ granted (username, rows)
      → IsSession station.keys.sessions users cookie username × All (IsRow username) rows
  page_for_lem cookie q day all_shown days username rows (denied status) r e = cc
  page_for_lem cookie q day all_shown days username rows (granted u) r e =
      elim (Bool-cases (not (is_empty day) && not (is_day station.is_digit day))) [
        | inl f ↦ cc (simp f at e)
        | inr f ↦
            let name : u ≡ username = cc (simp f at e) in
            let same : rows_for q day all_shown days u ≡ rows = cc (simp f at e) in
            (
              require_user-IsSession station.keys.sessions users cookie username
                  (r ∙ ap granted name),
              subst (All (IsRow username)) same (
                  subst (λ n. All (IsRow n) (rows_for q day all_shown days u)) name
                    (All-rows_for q day all_shown days u)),
            )
      ]

  -- The page shows a signed-in user only entries that the user may see, and what it says of a release
  -- is what a release goes to.
  pub quarantine_page_lem :
      (cookie : Option Text) (q day : Text) (all_shown : Bool) (days : Days Held) (username : Text)
      (rows : List Row)
      → quarantine_page cookie q day all_shown days ≡ granted (username, rows)
      → IsSession station.keys.sessions users cookie username × All (IsRow username) rows
  unfolding quarantine_page
  quarantine_page_lem cookie q day all_shown days username rows e =
      page_for_lem cookie q day all_shown days username rows
        (require_user station.keys.sessions users cookie) refl e
