-- ===== src/Admin/Desk/Seeing.antt =====
-- Who may see an entry of the quarantine (spamallam/app/admin/app.py, `_load_entry_for_action`).
use spamallam.Prelude.{
  ◌≡◌, refl, sym, ap, ◌∙◌, inl, inr, Bool-cases, true, false, not, ◌||◌, Option, none, some, Text,
}
use spamallam.Store.Quarantine.{Meta, Days, get_meta}
use spamallam.Store.Users.{Users}
use spamallam.Admin.Sessions.{Guarded, granted, denied, require_user}
use spamallam.Admin.Sessions.Granting.{IsSession, require_user-IsSession}
use spamallam.Admin.Desk.{
  Held, Station, is_day, is_trace_id, can_see_entry, seen_by, entry_for, load_entry,
}

module _ (station : Station) (users : Users) where
  -- The user is signed in, the names are well formed, the entry is there, and the user may see it.
  pub record IsSeen (cookie : Option Text) (day id : Text) (days : Days Held) (username : Text)
      (rec : Meta Held) : Type 0 where
    pub session : IsSession station.keys.sessions users cookie username
    pub well_named : (not (is_day station.is_digit day) || not (is_trace_id id)) ≡ false
    pub entry : get_meta id day days ≡ some rec
    pub visible : can_see_entry station users username rec.info ≡ true

  seen_by_lem :
      (u username : Text) (o : Option (Meta Held)) (rec : Meta Held)
      → seen_by station users u o ≡ granted (username, rec)
      → (u ≡ username) × (o ≡ some rec) × (can_see_entry station users username rec.info ≡ true)
  seen_by_lem u username none rec e = cc
  seen_by_lem u username (some found) rec e =
      elim (Bool-cases (can_see_entry station users u found.info)) [
        | inr f ↦ cc (simp f at e)
        | inl f ↦
            let name : u ≡ username = cc (simp f at e) in
            let same : found ≡ rec = cc (simp f at e) in
            (
              name,
              ap some same,
              ap (λ x. can_see_entry station users x rec.info) (sym name)
                  ∙ ap (λ (r : Meta Held). can_see_entry station users u r.info) (sym same)
                  ∙ f,
            )
      ]

  entry_for-IsSeen :
      (cookie : Option Text) (day id : Text) (days : Days Held) (username : Text) (rec : Meta Held)
      (g : Guarded Text)
      → require_user station.keys.sessions users cookie ≡ g
      → entry_for station users day id days g ≡ granted (username, rec)
      → IsSeen cookie day id days username rec
  entry_for-IsSeen cookie day id days username rec (denied status) r e = cc
  entry_for-IsSeen cookie day id days username rec (granted u) r e =
      let bad = not (is_day station.is_digit day) || not (is_trace_id id) in
      elim (Bool-cases bad) [
        | inl f ↦ cc (simp f at e)
        | inr f ↦
            let (same, m, v) = seen_by_lem u username (get_meta id day days) rec (simp f at e) in
            record {
              session =
                  require_user-IsSession station.keys.sessions users cookie username
                    (r ∙ ap granted same);
              well_named = f;
              entry = m;
              visible = v;
            }
      ]

  -- An entry is shown, released or deleted only for a user who is signed in and may see it.
  pub load_entry-IsSeen :
      (cookie : Option Text) (day id : Text) (days : Days Held) (username : Text) (rec : Meta Held)
      → load_entry station users cookie day id days ≡ granted (username, rec)
      → IsSeen cookie day id days username rec
  unfolding load_entry
  load_entry-IsSeen cookie day id days username rec e =
      entry_for-IsSeen cookie day id days username rec
        (require_user station.keys.sessions users cookie) refl e
