-- ===== src/Admin/Desk/Releasing.antt =====
-- What a release sends and changes (spamallam/app/admin/app.py, `quarantine_release`).
use spamallam.Prelude.{
  ◌≡◌, refl, ap, subst, ◌⊎◌, inl, inr, Bool-cases, Option-cases, Bool, true, false, ◌||◌, Option,
  none, some, List, [], ◌∷◌, ◌++◌, is_empty, map, strip, lower, Text, Bytes, codes, get,
}
use spamallam.Pipeline.Headers.Verdict.{prepend_headers}
use spamallam.Store.Quarantine.{released, Meta, Days, get_meta, get_original, mark}
use spamallam.Store.Users.{Users, owned_recipients}
use spamallam.Admin.Sessions.{Guarded, granted, denied, check_csrf}
use spamallam.Admin.Sessions.Granting.{IsSession}
use spamallam.Admin.Requests.{AdminRequest, csrf_passed}
use spamallam.Admin.Accounts.Authority.{IsToken, IsAdmin, csrf_passed_lem, check_csrf-IsToken}
use spamallam.Admin.Desk.{
  Held, Sent, Desk, Station, same_texts, sorted_set, sorted_texts, release_note, is_admin,
  load_entry,
}
use spamallam.Admin.Desk.Seeing.{load_entry-IsSeen}
use spamallam.Admin.Desk.Acting.{
  release_rcpts, release_domain, whitelist_domain, finish_release, hand_over, release_to,
  release_as, release_loaded, quarantine_release,
}

module _ (station : Station) (users : Users) where
  -- The recipients are all of the entry's, for an admin, or the user's own among them.
  abbrev pub IsEntitled : Text → Held → List Text → Type 0
  IsEntitled username held rcpts =
      (IsAdmin station.keys users username × (rcpts ≡ held.rcpt_tos))
      ⊎ (rcpts ≡ owned_recipients station.keys.parse_address (get username users) held.rcpt_tos)

  -- What a message that a request sends has to be: the stored message of the entry behind one more
  -- header, to recipients that the user is entitled to.
  pub record IsReleased (request : AdminRequest) (day id : Text) (before after : Desk)
      : Type 0 where
    pub username : Text
    pub rec : Meta Held
    pub raw : Bytes
    pub message : Bytes
    pub session : IsSession station.keys.sessions users request.cookie username
    pub token : IsToken station.keys.csrf request.csrf username
    pub entry : get_meta id day before.days ≡ some rec
    pub original : get_original station.box id day before.days ≡ some raw
    pub stamped :
        prepend_headers raw ((codes "X-SpamAllam-Released", release_note username rec.info) ∷ [])
        ≡ some message
    pub rcpts : List Text
    pub entitled : IsEntitled username rec.info rcpts
    pub some_rcpts : is_empty rcpts ≡ false
    pub sent :
        after.sent
        ≡ before.sent
          ++ record { mail_from = rec.info.envelope_from; rcpts = rcpts; message = message } ∷ []

  -- Nothing was sent and the whitelist stayed, or a message was released; then the whitelist stayed
  -- or the user is an admin.
  abbrev pub IsReleasing : AdminRequest → Text → Text → Desk → Desk → Type 0
  IsReleasing request day id before after =
      ((after.sent ≡ before.sent) × (after.whitelist ≡ before.whitelist))
      ⊎ ((r : IsReleased request day id before after) × ((after.whitelist ≡ before.whitelist)
            ⊎ IsAdmin station.keys users r.username))

  is_admin-IsAdmin :
      (username : Text)
      → is_admin station users username ≡ true
      → IsAdmin station.keys users username
  unfolding is_admin
  is_admin-IsAdmin username e = elim (Option-cases (get username users)) [
    | inl f ↦ cc (simp f at e)
    | inr (user, f) ↦ (user, f, simp f at e)
  ]

  release_rcpts-IsEntitled :
      (username : Text) (held : Held)
      → IsEntitled username held (release_rcpts station users username held)
  unfolding release_rcpts
  release_rcpts-IsEntitled username held = elim (Bool-cases (is_admin station users username)) [
    | inl e ↦ inl (is_admin-IsAdmin username e, simp e)
    | inr e ↦ inr (simp e)
  ]

  sent-whitelist_domain :
      (username dom : Text) (s : Desk)
      → (whitelist_domain station users username dom s).sent ≡ s.sent
  sent-whitelist_domain username dom s =
      let merged = sorted_set (dom ∷ map (λ d. strip (lower d)) s.whitelist) in
      elim (Bool-cases (is_empty dom || same_texts merged (sorted_texts s.whitelist))) [
        | inl e ↦ simp e
        | inr e ↦ simp e
      ]

  release_domain-none :
      (username : Text) (wanted : Bool) (held : Held)
      → is_admin station users username ≡ false
      → release_domain station users username wanted held ≡ []
  release_domain-none username true held e = simp e
  release_domain-none username false held e = refl

  -- The whitelist after a release.
  whitelist-finish_release :
      (username day id : Text) (wanted : Bool) (held : Held) (rcpts : List Text)
      (m : Option Bool × Days Held) (s : Desk)
      → ((finish_release station users username day id wanted held rcpts m s).1.sent ≡ s.sent)
        × (((finish_release station users username day id wanted held rcpts m s).1.whitelist
              ≡ s.whitelist)
            ⊎ IsAdmin station.keys users username)
  whitelist-finish_release username day id wanted held rcpts (none, days) s = (refl, inl refl)
  whitelist-finish_release username day id wanted held rcpts (some made, days) s = (
    sent-whitelist_domain username (release_domain station users username wanted held)
        (record s { days = days }),
    elim (Bool-cases (is_admin station users username)) [
      | inl e ↦ inr (is_admin-IsAdmin username e)
      | inr e ↦ inl (
          ap
            (λ dom.
              (whitelist_domain station users username dom (record s { days = days })).whitelist)
            (release_domain-none username wanted held e))
    ],
  )

  module _ (request : AdminRequest) (day id : Text) (wanted : Bool) (username : Text)
      (rec : Meta Held) (before : Desk)
      (session : IsSession station.keys.sessions users request.cookie username)
      (token : IsToken station.keys.csrf request.csrf username)
      (entry : get_meta id day before.days ≡ some rec) where
    IsReleasing-hand_over :
        (raw : Bytes) (o : Option Bytes) (rcpts : List Text)
        → get_original station.box id day before.days ≡ some raw
        → prepend_headers raw ((codes "X-SpamAllam-Released", release_note username rec.info) ∷ [])
          ≡ o
        → IsEntitled username rec.info rcpts
        → is_empty rcpts ≡ false
        → IsReleasing request day id before
            (hand_over station users username day id wanted rec.info rcpts o before).1
    IsReleasing-hand_over raw none rcpts g p e n = inl (refl, refl)
    IsReleasing-hand_over raw (some message) rcpts g p e n =
        elim (Bool-cases (station.reinject rec.info.envelope_from rcpts message)) [
          | inr f ↦ simp f (inl (refl, refl))
          | inl f ↦
              let out : Sent = record {
                mail_from = rec.info.envelope_from;
                rcpts = rcpts;
                message = message;
              } in
              let m = mark station.faults station.now id day released username before.days in
              let sent : Desk = record before { sent = before.sent ++ out ∷ [] } in
              let (s, w) = whitelist-finish_release username day id wanted rec.info rcpts m sent in
              simp f (
                inr (
                  record {
                    username = username;
                    rec = rec;
                    raw = raw;
                    message = message;
                    session = session;
                    token = token;
                    entry = entry;
                    original = g;
                    stamped = p;
                    rcpts = rcpts;
                    entitled = e;
                    some_rcpts = n;
                    sent = s;
                  },
                  w,
                ))
        ]

    IsReleasing-release_to :
        (o : Option Bytes) (rcpts : List Text)
        → get_original station.box id day before.days ≡ o
        → IsEntitled username rec.info rcpts
        → IsReleasing request day id before
            (release_to station users username day id wanted rec.info rcpts o before).1
    IsReleasing-release_to none rcpts g e = inl (refl, refl)
    IsReleasing-release_to (some raw) rcpts g e = elim (Bool-cases (is_empty rcpts)) [
      | inl n ↦ simp n (inl (refl, refl))
      | inr n ↦
          let header = (codes "X-SpamAllam-Released", release_note username rec.info) ∷ [] in
          simp n (IsReleasing-hand_over raw (prepend_headers raw header) rcpts g refl e n)
    ]

  IsReleasing-release_as :
      (request : AdminRequest) (day id : Text) (wanted : Bool) (rec : Meta Held) (before : Desk)
      (g : Guarded Text)
      → ((username : Text)
          → g ≡ granted username
          → IsSession station.keys.sessions users request.cookie username
            × IsToken station.keys.csrf request.csrf username)
      → get_meta id day before.days ≡ some rec
      → IsReleasing request day id before (release_as station users day id wanted rec g before).1
  IsReleasing-release_as request day id wanted rec before (denied status) h e = inl (refl, refl)
  IsReleasing-release_as request day id wanted rec before (granted username) h e =
      let (s, t) = h username refl in
      IsReleasing-release_to request day id wanted username rec before s t e
        (get_original station.box id day before.days)
        (release_rcpts station users username rec.info) refl
        (release_rcpts-IsEntitled username rec.info)

  IsReleasing-release_loaded :
      (request : AdminRequest) (day id : Text) (wanted : Bool) (before : Desk)
      (g : Guarded (Text × Meta Held))
      → load_entry station users request.cookie day id before.days ≡ g
      → IsReleasing request day id before
          (release_loaded station users request.csrf day id wanted g before).1
  IsReleasing-release_loaded request day id wanted before (denied status) e = inl (refl, refl)
  IsReleasing-release_loaded request day id wanted before (granted (u, rec)) e =
      let seen = load_entry-IsSeen station users request.cookie day id before.days u rec e in
      let checked = check_csrf station.keys.csrf u request.csrf in
      IsReleasing-release_as request day id wanted rec before (csrf_passed u checked)
        (λ username c.
          let (same, t) = csrf_passed_lem station.keys u username checked c in
          (
            subst (IsSession station.keys.sessions users request.cookie) same seen.session,
            subst (IsToken station.keys.csrf request.csrf) same
                (check_csrf-IsToken station.keys.csrf u request.csrf t),
          ))
        seen.entry

  -- A release sends nothing, or the stored message of the entry behind one more header, for a user
  -- who is signed in, with a CSRF token made for the same user; a user who is no admin releases to
  -- none but the user's own recipients, and does not change the whitelist.
  pub quarantine_release-IsReleasing :
      (request : AdminRequest) (day id : Text) (wanted : Bool) (before : Desk)
      → IsReleasing request day id before
          (quarantine_release station users request day id wanted before).1
  unfolding quarantine_release
  quarantine_release-IsReleasing request day id wanted before =
      IsReleasing-release_loaded request day id wanted before
        (load_entry station users request.cookie day id before.days) refl
