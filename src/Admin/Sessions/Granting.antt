-- ===== src/Admin/Sessions/Granting.antt =====
-- What the guards of the admin application let through (spamallam/app/admin/security.py).
use spamallam.Prelude.{
  ℕ, ◌≡◌, refl, sym, ap, ◌∙◌, inl, inr, ◌↔◌, Bool-cases, true, Option, Option-cases, none, some, [],
  ◌∷◌, is_some, is_empty, Text, Bytes, codes, text_eq, text_eq_iff, Map, get,
}
use spamallam.Store.Users.{User, Users}
use spamallam.Admin.Sessions.{
  Serializer, session_ttl, challenge_ttl, Guarded, granted, denied, session_of, read_session,
  require_user, has_privileges, privileged, require_admin, seal_challenge, open_challenge,
  csrf_token, check_csrf,
}

-- What was signed reads back: it is still young enough.
abbrev pub IsFresh : Serializer → ℕ → Map Text → Type 0
IsFresh s ttl m = s.loads (s.dumps m) ttl ≡ some m

module _ (sessions : Serializer) (users : Users) where
  -- The cookie holds a signed session of that user, who exists.
  abbrev pub IsSession : Option Text → Text → Type 0
  IsSession cookie username =
      (raw : Text) × (data_map : Map Text) × (cookie ≡ some raw)
      × (sessions.loads raw session_ttl ≡ some data_map)
      × (get (codes "u") data_map ≡ some username)

  session_of_lem :
      (o : Option (Map Text)) (username : Text)
      → session_of sessions users o ≡ some username
      → (data_map : Map Text) × (o ≡ some data_map) × (get (codes "u") data_map ≡ some username)
  session_of_lem none username e = cc
  session_of_lem (some m) username e = elim (Option-cases (get (codes "u") m)) [
    | inl f ↦ cc (simp f at e)
    | inr (u, f) ↦ elim (Bool-cases (is_some (get u users))) [
      | inl g ↦ let same : u ≡ username = cc (simp (f, g) at e) in (m, refl, f ∙ ap some same)
      | inr g ↦ cc (simp (f, g) at e)
    ]
  ]

  read_session-IsSession :
      (cookie : Option Text) (username : Text)
      → read_session sessions users cookie ≡ some username
      → IsSession cookie username
  unfolding read_session
  read_session-IsSession none username e = cc
  read_session-IsSession (some raw) username e = elim (Bool-cases (is_empty raw)) [
    | inl f ↦ cc (simp f at e)
    | inr f ↦
        let (m, a, b) = session_of_lem (sessions.loads raw session_ttl) username (simp f at e) in
        (raw, m, refl, a, b)
  ]

  pub require_user-IsSession :
      (cookie : Option Text) (username : Text)
      → require_user sessions users cookie ≡ granted username
      → IsSession cookie username
  unfolding require_user
  require_user-IsSession cookie username e =
      elim (Option-cases (read_session sessions users cookie)) [
        | inl f ↦ cc (simp f at e)
        | inr (u, f) ↦ elim (Bool-cases (is_empty u)) [
          | inl g ↦ cc (simp (f, g) at e)
          | inr g ↦
              let same : u ≡ username = cc (simp (f, g) at e) in
              read_session-IsSession cookie username (f ∙ ap some same)
        ]
      ]

  privileged_lem :
      (g : Guarded Text) (username : Text)
      → privileged sessions users g ≡ granted username
      → (g ≡ granted username) × (has_privileges sessions users (get username users) ≡ true)
  privileged_lem (denied status) username e = cc
  privileged_lem (granted u) username e =
      elim (Bool-cases (has_privileges sessions users (get u users))) [
        | inl f ↦
            let same : u ≡ username = cc (simp f at e) in
            (ap granted same, sym (ap (λ x. has_privileges sessions users (get x users)) same) ∙ f)
        | inr f ↦ cc (simp f at e)
      ]

  -- An admin route runs only for a cookie that a valid signature ties to a user whose account says
  -- that it is an admin's.
  pub require_admin_lem :
      (cookie : Option Text) (username : Text)
      → require_admin sessions users cookie ≡ granted username
      → IsSession cookie username
        × ((user : User) × (get username users ≡ some user) × (user.is_admin ≡ true))
  unfolding require_admin
  require_admin_lem cookie username e =
      let (g, h) = privileged_lem (require_user sessions users cookie) username e in
      (
        require_user-IsSession cookie username g,
        elim (Option-cases (get username users)) [
          | inl f ↦ cc (simp f at h)
          | inr (user, f) ↦ (user, f, simp f at h)
        ],
      )

module _ (challenges : Serializer) (b64url : Bytes → Text) (unb64url : Text → Option Bytes) where
  -- A sealed challenge opens, while it is fresh, in the context that it was sealed for, and in no
  -- other.
  pub open_challenge-seal_challenge :
      (challenge : Bytes) (context other : Text)
      → IsFresh challenges challenge_ttl
          ((codes "c", b64url challenge) ∷ (codes "ctx", context) ∷ [])
      → ((b : Bytes) → unb64url (b64url b) ≡ some b)
      → (open_challenge challenges b64url unb64url
            (seal_challenge challenges b64url unb64url challenge context)
            other
          ≡ granted challenge)
        ↔ (context ≡ other)
  unfolding open_challenge seal_challenge get text_eq
  open_challenge-seal_challenge challenge context other f decodes =
      let (to, from) = text_eq_iff context other in
      elim (Bool-cases (text_eq context other)) [
        | inl e ↦ simp (f, e, decodes challenge) (λ g. to e, λ same. refl)
        | inr e ↦ simp (f, e) (λ g. cc, λ same. cc (e, from same))
      ]

module _ (csrf : Serializer) where
  -- A CSRF token passes, while it is fresh, for the user that it was made for, and for no other.
  pub check_csrf-csrf_token :
      (username other : Text)
      → IsFresh csrf session_ttl ((codes "u", username) ∷ [])
      → (check_csrf csrf other (csrf_token csrf username) ≡ granted tt) ↔ (username ≡ other)
  unfolding check_csrf csrf_token get text_eq
  check_csrf-csrf_token username other f =
      let (to, from) = text_eq_iff username other in
      elim (Bool-cases (text_eq username other)) [
        | inl e ↦ simp (f, e) (λ g. to e, λ same. refl)
        | inr e ↦ simp (f, e) (λ g. cc, λ same. cc (e, from same))
      ]
