-- ===== src/Admin/Accounts/Joining.antt =====
-- What an enrollment changes (spamallam/app/admin/app.py, `setup_verify`).
use spamallam.Prelude.{
  ℕ, ◌≡◌, refl, sym, ap, subst, ◌∙◌, ◌⊎◌, inl, inr, Bool-cases, Bool, true, false, Option, none,
  some, List, [], ◌++◌, Text, Bytes, codes, text_eq, text_eq_iff, get, put, get-put, get-put_other,
}
use spamallam.Store.Users.{
  Credential, User, Token, Users, create_user, or_text, normalize_addresses, consume_token,
}
use spamallam.Store.Users.Tokens.{consume_token_lem}
use spamallam.Admin.Sessions.{Guarded, granted, denied, open_challenge}
use spamallam.Admin.Requests.{Keys}
use spamallam.Admin.Accounts.{
  Accounts, Ceremony, Registrar, added_credential, registered, challenged, verify_registration,
}
use spamallam.Store.Users.{add_credential}
use spamallam.Admin.Accounts.Keeping.{IsEdit, IsEdit-verify_registration}
use spamallam.Admin.Accounts.Enrolling.{
  Setup, name_for, with_account, after_enrollment, enroll, setup_verify,
}

-- Every account afterwards was there with the same privilege, or it is the token's: it has the name,
-- is new, and has the privilege of the token.
abbrev pub JoinsBy : Token → Text → Users → Users → Type 0
JoinsBy t name before after =
    (u : Text) (user : User)
    → get u after ≡ some user
    → ((old : User) × (get u before ≡ some old) × (user.is_admin ≡ old.is_admin))
      ⊎ ((u ≡ name) × (get u before ≡ none) × (user.is_admin ≡ t.is_admin))

module _ (keys : Keys) (registrar : Registrar) where
  JoinsBy-create_user :
      (stamp : Text) (t : Token) (name display : Text) (users : Users)
      → get name users ≡ none
      → JoinsBy t name users
          (create_user keys.parse_address stamp name display t.is_admin t.addresses users)
  unfolding create_user
  JoinsBy-create_user stamp t name display users g u user e = elim (Bool-cases (text_eq u name)) [
    | inl f ↦
        let same : u ≡ name = (text_eq_iff u name).0 f in
        let made : User = record {
          display = or_text display name;
          is_admin = t.is_admin;
          created = stamp;
          timezone = codes "UTC";
          credentials = [];
          addresses = normalize_addresses keys.parse_address t.addresses;
        } in
        let found : get u (put name made users) ≡ some made =
          ap (λ x. get x (put name made users)) same ∙ get-put name made users in
        let n : made ≡ user = cc (sym found ∙ e) in
        inr (same, ap (λ x. get x users) same ∙ g, sym (ap (λ (x : User). x.is_admin) n))
    | inr f ↦ inl (user, sym (get-put_other u name _ users f) ∙ e, refl)
  ]

  JoinsBy-with_account :
      (stamp : Text) (t : Token) (name display : Text) (users : Users) (o : Option User)
      → get name users ≡ o
      → JoinsBy t name users (with_account keys stamp t name display users o)
  JoinsBy-with_account stamp t name display users none g =
      JoinsBy-create_user stamp t name display users g
  JoinsBy-with_account stamp t name display users (some account) g = λ u user e. inl (user, e, refl)

  -- `verify_registration` leaves the invitations.
  tokens-added_credential :
      (r : Bool × Users) (s : Accounts) → (added_credential keys r s).1.tokens ≡ s.tokens
  tokens-added_credential (true, users) s = refl
  tokens-added_credential (false, users) s = refl

  tokens-registered :
      (name label : Text) (o : Option Credential) (s : Accounts)
      → (registered keys name label o s).1.tokens ≡ s.tokens
  tokens-registered name label none s = refl
  tokens-registered name label (some cred) s =
      tokens-added_credential (add_credential name (record cred { label = label }) s.users) s

  tokens-challenged :
      (name : Text) (c : Ceremony) (g : Guarded Bytes) (s : Accounts)
      → (challenged keys registrar name c g s).1.tokens ≡ s.tokens
  tokens-challenged name c (denied status) s = refl
  tokens-challenged name c (granted challenge) s =
      tokens-registered name c.label (registrar challenge c.response) s

  tokens-verify_registration :
      (name : Text) (c : Ceremony) (s : Accounts)
      → (verify_registration keys registrar name c s).1.tokens ≡ s.tokens
  unfolding verify_registration
  tokens-verify_registration name c s =
      tokens-challenged name c
        (open_challenge keys.challenges keys.b64url keys.unb64url c.sealed (codes "reg:" ++ name)) s

  after_enrollment_lem :
      (name : Text) (is_admin : Bool) (r : Guarded Text × Accounts)
      → ((after_enrollment keys name is_admin r).1.users ≡ r.1.users)
        × ((after_enrollment keys name is_admin r).1.tokens ≡ r.1.tokens)
  after_enrollment_lem name is_admin (denied status, s) = (refl, refl)
  after_enrollment_lem name is_admin (granted ok, s) = (refl, refl)

  JoinsBy-edit :
      (t : Token) (name : Text) (before users after : Users)
      → JoinsBy t name before users
      → IsEdit name users after
      → JoinsBy t name before after
  JoinsBy-edit t name before users after j edit u user e =
      let (old, g, a) = edit.flags u user e in
      elim (j u old g) [
        | inl (first, h, b) ↦ inl (first, h, a ∙ b)
        | inr (same, h, b) ↦ inr (same, h, a ∙ b)
      ]

  -- No token was valid and nothing changed but the list read, or a token was, which is burned.
  abbrev pub IsEnrollment : Setup → Accounts → Option Token × List Token → Accounts → Type 0
  IsEnrollment setup s r after =
      ((r.0 ≡ none) × (after.users ≡ s.users) × (after.audits ≡ s.audits))
      ⊎ ((t : Token) × (r.0 ≡ some t)
          × (after.tokens ≡ r.1)
          × JoinsBy t (name_for t setup) s.users after.users)

  IsEnrollment-enroll :
      (stamp : Text) (setup : Setup) (s : Accounts) (r : Option Token × List Token)
      → IsEnrollment setup s r (enroll keys registrar stamp setup s r).1
  IsEnrollment-enroll stamp setup s (none, left) = inl (refl, refl, refl)
  IsEnrollment-enroll stamp setup s (some t, left) =
      let name = name_for t setup in
      let users = with_account keys stamp t name setup.display s.users (get name s.users) in
      let joined : Accounts = record s { users = users; tokens = left } in
      let r = verify_registration keys registrar name setup.ceremony joined in
      let (u, v) = after_enrollment_lem name t.is_admin r in
      let edit = IsEdit-verify_registration keys registrar name setup.ceremony joined in
      let made = JoinsBy-with_account stamp t name setup.display s.users (get name s.users) refl in
      inr (
        t,
        refl,
        v ∙ tokens-verify_registration name setup.ceremony joined,
        subst (JoinsBy t name s.users) (sym u)
            (JoinsBy-edit t name s.users users r.1.users made edit),
      )

  -- A request to enroll changes no account without a valid token, and burns the token; then at most
  -- the token's account is made, with the privilege of the token, and nobody else becomes an admin.
  pub setup_verify-IsEnrollment :
      (now : ℕ) (stamp : Text) (setup : Setup) (s : Accounts)
      → IsEnrollment setup s
          (consume_token keys.hash_of now setup.token s.tokens)
          (setup_verify keys registrar now stamp setup s).1
  unfolding setup_verify
  setup_verify-IsEnrollment now stamp setup s =
      IsEnrollment-enroll stamp setup s (consume_token keys.hash_of now setup.token s.tokens)

  -- The ceremony fails whatever the challenge is.
  abbrev pub Refuses : Text → Type 0
  Refuses response = (challenge : Bytes) → registrar challenge response ≡ none

  refused_challenged :
      (name : Text) (c : Ceremony) (g : Guarded Bytes) (s : Accounts)
      → Refuses c.response
      → (status : ℕ) × (challenged keys registrar name c g s ≡ (denied status, s))
  refused_challenged name c (denied status) s h = (status, refl)
  refused_challenged name c (granted challenge) s h = (400, simp (h challenge))

  refused_verify :
      (name : Text) (c : Ceremony) (s : Accounts)
      → Refuses c.response
      → (status : ℕ) × (verify_registration keys registrar name c s ≡ (denied status, s))
  unfolding verify_registration
  refused_verify name c s h =
      refused_challenged name c
        (open_challenge keys.challenges keys.b64url keys.unb64url c.sealed (codes "reg:" ++ name)) s
        h

  -- The account of the name, without a passkey, although the request was denied.
  abbrev pub IsStranded : Setup → Token → ℕ → Guarded Text × Accounts → Type 0
  IsStranded setup t later r =
      (status : ℕ) × (user : User) × (r.0 ≡ denied status)
      × (get (name_for t setup) r.1.users ≡ some user)
      × (user.credentials ≡ [])
      × ((consume_token keys.hash_of later setup.token r.1.tokens).0 ≡ none)

  IsStranded-refused :
      (stamp : Text) (setup : Setup) (s : Accounts) (t : Token) (left : List Token) (later : ℕ)
      (users : Users)
      → users
        ≡ create_user keys.parse_address stamp
            (name_for t setup)
            setup.display
            t.is_admin
            t.addresses
            s.users
      → Refuses setup.ceremony.response
      → (consume_token keys.hash_of later setup.token left).0 ≡ none
      → IsStranded setup t later (
          after_enrollment keys (name_for t setup) t.is_admin (
            verify_registration keys registrar
              (name_for t setup)
              setup.ceremony
              (record s { users = users; tokens = left })))
  unfolding create_user
  IsStranded-refused stamp setup s t left later users u h b =
      let name = name_for t setup in
      let joined : Accounts = record s { users = users; tokens = left } in
      let (status, e) = refused_verify name setup.ceremony joined h in
      let made : User = record {
        display = or_text setup.display name;
        is_admin = t.is_admin;
        created = stamp;
        timezone = codes "UTC";
        credentials = [];
        addresses = normalize_addresses keys.parse_address t.addresses;
      } in
      subst (λ r. IsStranded setup t later (after_enrollment keys name t.is_admin r)) (sym e)
        (status, made, refl, ap (get name) u ∙ get-put name made s.users, refl, b)

  IsStranded-enroll :
      (stamp : Text) (setup : Setup) (s : Accounts) (t : Token) (r : Option Token × List Token)
      (later : ℕ)
      → r.0 ≡ some t
      → get (name_for t setup) s.users ≡ none
      → Refuses setup.ceremony.response
      → (consume_token keys.hash_of later setup.token r.1).0 ≡ none
      → IsStranded setup t later (enroll keys registrar stamp setup s r)
  IsStranded-enroll stamp setup s t (none, left) later e g h b = cc
  IsStranded-enroll stamp setup s t (some found, left) later e g h b =
      let same : found ≡ t = cc e in
      subst (λ x. IsStranded setup t later (enroll keys registrar stamp setup s (some x, left)))
        (sym same)
        (IsStranded-refused stamp setup s t left later
          (with_account keys stamp t (name_for t setup) setup.display s.users
            (get (name_for t setup) s.users))
          (ap (with_account keys stamp t (name_for t setup) setup.display s.users) g) h b)

  -- Where the browser's ceremony fails for a new account with a valid token, the request is denied,
  -- the token is burned, and the account stays, without a passkey to sign in with.
  pub setup_verify-IsStranded :
      (now later : ℕ) (stamp : Text) (setup : Setup) (s : Accounts) (t : Token)
      → (consume_token keys.hash_of now setup.token s.tokens).0 ≡ some t
      → get (name_for t setup) s.users ≡ none
      → Refuses setup.ceremony.response
      → IsStranded setup t later (setup_verify keys registrar now stamp setup s)
  unfolding setup_verify
  setup_verify-IsStranded now later stamp setup s t e g h =
      let (stored, same, young, b) =
        consume_token_lem keys.hash_of now later setup.token s.tokens t e in
      IsStranded-enroll stamp setup s t (consume_token keys.hash_of now setup.token s.tokens) later
        e g h b
