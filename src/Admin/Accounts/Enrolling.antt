-- ===== src/Admin/Accounts/Enrolling.antt =====
-- Enrollment and sign-in (spamallam/app/admin/app.py and webauthn_flow.py): the routes of /setup, of
-- /api/auth and of /logout. The browser's ceremonies are arguments.
use spamallam.Prelude.{
  ℕ, Bool, false, not, ◌&&◌, ◌||◌, Option, none, some, List, [], ◌++◌, ◌==◌, if◌then◌else◌, all,
  keep, is_empty, Text, Bytes, codes, text_eq, strip, lower, get,
}
use spamallam.Store.Users.{
  Credential, User, Token, Users, create_user, peek_token, consume_token, find_credential,
  update_sign_count,
}
use spamallam.Admin.Sessions.{
  Guarded, granted, denied, make_session_cookie, read_session, seal_challenge, open_challenge,
  check_csrf,
}
use spamallam.Admin.Requests.{Keys, AdminRequest}
use spamallam.Admin.Accounts.{
  enrolled, logged_in, logged_out, Accounts, Ceremony, Registrar, audited, credentials_of,
  verify_registration,
}

-- The body of a request to /api/setup; a missing value is empty.
pub record Setup : Type 0 where
  pub token : Text
  pub username : Text
  pub display : Text
  pub ceremony : Ceremony

abbrev pub or_given : Option Text → Text → Text
or_given none given = given
or_given (some name) given = if is_empty name then given else name

-- (record.get("username") or body.get("username") or "").strip().lower()
unfoldable pub name_for : Token → Setup → Text
name_for t setup = lower (strip (or_given t.username setup.username))

-- Not `-`, `_` or `.`.
abbrev pub is_name_code : ℕ → Bool
is_name_code c = not (c == 45 || c == 95 || c == 46)

abbrev pub all_alnum : (ℕ → Bool) → Text → Bool
all_alnum is_alnum name = not (is_empty name) && all is_alnum name

abbrev pub is_fixed_name : Text → Option Text → Bool
is_fixed_name name none = false
is_fixed_name name (some fixed) = text_eq fixed name

-- authentication_response's check of an assertion by a credential: the new sign count, or none where
-- it raises.
abbrev pub Authenticator : Type 0
Authenticator = Bytes → Text → Credential → Option ℕ

module _ (keys : Keys) where
  -- registration_options(username): the sealed challenge of the drawn one.
  unfoldable pub registration_options : Bytes → Text → Text
  registration_options drawn username =
      seal_challenge keys.challenges keys.b64url keys.unb64url drawn (codes "reg:" ++ username)

  abbrev pub options_for : (ℕ → Bool) → Bytes → Token → Text → Users → Guarded (Text × Text)
  options_for is_alnum drawn t name users =
      if is_empty name || not (all_alnum is_alnum (keep is_name_code name))
      then denied 400
      else if not (is_empty (credentials_of (get name users)))
          && not (is_fixed_name name t.username)
      then denied 400
      else granted (name, registration_options drawn name)

  abbrev pub options_of : (ℕ → Bool) → Bytes → Setup → Users → Option Token → Guarded (Text × Text)
  options_of is_alnum drawn setup users none = denied 403
  options_of is_alnum drawn setup users (some t) =
      options_for is_alnum drawn t (name_for t setup) users

  -- POST /api/setup/options: the name and the sealed challenge.
  unfoldable pub setup_options : (ℕ → Bool) → ℕ → Bytes → Setup → Accounts → Guarded (Text × Text)
  setup_options is_alnum now drawn setup s =
      options_of is_alnum drawn setup s.users (peek_token keys.hash_of now setup.token s.tokens)

  -- The account of the name, made where there is none.
  abbrev pub with_account : Text → Token → Text → Text → Users → Option User → Users
  with_account stamp t name display users (some user) = users
  with_account stamp t name display users none =
      create_user keys.parse_address stamp name display t.is_admin t.addresses users

  abbrev pub after_enrollment : Text → Bool → Guarded Text × Accounts → Guarded Text × Accounts
  after_enrollment name is_admin (denied status, s) = (denied status, s)
  after_enrollment name is_admin (granted ok, s) =
      (granted (make_session_cookie keys.sessions s.users name), audited name (enrolled is_admin) s)

  abbrev pub enroll :
      Registrar → Text → Setup → Accounts → Option Token × List Token → Guarded Text × Accounts
  enroll registrar stamp setup s (none, tokens) = (denied 403, record s { tokens = tokens })
  enroll registrar stamp setup s (some t, tokens) =
      let name = name_for t setup in
      let users = with_account stamp t name setup.display s.users (get name s.users) in
      after_enrollment name t.is_admin (
        verify_registration keys registrar name setup.ceremony
          (record s { users = users; tokens = tokens }))

  -- POST /api/setup/verify: the cookie of the new session.
  unfoldable pub setup_verify : Registrar → ℕ → Text → Setup → Accounts → Guarded Text × Accounts
  setup_verify registrar now stamp setup s =
      enroll registrar stamp setup s (consume_token keys.hash_of now setup.token s.tokens)

  abbrev pub signed : Text → Credential → Option ℕ → Accounts → Guarded Text × Accounts
  signed username cred none s = (denied 400, s)
  signed username cred (some sign_count) s = (
    granted (make_session_cookie keys.sessions s.users username),
    audited username logged_in
        (record s { users = (update_sign_count username cred.id sign_count s.users).1 }),
  )

  abbrev pub known_passkey :
      Authenticator → Bytes → Text → Option (Text × Credential) → Accounts → Guarded Text × Accounts
  known_passkey authenticator challenge response none s = (denied 400, s)
  known_passkey authenticator challenge response (some (username, cred)) s =
      signed username cred (authenticator challenge response cred) s

  abbrev pub with_challenge :
      Authenticator → Text → Text → Guarded Bytes → Accounts → Guarded Text × Accounts
  with_challenge authenticator raw_id response (denied status) s = (denied status, s)
  with_challenge authenticator raw_id response (granted challenge) s =
      known_passkey authenticator challenge response (find_credential raw_id s.users) s

  -- POST /api/auth/verify, over verify_authentication: the cookie of the new session.
  unfoldable pub auth_verify :
      Authenticator → Text → Text → Text → Accounts → Guarded Text × Accounts
  auth_verify authenticator sealed raw_id response s =
      with_challenge authenticator raw_id response
        (open_challenge keys.challenges keys.b64url keys.unb64url sealed (codes "auth")) s

  abbrev pub signed_out : Text → Guarded (Unit {0}) → Accounts → Guarded Text × Accounts
  signed_out username (denied status) s = (denied status, s)
  signed_out username (granted ok) s = (granted [], audited username logged_out s)

  abbrev pub log_out : Text → Option Text → Accounts → Guarded Text × Accounts
  log_out token none s = (granted [], s)
  log_out token (some username) s =
      if is_empty username
      then (granted [], s)
      else signed_out username (check_csrf keys.csrf username token) s

  -- POST /logout, which deletes the cookie.
  unfoldable pub logout : AdminRequest → Accounts → Guarded Text × Accounts
  logout request s = log_out request.csrf (read_session keys.sessions s.users request.cookie) s
