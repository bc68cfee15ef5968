-- ===== src/Admin/Accounts.antt =====
-- The routes on accounts (spamallam/app/admin/app.py): users, invitations and passkeys. The passkey
-- ceremony of the browser (webauthn) is an argument.
pub mod Enrolling
pub mod Authority
pub mod Keeping
pub mod Bounded
pub mod Joining
mod Tests
use spamallam.Prelude.{
  ℕ, Bool, true, false, not, ◌&&◌, ◌||◌, Option, none, some, List, [], ◌∷◌, ◌++◌, leb, ◌==◌,
  if◌then◌else◌, length, take, is_some, is_empty, Text, Bytes, codes, text_eq, strip, lower, get,
}
use spamallam.Store.Users.{
  Credential, User, Token, Users, normalize_addresses, set_addresses, set_timezone, delete_user,
  add_credential, remove_credential, create_token,
}
use spamallam.Tools.Zones.{is_valid_zone}
use spamallam.Admin.Sessions.{Guarded, granted, denied, open_challenge}
use spamallam.Admin.Requests.{
  Keys, AdminRequest, user_form, admin_form, user_call, run_as, address_lines,
}

-- audit.record: the action with its detail.
pub data AccountAction : Type 0 where
  timezone_set : Text → AccountAction
  invited : Text → Bool → List Text → AccountAction
  addresses_set : Text → List Text → AccountAction
  user_deleted : Text → AccountAction
  passkey_added passkey_removed : Text → AccountAction
  enrolled : Bool → AccountAction
  logged_in logged_out : AccountAction

-- The files that the routes change.
pub record Accounts : Type 0 where
  pub users : Users
  pub tokens : List Token
  pub audits : List (Text × AccountAction)

-- The clock and the random source of a request.
pub record Drawn : Type 0 where
  pub now : ℕ
  pub stamp : Text
  pub token : Text

-- What the browser sends after a ceremony: the sealed challenge and the response.
pub record Ceremony : Type 0 where
  pub sealed : Text
  pub response : Text
  pub label : Text

-- verify_registration_response: the new credential of a response to a challenge, or none where it
-- raises.
abbrev pub Registrar : Type 0
Registrar = Bytes → Text → Option Credential

abbrev pub audited : Text → AccountAction → Accounts → Accounts
audited username action s = record s { audits = s.audits ++ (username, action) ∷ [] }

-- A change of the users, which is recorded if it was made.
abbrev pub recorded :
    Text → AccountAction → Text → Bool × Users → Accounts → Guarded Text × Accounts
recorded username action message (made, users) s =
    let changed = record s { users = users } in
    (granted message, if made then audited username action changed else changed)

abbrev pub none_if_empty : Text → Option Text
none_if_empty t = if is_empty t then none else some t

abbrev pub credentials_of : Option User → List Credential
credentials_of none = []
credentials_of (some user) = user.credentials

module _ (keys : Keys) where
  abbrev pub added_credential : Bool × Users → Accounts → Guarded Text × Accounts
  added_credential (false, users) s = (denied 500, s)
  added_credential (true, users) s = (granted [], record s { users = users })

  abbrev pub registered : Text → Text → Option Credential → Accounts → Guarded Text × Accounts
  registered username label none s = (denied 400, s)
  registered username label (some cred) s =
      added_credential (add_credential username (record cred { label = label }) s.users) s

  abbrev pub challenged :
      Registrar → Text → Ceremony → Guarded Bytes → Accounts → Guarded Text × Accounts
  challenged registrar username c (denied status) s = (denied status, s)
  challenged registrar username c (granted challenge) s =
      registered username c.label (registrar challenge c.response) s

  -- verify_registration(request, username, body, label); status 500 is an exception that nothing
  -- catches, here a KeyError.
  unfoldable pub verify_registration :
      Registrar → Text → Ceremony → Accounts → Guarded Text × Accounts
  verify_registration registrar username c s =
      challenged registrar username c
        (open_challenge keys.challenges keys.b64url keys.unb64url c.sealed
          (codes "reg:" ++ username))
        s

  abbrev pub after_registration :
      Text → AccountAction → Guarded Text × Accounts → Guarded Text × Accounts
  after_registration username action (denied status, s) = (denied status, s)
  after_registration username action (granted ok, s) = (granted [], audited username action s)

  -- POST /users/timezone
  unfoldable pub users_timezone : Text → Text → Accounts → Guarded Text × Accounts
  users_timezone name username s =
      if not (is_valid_zone name)
      then (denied 400, s)
      else recorded username (timezone_set name) (codes "Time zone saved.")
          (set_timezone username name s.users) s

  -- POST /users/invite, with the name as typed
  unfoldable pub users_invite :
      Drawn → Text → Bool → Text → Text → Accounts → Guarded Text × Accounts
  users_invite drawn name is_admin addresses username s =
      let listed = address_lines addresses in
      let tokens =
        create_token keys.hash_of keys.parse_address drawn.token drawn.now drawn.stamp
          (none_if_empty (lower (strip name))) is_admin listed s.tokens in
      (
        granted (codes "Invite link created."),
        audited username (invited name is_admin (normalize_addresses keys.parse_address listed))
            (record s { tokens = tokens }),
      )

  -- POST /users/addresses
  unfoldable pub users_addresses : Text → Text → Text → Accounts → Guarded Text × Accounts
  users_addresses target addresses username s =
      let listed = address_lines addresses in
      if not (is_some (get target s.users)) then (denied 404, s) else (
        granted (codes "Addresses updated."),
        audited username (addresses_set target (normalize_addresses keys.parse_address listed))
            (record s { users = (set_addresses keys.parse_address target listed s.users).1 }),
      )

  -- POST /users/delete
  unfoldable pub users_delete : Text → Text → Accounts → Guarded Text × Accounts
  users_delete target username s =
      if text_eq target username
      then (denied 400, s)
      else recorded username (user_deleted target) (codes "User deleted.")
          (delete_user target s.users) s

  -- POST /api/passkey/verify
  unfoldable pub passkey_verify : Registrar → Ceremony → Text → Accounts → Guarded Text × Accounts
  passkey_verify registrar c username s =
      after_registration username (passkey_added c.label)
        (verify_registration registrar username c s)

  -- POST /users/passkey/delete
  unfoldable pub passkey_delete : Text → Text → Accounts → Guarded Text × Accounts
  passkey_delete cred_id username s =
      if leb (length (credentials_of (get username s.users))) 1
      then (denied 400, s)
      else recorded username (passkey_removed (take 16 cred_id)) (codes "Passkey removed.")
          (remove_credential username cred_id s.users) s

-- The routes with their forms.
pub data Route : Type 0 where
  post_timezone : Text → Route
  post_invite : Drawn → Text → Bool → Text → Route
  post_addresses : Text → Text → Route
  post_delete : Text → Route
  post_passkey : Ceremony → Route
  post_passkey_delete : Text → Route

module _ (keys : Keys) (registrar : Registrar) where
  -- The guard that a route starts with.
  abbrev pub guard_of : Route → Users → AdminRequest → Guarded Text
  guard_of (post_timezone name) = user_form keys
  guard_of (post_invite drawn name is_admin addresses) = admin_form keys
  guard_of (post_addresses target addresses) = admin_form keys
  guard_of (post_delete target) = admin_form keys
  guard_of (post_passkey c) = user_call keys
  guard_of (post_passkey_delete cred_id) = user_form keys

  abbrev pub route_body : Route → Text → Accounts → Guarded Text × Accounts
  route_body (post_timezone name) = users_timezone keys name
  route_body (post_invite drawn name is_admin addresses) =
      users_invite keys drawn name is_admin addresses
  route_body (post_addresses target addresses) = users_addresses keys target addresses
  route_body (post_delete target) = users_delete keys target
  route_body (post_passkey c) = passkey_verify keys registrar c
  route_body (post_passkey_delete cred_id) = passkey_delete keys cred_id

  -- A request to a route.
  unfoldable pub respond : Route → AdminRequest → Accounts → Guarded Text × Accounts
  respond route request s =
      run_as (guard_of route s.users request) (λ username. route_body route username s) s
