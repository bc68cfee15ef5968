-- ===== src/Admin/Sessions.antt =====
-- Sessions, challenges and CSRF tokens (spamallam/app/admin/security.py). The signing serializers
-- and the base64 of challenges are arguments.
pub mod Granting
mod Tests
use spamallam.Prelude.{
  ℕ, Bool, true, false, Option, none, some, List, [], ◌∷◌, ◌++◌, ◌==◌, if◌then◌else◌, is_some,
  is_empty, ◌&&◌, Text, Bytes, codes, text_eq, Map, get, partition,
}
use spamallam.Store.Users.{User, Users}

-- A serializer with its salt: `loads` checks the signature and the age, and is `none` where it
-- raises BadSignature.
pub record Serializer : Type 0 where
  pub dumps : Map Text → Text
  pub loads : Text → ℕ → Option (Map Text)

-- SESSION_TTL and CHALLENGE_TTL
abbrev pub session_ttl : ℕ
session_ttl = 43200

abbrev pub challenge_ttl : ℕ
challenge_ttl = 300

-- A value, or an HTTPException by its status.
pub data Guarded (A : Type 0) : Type 0 where
  granted : A → Guarded A
  denied : ℕ → Guarded A

module _ (sessions : Serializer) (users : Users) where
  -- make_session_cookie(username)
  unfoldable pub make_session_cookie : Text → Text
  make_session_cookie username = sessions.dumps ((codes "u", username) ∷ [])

  abbrev pub known_user : Option Text → Option Text
  known_user none = none
  known_user (some username) = if is_some (get username users) then some username else none

  abbrev pub session_of : Option (Map Text) → Option Text
  session_of none = none
  session_of (some data_map) = known_user (get (codes "u") data_map)

  abbrev pub unless_empty : Text → Option Text
  unless_empty raw = if is_empty raw then none else session_of (sessions.loads raw session_ttl)

  -- read_session(request), with the request's cookie.
  unfoldable pub read_session : Option Text → Option Text
  read_session none = none
  read_session (some raw) = unless_empty raw

  abbrev pub signed_in : Option Text → Guarded Text
  signed_in none = denied 401
  signed_in (some username) = if is_empty username then denied 401 else granted username

  -- require_user(request)
  unfoldable pub require_user : Option Text → Guarded Text
  unfolding read_session
  require_user cookie = signed_in (read_session cookie)

  abbrev pub has_privileges : Option User → Bool
  has_privileges none = false
  has_privileges (some user) = user.is_admin

  abbrev pub privileged : Guarded Text → Guarded Text
  privileged (denied status) = denied status
  privileged (granted username) =
      if has_privileges (get username users) then granted username else denied 403

  -- require_admin(request)
  unfoldable pub require_admin : Option Text → Guarded Text
  unfolding require_user
  require_admin cookie = privileged (require_user cookie)

abbrev pub is_text : Text → Option Text → Bool
is_text t none = false
is_text t (some u) = text_eq u t

module _ (challenges : Serializer) (b64url : Bytes → Text) (unb64url : Text → Option Bytes) where
  -- seal_challenge(challenge, context)
  unfoldable pub seal_challenge : Bytes → Text → Text
  seal_challenge challenge context =
      challenges.dumps ((codes "c", b64url challenge) ∷ (codes "ctx", context) ∷ [])

  -- Status 500 stands for an exception that nothing catches.
  abbrev pub decoded : Option Bytes → Guarded Bytes
  decoded none = denied 500
  decoded (some challenge) = granted challenge

  abbrev pub member : Option Text → Guarded Bytes
  member none = denied 500
  member (some text) = decoded (unb64url text)

  abbrev pub opened : Text → Option (Map Text) → Guarded Bytes
  opened context none = denied 400
  opened context (some data_map) =
      if is_text context (get (codes "ctx") data_map)
      then member (get (codes "c") data_map)
      else denied 400

  -- open_challenge(sealed, context)
  unfoldable pub open_challenge : Text → Text → Guarded Bytes
  open_challenge sealed context = opened context (challenges.loads sealed challenge_ttl)

abbrev pub or_none : Option Text → Text
or_none none = []
or_none (some text) = text

module _ (csrf : Serializer) where
  -- csrf_token(username)
  unfoldable pub csrf_token : Text → Text
  csrf_token username = csrf.dumps ((codes "u", username) ∷ [])

  abbrev pub same_user : Text → Option Text → Guarded (Unit {0})
  same_user username none = denied 403
  same_user username (some u) = if text_eq u username then granted tt else denied 403

  abbrev pub of_user : Text → Option (Map Text) → Guarded (Unit {0})
  of_user username none = denied 403
  of_user username (some data_map) = same_user username (get (codes "u") data_map)

  -- check_csrf(username, token)
  unfoldable pub check_csrf : Text → Text → Guarded (Unit {0})
  check_csrf username token = of_user username (csrf.loads token session_ttl)

  -- check_csrf_header(username, request), with the request's header.
  unfoldable pub check_csrf_header : Text → Option Text → Guarded (Unit {0})
  unfolding check_csrf
  check_csrf_header username header = check_csrf username (or_none header)

abbrev pub before_colon : Text → Option (Text × Text) → Text
before_colon host none = host
before_colon host (some (name, port)) = name

-- rp_id()
unfoldable pub rp_id : Text → Text
rp_id external_host = before_colon external_host (partition 58 external_host)

-- expected_origin(request), over urlsplit's scheme and host name.
unfoldable pub expected_origin : (Text → Text × Option Text) → Text → Option Text → Text
unfolding rp_id
expected_origin split_url external_host origin =
    let given = or_none origin in
    let (scheme, host) = split_url given in
    if text_eq scheme (codes "https") && is_text (rp_id external_host) host
    then given
    else codes "https://" ++ external_host
