-- ===== src/Store/Users.antt =====
-- User accounts and enrollment tokens (spamallam/app/store/users.py). The two YAML files are the
-- states; hashing, the clock, the random source and address parsing are arguments.
pub mod Ownership
pub mod Tokens
pub mod Credentials
mod Tests
use spamallam.Prelude.{
  ℕ, ◌+◌, Bool, true, false, not, ◌&&◌, ◌||◌, Option, none, some, List, [], ◌∷◌, ◌++◌, map, ltb,
  if◌then◌else◌, is_some, is_empty, elem, any, keep, find_first, length, Text, codes, text_eq, Map,
  get, put, remove,
}
use spamallam.Pipeline.Overrides.{has_at, base_recipient}

pub record Credential : Type 0 where
  pub id : Text
  pub public_key : Text
  pub sign_count : ℕ
  pub label : Text
  pub added : Text

pub record User : Type 0 where
  pub display : Text
  pub is_admin : Bool
  pub created : Text
  pub timezone : Text
  pub credentials : List Credential
  pub addresses : List Text

pub record Token : Type 0 where
  pub hash : Text
  pub username : Option Text
  pub is_admin : Bool
  pub addresses : List Text
  pub created : Text
  pub expires : ℕ

abbrev pub Users : Type 0
Users = Map User

-- TOKEN_TTL_SECONDS
abbrev pub token_ttl : ℕ
token_ttl = 86400

-- `a or b` for text.
abbrev pub or_text : Text → Text → Text
or_text a b = if is_empty a then b else a

module _ (parse_address : Text → Text) where
  -- normalize_address(address); the address without an `@` is none.
  unfoldable pub normalize_address : Text → Text
  normalize_address address =
      if has_at (parse_address address) then base_recipient parse_address address else []

  abbrev pub is_new : List Text → Text → Bool
  is_new seen n = not (is_empty n) && has_at n && not (elem n seen)

  unfoldable pub normalize_from : List Text → List Text → List Text
  normalize_from seen [] = seen
  normalize_from seen (a ∷ more) =
      let n = normalize_address a in
      normalize_from (if is_new seen n then seen ++ n ∷ [] else seen) more

  -- normalize_addresses(addresses)
  abbrev pub normalize_addresses : List Text → List Text
  normalize_addresses addresses = normalize_from [] addresses

  -- The set `owned`.
  abbrev pub owned_addresses : User → List Text
  owned_addresses user = keep (λ a. not (is_empty a)) (map normalize_address user.addresses)

  -- owned_recipients(user, rcpt_tos)
  unfoldable pub owned_recipients : Option User → List Text → List Text
  unfolding normalize_address
  owned_recipients none rcpt_tos = []
  owned_recipients (some user) rcpt_tos =
      let owned = owned_addresses user in
      if is_empty owned then [] else keep (λ r. elem (normalize_address r) owned) rcpt_tos

  -- user_can_see_address(user, rcpt_tos)
  unfoldable pub user_can_see_address : Option User → List Text → Bool
  unfolding owned_recipients
  user_can_see_address user rcpt_tos = not (is_empty (owned_recipients user rcpt_tos))

  -- create_user(username, display, is_admin, addresses)
  unfoldable pub create_user : Text → Text → Text → Bool → List Text → Users → Users
  unfolding normalize_from
  create_user now username display is_admin addresses users =
      put username
        (record {
          display = or_text display username;
          is_admin = is_admin;
          created = now;
          timezone = codes "UTC";
          credentials = [];
          addresses = normalize_addresses addresses;
        })
        users

  abbrev pub with_addresses : List Text → User → User
  with_addresses addresses user = record user { addresses = normalize_addresses addresses }

-- A change of one user, if there is such a user: `false` where there is none.
abbrev pub changed : Text → (User → User) → Users → Option User → Bool × Users
changed username change users none = (false, users)
changed username change users (some user) = (true, put username (change user) users)

unfoldable pub change_user : Text → (User → User) → Users → Bool × Users
change_user username change users = changed username change users (get username users)

-- set_addresses(username, addresses)
unfoldable pub set_addresses : (Text → Text) → Text → List Text → Users → Bool × Users
unfolding change_user
set_addresses parse_address username addresses users =
    change_user username (with_addresses parse_address addresses) users

-- get_timezone(username)
abbrev pub timezone_of : Option User → Text
timezone_of none = codes "UTC"
timezone_of (some user) = or_text user.timezone (codes "UTC")

unfoldable pub get_timezone : Text → Users → Text
get_timezone username users = timezone_of (get username users)

-- set_timezone(username, tz_name)
unfoldable pub set_timezone : Text → Text → Users → Bool × Users
unfolding change_user
set_timezone username tz_name users =
    change_user username (λ user. record user { timezone = tz_name }) users

-- delete_user(username)
unfoldable pub delete_user : Text → Users → Bool × Users
delete_user username users =
    if is_some (get username users) then (true, remove username users) else (false, users)

-- add_credential(username, ...); `false` is its KeyError.
unfoldable pub add_credential : Text → Credential → Users → Bool × Users
unfolding change_user
add_credential username cred users =
    let labelled = record cred { label = or_text cred.label (codes "passkey") } in
    change_user username (λ user. record user { credentials = user.credentials ++ labelled ∷ [] })
      users

abbrev pub has_id : Text → Credential → Bool
has_id cred_id c = text_eq c.id cred_id

abbrev pub without : Text → User → User
without cred_id user = record user {
  credentials = keep (λ c. not (has_id cred_id c)) user.credentials;
}

abbrev pub removed : Text → Text → Users → Option User → Bool × Users
removed username cred_id users none = (false, users)
removed username cred_id users (some user) = (
  ltb (length (without cred_id user).credentials) (length user.credentials),
  put username (without cred_id user) users,
)

-- remove_credential(username, cred_id_b64)
unfoldable pub remove_credential : Text → Text → Users → Bool × Users
remove_credential username cred_id users = removed username cred_id users (get username users)

abbrev pub or_next :
    Text → Option Credential → Option (Text × Credential) → Option (Text × Credential)
or_next username none rest = rest
or_next username (some c) rest = some (username, c)

-- find_credential(cred_id_b64)
unfoldable pub find_credential : Text → Users → Option (Text × Credential)
find_credential cred_id [] = none
find_credential cred_id ((username, user) ∷ users) =
    or_next username (find_first (has_id cred_id) user.credentials) (find_credential cred_id users)

abbrev pub counted : Text → ℕ → Credential → Credential
counted cred_id sign_count c = if has_id cred_id c then record c { sign_count = sign_count } else c

-- update_sign_count(username, cred_id_b64, sign_count)
unfoldable pub update_sign_count : Text → Text → ℕ → Users → Bool × Users
unfolding change_user
update_sign_count username cred_id sign_count users =
    change_user username
      (λ user. record user { credentials = map (counted cred_id sign_count) user.credentials })
      users

-- hmac.compare_digest(t["hash"], h) and t.get("expires", 0) > now
abbrev pub is_valid : ℕ → Text → Token → Bool
is_valid now h t = text_eq t.hash h && ltb now t.expires

module _ (hash_of : Text → Text) where
  -- create_token(username, is_admin, addresses), with the drawn token.
  unfoldable pub create_token :
      (Text → Text) → Text → ℕ → Text → Option Text → Bool → List Text → List Token → List Token
  create_token parse_address token now stamp username is_admin addresses tokens =
      tokens
      ++ record {
        hash = hash_of token;
        username = username;
        is_admin = is_admin;
        addresses = normalize_addresses parse_address addresses;
        created = stamp;
        expires = now + token_ttl;
      }
        ∷ []

  -- peek_token(token)
  unfoldable pub peek_token : ℕ → Text → List Token → Option Token
  peek_token now token tokens = find_first (is_valid now (hash_of token)) tokens

  abbrev pub burned : Text → List Token → Option Token → Option Token × List Token
  burned h tokens none = (none, tokens)
  burned h tokens (some found) = (some found, keep (λ t. not (text_eq t.hash h)) tokens)

  -- consume_token(token)
  unfoldable pub consume_token : ℕ → Text → List Token → Option Token × List Token
  consume_token now token tokens =
      burned (hash_of token) tokens (find_first (is_valid now (hash_of token)) tokens)

  abbrev pub setup_record : Text → ℕ → Text → Token
  setup_record h now stamp = record {
    hash = h;
    username = none;
    is_admin = true;
    addresses = [];
    created = stamp;
    expires = now + token_ttl;
  }

  -- A SETUP_TOKEN of the environment is stored unless its hash is there.
  abbrev pub with_setup : Text → ℕ → Text → List Token → List Token
  with_setup token now stamp tokens =
      if any (λ t. text_eq t.hash (hash_of token)) tokens
      then tokens
      else tokens ++ setup_record (hash_of token) now stamp ∷ []

  -- bootstrap_setup_token(), with the SETUP_TOKEN of the environment and the token it would draw.
  unfoldable pub bootstrap_setup_token :
      (Text → Text) → Text → Text → ℕ → Text → Users → List Token → Option Text × List Token
  unfolding create_token
  bootstrap_setup_token parse_address setup_token drawn now stamp users tokens =
      if not (is_empty users)
      then (none, tokens)
      else if not (is_empty setup_token)
      then (some setup_token, with_setup setup_token now stamp tokens)
      else (some drawn, create_token parse_address drawn now stamp none true [] tokens)
