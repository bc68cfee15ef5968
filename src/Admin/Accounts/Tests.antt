-- ===== src/Admin/Accounts/Tests.antt =====
-- Runs of the routes on accounts (spamallam/app/admin/app.py).
use spamallam.Prelude.{
  ◌≡◌, ◌⊎◌, refl, Bool, true, false, none, some, [], ◌∷◌, Text, Map, codes, text_eq, get, put,
  remove, partition,
}
use spamallam.Pipeline.Overrides.{base_recipient}
use spamallam.Store.Users.{
  Credential, User, Token, normalize_address, normalize_from, create_user, change_user,
  set_addresses, set_timezone, delete_user, add_credential, remove_credential, create_token,
  peek_token, consume_token, find_credential, update_sign_count,
}
use spamallam.Tools.Zones.{is_valid_zone}
use spamallam.Admin.Sessions.{
  Serializer, granted, denied, make_session_cookie, read_session, require_user, require_admin,
  seal_challenge, open_challenge, csrf_token, check_csrf, check_csrf_header,
}
use spamallam.Admin.Requests.{
  Keys, AdminRequest, user_form, admin_form, user_call, lines_of, address_lines,
}
use spamallam.Admin.Accounts.{
  Accounts, user_deleted, verify_registration, users_timezone, users_invite, users_addresses,
  users_delete, passkey_verify, passkey_delete, post_delete, route_body, respond,
}
use spamallam.Admin.Accounts.Enrolling.{
  Setup, name_for, registration_options, setup_options, setup_verify, auth_verify, logout,
}
use spamallam.Admin.Accounts.Authority.{MayAct, respond_lem}
use spamallam.Admin.Accounts.Bounded.{IsBounded, route_body-IsBounded}
use spamallam.Admin.Accounts.Joining.{
  IsEnrollment, setup_verify-IsEnrollment, IsStranded, setup_verify-IsStranded,
}

accounts : Unit {0}
unfolding text_eq get put remove partition base_recipient normalize_address normalize_from
    create_user change_user set_addresses set_timezone delete_user add_credential remove_credential
    create_token peek_token consume_token find_credential update_sign_count is_valid_zone
    make_session_cookie read_session require_user require_admin seal_challenge open_challenge
    csrf_token check_csrf check_csrf_header user_form admin_form user_call lines_of address_lines
    verify_registration users_timezone users_invite users_addresses users_delete passkey_verify
    passkey_delete respond name_for registration_options setup_options setup_verify auth_verify
    logout
accounts = tt

-- Signing that keeps the first value after a mark; nothing expires.
abbrev first_value : Map Text → Text
first_value [] = []
first_value ((k, v) ∷ m) = v

abbrev signer : Serializer
signer = record { dumps = first_value; loads = λ raw ttl. some ((codes "u", raw) ∷ []) }

-- The sealed text is the challenge's context.
abbrev sealer : Serializer
sealer = record {
  dumps = λ m. elim (get (codes "ctx") m) [ none ↦ [] | some v ↦ v ];
  loads = λ raw ttl. some ((codes "c", codes "x") ∷ (codes "ctx", raw) ∷ []);
}

abbrev keys : Keys
keys = record {
  sessions = signer;
  csrf = signer;
  challenges = sealer;
  b64url = λ b. b;
  unb64url = λ t. some t;
  hash_of = λ t. t;
  parse_address = λ a. a;
}

abbrev user_of : Bool → User
user_of admin = record {
  display = codes "d";
  is_admin = admin;
  created = [];
  timezone = codes "UTC";
  credentials = [];
  addresses = [];
}

abbrev token : Token
token = record {
  hash = codes "t";
  username = none;
  is_admin = true;
  addresses = [];
  created = [];
  expires = 9;
}

abbrev state : Accounts
state = record {
  users = (codes "root", user_of true) ∷ (codes "bob", user_of false) ∷ [];
  tokens = token ∷ [];
  audits = [];
}

abbrev from : Text → AdminRequest
from name = record { cookie = some name; csrf = name; csrf_header = some name }

abbrev passkey : Credential
passkey = record { id = codes "p"; public_key = []; sign_count = 0; label = []; added = [] }

delete_test :
    (respond keys (λ c r. none) (post_delete (codes "bob")) (from (codes "root")) state ≡ (
      granted (codes "User deleted."),
      record state {
        users = (codes "root", user_of true) ∷ [];
        audits = (codes "root", user_deleted (codes "bob")) ∷ [];
      },
    ))
    × (respond keys (λ c r. none) (post_delete (codes "root")) (from (codes "root")) state
        ≡ (denied 400, state))
    × (respond keys (λ c r. none) (post_delete (codes "root")) (from (codes "bob")) state
        ≡ (denied 403, state))
unfolding accounts
delete_test = (refl, refl, refl)

abbrev setup : Setup
setup = record {
  token = codes "t";
  username = codes " Ann ";
  display = [];
  ceremony = record { sealed = codes "reg:ann"; response = []; label = [] };
}

setup_test :
    ((setup_verify keys (λ c r. some passkey) 1 [] setup state).0 ≡ granted (codes "ann"))
    × ((setup_verify keys (λ c r. none) 1 [] setup state).0 ≡ denied 400)
    × (setup_options keys (λ c. true) 1 [] setup state ≡ granted (codes "ann", codes "reg:ann"))
unfolding accounts
setup_test = (refl, refl, refl)

respond_lem_example :
    ((respond keys (λ c r. none) (post_delete (codes "bob")) (from (codes "root")) state).1 ≡ state)
    ⊎ ((username : Text) × MayAct keys
          (λ c r. none)
          (post_delete (codes "bob"))
          (from (codes "root"))
          state.users
          username
        × (respond keys (λ c r. none) (post_delete (codes "bob")) (from (codes "root")) state
            ≡ route_body keys (λ c r. none) (post_delete (codes "bob")) username state))
respond_lem_example =
    respond_lem keys (λ c r. none) (post_delete (codes "bob")) (from (codes "root")) state

route_body-IsBounded_example :
    IsBounded keys
      (λ c r. none)
      (post_delete (codes "bob"))
      (codes "root")
      state.users
      (route_body keys (λ c r. none) (post_delete (codes "bob")) (codes "root") state).1.users
route_body-IsBounded_example =
    route_body-IsBounded keys (λ c r. none) (post_delete (codes "bob")) (codes "root") state

setup_verify-IsEnrollment_example :
    IsEnrollment keys
      (λ c r. some passkey)
      setup
      state
      (consume_token (λ t. t) 1 (codes "t") (token ∷ []))
      (setup_verify keys (λ c r. some passkey) 1 [] setup state).1
setup_verify-IsEnrollment_example =
    setup_verify-IsEnrollment keys (λ c r. some passkey) 1 [] setup state

setup_verify-IsStranded_example :
    IsStranded keys (λ c r. none) setup token 2 (setup_verify keys (λ c r. none) 1 [] setup state)
unfolding accounts
setup_verify-IsStranded_example =
    setup_verify-IsStranded keys (λ c r. none) 1 2 [] setup state token refl refl (λ c. refl)
