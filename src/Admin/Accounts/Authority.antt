-- ===== src/Admin/Accounts/Authority.antt =====
-- Who may change the accounts (spamallam/app/admin/app.py, the guards of the routes).
use spamallam.Prelude.{
  ◌≡◌, refl, ap, subst, ◌⊎◌, inl, inr, Bool-cases, Bool, true, false, Option, none, some, Text,
  codes, text_eq, text_eq_iff, Map, get,
}
use spamallam.Store.Users.{User, Users}
use spamallam.Admin.Sessions.{
  Serializer, session_ttl, Guarded, granted, denied, require_user, require_admin, same_user,
  of_user, check_csrf, check_csrf_header, or_none,
}
use spamallam.Admin.Sessions.Granting.{IsSession, require_user-IsSession, require_admin_lem}
use spamallam.Admin.Requests.{
  Keys, AdminRequest, csrf_passed, with_form_token, with_header_token, user_form, admin_form,
  user_call, run_as,
}
use spamallam.Admin.Accounts.{
  Accounts, Registrar, Route, post_timezone, post_invite, post_addresses, post_delete, post_passkey,
  post_passkey_delete, guard_of, route_body, respond,
}

-- The token was signed for the user and is young enough.
abbrev pub IsToken : Serializer → Text → Text → Type 0
IsToken csrf token username =
    (m : Map Text) × (csrf.loads token session_ttl ≡ some m) × (get (codes "u") m ≡ some username)

module _ (csrf : Serializer) where
  same_user_lem :
      (username : Text) (o : Option Text)
      → same_user csrf username o ≡ granted tt
      → o ≡ some username
  same_user_lem username none e = cc
  same_user_lem username (some u) e = elim (Bool-cases (text_eq u username)) [
    | inl f ↦ ap some ((text_eq_iff u username).0 f)
    | inr f ↦ cc (simp f at e)
  ]

  of_user_lem :
      (username : Text) (o : Option (Map Text))
      → of_user csrf username o ≡ granted tt
      → (m : Map Text) × (o ≡ some m) × (get (codes "u") m ≡ some username)
  of_user_lem username none e = cc
  of_user_lem username (some m) e = (m, refl, same_user_lem username (get (codes "u") m) e)

  pub check_csrf-IsToken :
      (username token : Text)
      → check_csrf csrf username token ≡ granted tt
      → IsToken csrf token username
  unfolding check_csrf
  check_csrf-IsToken username token e = of_user_lem username (csrf.loads token session_ttl) e

module _ (keys : Keys) where
  pub csrf_passed_lem :
      (u username : Text) (g : Guarded (Unit {0}))
      → csrf_passed u g ≡ granted username
      → (u ≡ username) × (g ≡ granted tt)
  csrf_passed_lem u username (denied status) e = cc
  csrf_passed_lem u username (granted ok) e = (cc e, refl)

  with_form_token_lem :
      (token username : Text) (g : Guarded Text)
      → with_form_token keys token g ≡ granted username
      → (g ≡ granted username) × IsToken keys.csrf token username
  with_form_token_lem token username (denied status) e = cc
  with_form_token_lem token username (granted u) e =
      let (same, c) = csrf_passed_lem u username (check_csrf keys.csrf u token) e in
      (
        ap granted same,
        subst (IsToken keys.csrf token) same (check_csrf-IsToken keys.csrf u token c),
      )

  with_header_token_lem :
      (header : Option Text) (username : Text) (g : Guarded Text)
      → with_header_token keys header g ≡ granted username
      → (g ≡ granted username) × IsToken keys.csrf (or_none header) username
  unfolding check_csrf_header
  with_header_token_lem header username (denied status) e = cc
  with_header_token_lem header username (granted u) e =
      let (same, c) = csrf_passed_lem u username (check_csrf_header keys.csrf u header) e in
      (
        ap granted same,
        subst (IsToken keys.csrf (or_none header)) same
            (check_csrf-IsToken keys.csrf u (or_none header) c),
      )

  abbrev pub IsAdmin : Users → Text → Type 0
  IsAdmin users username = (user : User) × (get username users ≡ some user) × (user.is_admin ≡ true)

  -- The request carries a session of the user and a token made for the same user.
  pub user_form_lem :
      (users : Users) (request : AdminRequest) (username : Text)
      → user_form keys users request ≡ granted username
      → IsSession keys.sessions users request.cookie username
        × IsToken keys.csrf request.csrf username
  unfolding user_form
  user_form_lem users request username e =
      let (g, t) =
        with_form_token_lem request.csrf username (require_user keys.sessions users request.cookie)
          e in
      (require_user-IsSession keys.sessions users request.cookie username g, t)

  pub admin_form_lem :
      (users : Users) (request : AdminRequest) (username : Text)
      → admin_form keys users request ≡ granted username
      → IsSession keys.sessions users request.cookie username
        × IsToken keys.csrf request.csrf username
        × IsAdmin users username
  unfolding admin_form
  admin_form_lem users request username e =
      let (g, t) =
        with_form_token_lem request.csrf username (require_admin keys.sessions users request.cookie)
          e in
      let (s, a) = require_admin_lem keys.sessions users request.cookie username g in (s, t, a)

  pub user_call_lem :
      (users : Users) (request : AdminRequest) (username : Text)
      → user_call keys users request ≡ granted username
      → IsSession keys.sessions users request.cookie username
        × IsToken keys.csrf (or_none request.csrf_header) username
  unfolding user_call
  user_call_lem users request username e =
      let (g, t) =
        with_header_token_lem request.csrf_header username
          (require_user keys.sessions users request.cookie) e in
      (require_user-IsSession keys.sessions users request.cookie username g, t)

-- The CSRF token of a request to a route.
abbrev pub token_of : Route → AdminRequest → Text
token_of (post_passkey c) request = or_none request.csrf_header
token_of _ request = request.csrf

-- The routes on other accounts than one's own.
abbrev pub is_admin_route : Route → Bool
is_admin_route (post_invite drawn name is_admin addresses) = true
is_admin_route (post_addresses target addresses) = true
is_admin_route (post_delete target) = true
is_admin_route _ = false

module _ (keys : Keys) (registrar : Registrar) where
  -- The user is signed in, the token was made for the same user, and who changes other accounts is an
  -- admin.
  abbrev pub MayAct : Route → AdminRequest → Users → Text → Type 0
  MayAct route request users username =
      IsSession keys.sessions users request.cookie username
      × IsToken keys.csrf (token_of route request) username
      × (is_admin_route route ≡ true → IsAdmin keys users username)

  guard_of-MayAct :
      (route : Route) (users : Users) (request : AdminRequest) (username : Text)
      → guard_of keys registrar route users request ≡ granted username
      → MayAct route request users username
  guard_of-MayAct (post_timezone name) users request username e =
      let (s, t) = user_form_lem keys users request username e in (s, t, λ f. cc f)
  guard_of-MayAct (post_invite drawn name is_admin addresses) users request username e =
      let (s, t, a) = admin_form_lem keys users request username e in (s, t, λ f. a)
  guard_of-MayAct (post_addresses target addresses) users request username e =
      let (s, t, a) = admin_form_lem keys users request username e in (s, t, λ f. a)
  guard_of-MayAct (post_delete target) users request username e =
      let (s, t, a) = admin_form_lem keys users request username e in (s, t, λ f. a)
  guard_of-MayAct (post_passkey c) users request username e =
      let (s, t) = user_call_lem keys users request username e in (s, t, λ f. cc f)
  guard_of-MayAct (post_passkey_delete cred_id) users request username e =
      let (s, t) = user_form_lem keys users request username e in (s, t, λ f. cc f)

  run_as_lem :
      (g : Guarded Text) (body : Text → Guarded Text × Accounts) (s : Accounts)
      → ((run_as g body s).1 ≡ s)
        ⊎ ((username : Text) × (g ≡ granted username) × (run_as g body s ≡ body username))
  run_as_lem (denied status) body s = inl refl
  run_as_lem (granted username) body s = inr (username, refl, refl)

  -- A request changes no account, invitation or audit entry, or it ran the body of its route for a
  -- user who may act: signed in, with a CSRF token made for the same user, and an admin where the
  -- route is on other accounts.
  pub respond_lem :
      (route : Route) (request : AdminRequest) (s : Accounts)
      → ((respond keys registrar route request s).1 ≡ s)
        ⊎ ((username : Text) × MayAct route request s.users username
            × (respond keys registrar route request s ≡ route_body keys registrar route username s))
  unfolding respond
  respond_lem route request s =
      elim (run_as_lem (guard_of keys registrar route s.users request)
        (λ username. route_body keys registrar route username s) s) [
          | inl e ↦ inl e
          | inr (username, g, e) ↦
              inr (username, guard_of-MayAct route s.users request username g, e)
        ]
