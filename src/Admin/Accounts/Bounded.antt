-- ===== src/Admin/Accounts/Bounded.antt =====
-- What a request to a route on accounts may change (spamallam/app/admin/app.py).
use spamallam.Prelude.{
  ◌≡◌, refl, sym, ap, subst, ◌∙◌, inl, inr, Bool-cases, Bool, true, false, take, is_some, leb,
  length, Text, codes, text_eq, text_eq_iff, text_eq_sym, get, get-remove, get-remove_other,
}
use spamallam.Store.Users.{
  Users, with_addresses, set_addresses, set_timezone, delete_user, remove_credential,
}
use spamallam.Tools.Zones.{is_valid_zone}
use spamallam.Admin.Requests.{Keys, address_lines}
use spamallam.Admin.Accounts.{
  AccountAction, timezone_set, user_deleted, passkey_added, passkey_removed, Accounts, Ceremony,
  Registrar, recorded, credentials_of, verify_registration, users_timezone, users_invite,
  users_addresses, users_delete, passkey_verify, passkey_delete, Route, post_timezone, post_invite,
  post_addresses, post_delete, post_passkey, post_passkey_delete, route_body,
}
use spamallam.Admin.Accounts.Authority.{is_admin_route}
use spamallam.Admin.Accounts.Keeping.{
  KeepsFlags, KeepsOthers, IsEdit, IsEdit-same, IsEdit-change_user, IsEdit-removed, users-recorded,
  IsEdit-verify_registration, users-after_registration,
}

module _ (keys : Keys) (registrar : Registrar) where
  -- What the body of a route may do to the accounts: it makes none, it makes nobody an admin, the
  -- user's own stays, and only an admin's route touches another.
  pub record IsBounded (route : Route) (username : Text) (before after : Users) : Type 0 where
    pub flags : KeepsFlags before after
    pub own : is_some (get username before) ≡ true → is_some (get username after) ≡ true
    pub others : is_admin_route route ≡ false → KeepsOthers username before after

  IsBounded-own :
      (route : Route) (username : Text) (before after : Users)
      → IsEdit username before after
      → IsBounded route username before after
  IsBounded-own route username before after e = record {
    flags = e.flags;
    own = e.all username;
    others = λ r. e.others;
  }

  IsBounded-recorded :
      (route : Route) (username : Text) (action : AccountAction) (message : Text) (r : Bool × Users)
      (s : Accounts)
      → IsBounded route username s.users r.1
      → IsBounded route username s.users (recorded username action message r s).1.users
  IsBounded-recorded route username action message r s h =
      subst (IsBounded route username s.users) (sym (users-recorded username action message r s)) h

  IsBounded-delete_user :
      (target username : Text) (users : Users)
      → text_eq target username ≡ false
      → IsBounded (post_delete target) username users (delete_user target users).1
  unfolding delete_user
  IsBounded-delete_user target username users n = elim (Bool-cases (is_some (get target users))) [
    | inr e ↦
        simp e
          (IsBounded-own (post_delete target) username users users (IsEdit-same username users))
    | inl e ↦ simp e (record {
      flags = λ u user g. elim (Bool-cases (text_eq u target)) [
        | inl f ↦
            let same : u ≡ target = (text_eq_iff u target).0 f in
            cc (get-remove target users, same, g)
        | inr f ↦ (user, sym (get-remove_other u target users f) ∙ g, refl)
      ];
      own = λ h.
          ap is_some (get-remove_other username target users (text_eq_sym target username n)) ∙ h;
      others = λ r. cc r;
    })
  ]

  users_timezone-IsBounded :
      (name username : Text) (s : Accounts)
      → IsBounded
          (post_timezone name)
          username
          s.users
          (users_timezone keys name username s).1.users
  unfolding users_timezone set_timezone
  users_timezone-IsBounded name username s =
      let route = post_timezone name in
      elim (Bool-cases (is_valid_zone name)) [
        | inr e ↦
            simp e (IsBounded-own route username s.users s.users (IsEdit-same username s.users))
        | inl e ↦ simp e (
            IsBounded-recorded route username (timezone_set name) (codes "Time zone saved.")
              (set_timezone username name s.users) s
              (IsBounded-own route username s.users (set_timezone username name s.users).1 (
                IsEdit-change_user username (λ user. record user { timezone = name }) s.users
                  (λ user. refl))))
      ]

  users_addresses-IsBounded :
      (target addresses username : Text) (s : Accounts)
      → IsBounded
          (post_addresses target addresses)
          username
          s.users
          (users_addresses keys target addresses username s).1.users
  unfolding users_addresses set_addresses
  users_addresses-IsBounded target addresses username s =
      let route = post_addresses target addresses in
      elim (Bool-cases (is_some (get target s.users))) [
        | inr e ↦
            simp e (IsBounded-own route username s.users s.users (IsEdit-same username s.users))
        | inl e ↦
            let change = with_addresses keys.parse_address (address_lines addresses) in
            let edit = IsEdit-change_user target change s.users (λ user. refl) in
            simp e (record { flags = edit.flags; own = edit.all username; others = λ r. cc r })
      ]

  users_delete-IsBounded :
      (target username : Text) (s : Accounts)
      → IsBounded
          (post_delete target)
          username
          s.users
          (users_delete keys target username s).1.users
  unfolding users_delete
  users_delete-IsBounded target username s =
      let route = post_delete target in
      elim (Bool-cases (text_eq target username)) [
        | inl e ↦
            simp e (IsBounded-own route username s.users s.users (IsEdit-same username s.users))
        | inr e ↦ simp e (
            IsBounded-recorded route username (user_deleted target) (codes "User deleted.")
              (delete_user target s.users) s (IsBounded-delete_user target username s.users e))
      ]

  passkey_verify-IsBounded :
      (c : Ceremony) (username : Text) (s : Accounts)
      → IsBounded
          (post_passkey c)
          username
          s.users
          (passkey_verify keys registrar c username s).1.users
  unfolding passkey_verify
  passkey_verify-IsBounded c username s =
      let r = verify_registration keys registrar username c s in
      subst (IsBounded (post_passkey c) username s.users)
        (sym (users-after_registration keys registrar username (passkey_added c.label) r))
        (IsBounded-own (post_passkey c) username s.users r.1.users
          (IsEdit-verify_registration keys registrar username c s))

  passkey_delete-IsBounded :
      (cred_id username : Text) (s : Accounts)
      → IsBounded
          (post_passkey_delete cred_id)
          username
          s.users
          (passkey_delete keys cred_id username s).1.users
  unfolding passkey_delete remove_credential
  passkey_delete-IsBounded cred_id username s =
      let route = post_passkey_delete cred_id in
      let r = remove_credential username cred_id s.users in
      elim (Bool-cases (leb (length (credentials_of (get username s.users))) 1)) [
        | inl e ↦
            simp e (IsBounded-own route username s.users s.users (IsEdit-same username s.users))
        | inr e ↦ simp e (
            IsBounded-recorded route username (passkey_removed (take 16 cred_id))
              (codes "Passkey removed.") r s
              (IsBounded-own route username s.users r.1
                (IsEdit-removed username cred_id s.users (get username s.users) refl)))
      ]

  -- Of the six routes of users and passkeys, none makes an account or an admin; the user's own account
  -- is still there afterwards, and only an admin's route touches another one.
  pub route_body-IsBounded :
      (route : Route) (username : Text) (s : Accounts)
      → IsBounded route username s.users (route_body keys registrar route username s).1.users
  unfolding users_invite
  route_body-IsBounded (post_timezone name) username s = users_timezone-IsBounded name username s
  route_body-IsBounded (post_invite drawn name is_admin addresses) username s =
      IsBounded-own (post_invite drawn name is_admin addresses) username s.users s.users
        (IsEdit-same username s.users)
  route_body-IsBounded (post_addresses target addresses) username s =
      users_addresses-IsBounded target addresses username s
  route_body-IsBounded (post_delete target) username s = users_delete-IsBounded target username s
  route_body-IsBounded (post_passkey c) username s = passkey_verify-IsBounded c username s
  route_body-IsBounded (post_passkey_delete cred_id) username s =
      passkey_delete-IsBounded cred_id username s
