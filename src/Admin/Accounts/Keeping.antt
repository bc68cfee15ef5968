-- ===== src/Admin/Accounts/Keeping.antt =====
-- What the routes on accounts leave alone (spamallam/app/admin/app.py).
use spamallam.Prelude.{
  ◌≡◌, refl, sym, ap, ◌∙◌, inl, inr, Bool-cases, Bool, true, false, Option, none, some, [], ◌∷◌,
  ◌++◌, Bytes, is_some, Text, codes, text_eq, text_eq_iff, get, put, get-put, get-put_other,
}
use spamallam.Store.Users.{
  Credential, User, Users, changed, change_user, add_credential, without, removed, or_text,
}
use spamallam.Admin.Sessions.{Guarded, granted, denied, open_challenge}
use spamallam.Admin.Requests.{Keys}
use spamallam.Admin.Accounts.{
  AccountAction, Accounts, Ceremony, Registrar, recorded, added_credential, registered, challenged,
  verify_registration, after_registration,
}

-- Every account afterwards was there before, with the same privilege.
abbrev pub KeepsFlags : Users → Users → Type 0
KeepsFlags before after =
    (u : Text) (user : User)
    → get u after ≡ some user
    → (old : User) × (get u before ≡ some old) × (user.is_admin ≡ old.is_admin)

-- No other account than the given one changes.
abbrev pub KeepsOthers : Text → Users → Users → Type 0
KeepsOthers k before after =
    (other : Text) → text_eq other k ≡ false → get other after ≡ get other before

-- Every account is still there.
abbrev pub KeepsAll : Users → Users → Type 0
KeepsAll before after = (u : Text) → is_some (get u before) ≡ true → is_some (get u after) ≡ true

pub record IsEdit (k : Text) (before after : Users) : Type 0 where
  pub flags : KeepsFlags before after
  pub others : KeepsOthers k before after
  pub all : KeepsAll before after

pub IsEdit-same : (k : Text) (users : Users) → IsEdit k users users
IsEdit-same k users = record {
  flags = λ u user e. (user, e, refl);
  others = λ other n. refl;
  all = λ u e. e;
}

pub IsEdit-put :
    (k : Text) (old new : User) (users : Users)
    → get k users ≡ some old
    → new.is_admin ≡ old.is_admin
    → IsEdit k users (put k new users)
IsEdit-put k old new users g a = record {
  flags = λ u user e. elim (Bool-cases (text_eq u k)) [
    | inl f ↦
        let same : u ≡ k = (text_eq_iff u k).0 f in
        let n : new ≡ user = cc (get-put k new users, ap (λ x. get x (put k new users)) same, e) in
        (old, ap (λ x. get x users) same ∙ g, sym (ap (λ (x : User). x.is_admin) n) ∙ a)
    | inr f ↦ (user, sym (get-put_other u k new users f) ∙ e, refl)
  ];
  others = λ other n. get-put_other other k new users n;
  all = λ u e. elim (Bool-cases (text_eq u k)) [
    | inl f ↦
        let same : u ≡ k = (text_eq_iff u k).0 f in
        ap (λ x. is_some (get x (put k new users))) same ∙ ap is_some (get-put k new users)
    | inr f ↦ ap is_some (get-put_other u k new users f) ∙ e
  ];
}

IsEdit-changed :
    (k : Text) (f : User → User) (users : Users) (o : Option User)
    → ((user : User) → (f user).is_admin ≡ user.is_admin)
    → get k users ≡ o
    → IsEdit k users (changed k f users o).1
IsEdit-changed k f users none a g = IsEdit-same k users
IsEdit-changed k f users (some user) a g = IsEdit-put k user (f user) users g (a user)

pub IsEdit-change_user :
    (k : Text) (f : User → User) (users : Users)
    → ((user : User) → (f user).is_admin ≡ user.is_admin)
    → IsEdit k users (change_user k f users).1
unfolding change_user
IsEdit-change_user k f users a = IsEdit-changed k f users (get k users) a refl

pub IsEdit-removed :
    (k cred_id : Text) (users : Users) (o : Option User)
    → get k users ≡ o
    → IsEdit k users (removed k cred_id users o).1
IsEdit-removed k cred_id users none g = IsEdit-same k users
IsEdit-removed k cred_id users (some user) g = IsEdit-put k user (without cred_id user) users g refl

-- The users after a change that is recorded.
pub users-recorded :
    (username : Text) (action : AccountAction) (message : Text) (r : Bool × Users) (s : Accounts)
    → (recorded username action message r s).1.users ≡ r.1
users-recorded username action message (true, users) s = refl
users-recorded username action message (false, users) s = refl

module _ (keys : Keys) (registrar : Registrar) where
  IsEdit-added :
      (k : Text) (s : Accounts) (r : Bool × Users)
      → IsEdit k s.users r.1
      → IsEdit k s.users (added_credential keys r s).1.users
  IsEdit-added k s (false, users) h = IsEdit-same k s.users
  IsEdit-added k s (true, users) h = h

  IsEdit-add_credential :
      (k : Text) (cred : Credential) (users : Users)
      → IsEdit k users (add_credential k cred users).1
  unfolding add_credential
  IsEdit-add_credential k cred users =
      IsEdit-change_user k
        (λ user. record user {
          credentials =
              user.credentials ++ record cred { label = or_text cred.label (codes "passkey") } ∷ [];
        })
        users (λ user. refl)

  IsEdit-registered :
      (k label : Text) (o : Option Credential) (s : Accounts)
      → IsEdit k s.users (registered keys k label o s).1.users
  IsEdit-registered k label none s = IsEdit-same k s.users
  IsEdit-registered k label (some cred) s =
      let labelled = record cred { label = label } in
      IsEdit-added k s (add_credential k labelled s.users)
        (IsEdit-add_credential k labelled s.users)

  IsEdit-challenged :
      (k : Text) (c : Ceremony) (g : Guarded Bytes) (s : Accounts)
      → IsEdit k s.users (challenged keys registrar k c g s).1.users
  IsEdit-challenged k c (denied status) s = IsEdit-same k s.users
  IsEdit-challenged k c (granted challenge) s =
      IsEdit-registered k c.label (registrar challenge c.response) s

  pub IsEdit-verify_registration :
      (k : Text) (c : Ceremony) (s : Accounts)
      → IsEdit k s.users (verify_registration keys registrar k c s).1.users
  unfolding verify_registration
  IsEdit-verify_registration k c s =
      IsEdit-challenged k c
        (open_challenge keys.challenges keys.b64url keys.unb64url c.sealed (codes "reg:" ++ k)) s

  pub users-after_registration :
      (k : Text) (action : AccountAction) (r : Guarded Text × Accounts)
      → (after_registration keys k action r).1.users ≡ r.1.users
  users-after_registration k action (denied status, s) = refl
  users-after_registration k action (granted ok, s) = refl
