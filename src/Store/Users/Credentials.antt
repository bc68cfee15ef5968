-- ===== src/Store/Users/Credentials.antt =====
-- The passkeys of users (spamallam/app/store/users.py).
use spamallam.Prelude.{
  ◌≤◌, ◌≡◌, refl, ap, ◌∙◌, inl, inr, ◌↔◌, Bool-cases, Bool, false, not, Option, none, some, List,
  [], ◌∷◌, any, keep, find_first, length, ltb, All, Text, get, get-put, arith,
}
use spamallam.Store.Users.{
  Credential, User, Users, has_id, without, removed, or_next, remove_credential, find_credential,
}

module _ {A : Type 0} (p : A → Bool) where
  length-keep : (xs : List A) → length (keep (λ x. not (p x)) xs) ≤ length xs
  length-keep [] = omega arith
  length-keep (x ∷ xs) = elim (Bool-cases (p x)) [
    | inl e ↦ simp e (omega (arith, length-keep xs))
    | inr e ↦ simp e (omega (arith, length-keep xs))
  ]

  ltb-keep : (xs : List A) → ltb (length (keep (λ x. not (p x)) xs)) (length xs) ≡ any p xs
  ltb-keep [] = refl
  ltb-keep (x ∷ xs) = elim (Bool-cases (p x)) [
    | inl e ↦ simp e (ground (arith, length-keep xs))
    | inr e ↦ simp e (ground (arith, ltb-keep xs))
  ]

  find_first-keep : (xs : List A) → find_first p (keep (λ x. not (p x)) xs) ≡ none
  find_first-keep [] = refl
  find_first-keep (x ∷ xs) = elim (Bool-cases (p x)) [
    | inl e ↦ simp e (find_first-keep xs)
    | inr e ↦ simp (e, find_first-keep xs)
  ]

  find_first_iff : (xs : List A) → (find_first p xs ≡ none) ↔ (any p xs ≡ false)
  find_first_iff [] = (λ e. refl, λ e. refl)
  find_first_iff (x ∷ xs) = elim (Bool-cases (p x)) [
    | inl e ↦ simp e ((λ f. cc, λ f. cc))
    | inr e ↦ simp e (find_first_iff xs)
  ]

-- Removing a passkey reports whether the user had it, and afterwards the user has it no more.
pub remove_credential_lem :
    (username cred_id : Text) (users : Users) (user : User)
    → get username users ≡ some user
    → ((remove_credential username cred_id users).0 ≡ any (has_id cred_id) user.credentials)
      × (get username (remove_credential username cred_id users).1 ≡ some (without cred_id user))
      × (find_first (has_id cred_id) (without cred_id user).credentials ≡ none)
unfolding remove_credential
remove_credential_lem username cred_id users user e = (
  ap (λ o. (removed username cred_id users o).0) e ∙ ltb-keep (has_id cred_id) user.credentials,
  ap (λ o. get username (removed username cred_id users o).1) e
      ∙ get-put username (without cred_id user) users,
  find_first-keep (has_id cred_id) user.credentials,
)

find_credential_step :
    (cred_id username : Text) (o : Option Credential) (rest : Option (Text × Credential))
    → (or_next username o rest ≡ none) ↔ ((o ≡ none) × (rest ≡ none))
find_credential_step cred_id username none rest = (λ e. (refl, e), λ (_, e). e)
find_credential_step cred_id username (some c) rest = (λ e. cc, λ (e, _). cc)

-- A passkey is found exactly when some user has it.
pub find_credential_iff :
    (cred_id : Text) (users : Users)
    → (find_credential cred_id users ≡ none)
      ↔ All (λ entry. any (has_id cred_id) entry.1.credentials ≡ false) users
unfolding find_credential
find_credential_iff cred_id [] = (λ e. tt, λ h. refl)
find_credential_iff cred_id ((username, user) ∷ users) =
    let (to, from) = find_credential_iff cred_id users in
    let (found, missed) = find_first_iff (has_id cred_id) user.credentials in
    let (split, joined) =
      find_credential_step cred_id username (find_first (has_id cred_id) user.credentials)
        (find_credential cred_id users) in
    (λ e. let (a, b) = split e in (found a, to b), λ (a, b). joined (missed a, from b))
