-- ===== src/Store/Users/Tests.antt =====
-- Runs of the account store (spamallam/app/store/users.py).
use spamallam.Prelude.{
  ◌≡◌, ◌<◌, refl, ◌↔◌, inr, arith, true, false, none, some, [], ◌∷◌, elem, is_empty, Text, codes,
  text_eq, get, put,
}
use spamallam.Pipeline.Overrides.{base_recipient, drop_tags}
use spamallam.Store.Users.{
  Credential, User, Users, Token, normalize_address, normalize_from, owned_recipients,
  remove_credential, find_credential, create_token, peek_token, consume_token,
  bootstrap_setup_token,
}
use spamallam.Store.Users.Ownership.{IsMailbox, IsOwned, owned_recipients_lem}
use spamallam.Pipeline.Overrides.Addressing.{IsPlain}
use spamallam.Store.Users.Tokens.{IsStored, consume_token_lem, bootstrap_setup_token_lem}

store : Unit {0}
unfolding normalize_address normalize_from owned_recipients remove_credential find_credential
    create_token peek_token consume_token bootstrap_setup_token get put text_eq base_recipient
    drop_tags
store = tt

abbrev same : Text → Text
same t = t

abbrev key : Credential
key = record {
  id = codes "k";
  public_key = [];
  sign_count = 0;
  label = codes "passkey";
  added = [];
}

abbrev paul : User
paul = record {
  display = codes "Paul";
  is_admin = false;
  created = [];
  timezone = codes "UTC";
  credentials = key ∷ [];
  addresses = codes "p@x.org" ∷ [];
}

abbrev users : Users
users = (codes "paul", paul) ∷ []

owned_test :
    owned_recipients same (some paul) (codes "P+a@x.org" ∷ codes "q@x.org" ∷ [])
    ≡ codes "P+a@x.org" ∷ []
unfolding store
owned_test = refl

p-IsPlain : IsPlain (codes "p")
p-IsPlain = ((omega arith, omega arith), tt)

domain-IsPlain : IsPlain (codes "x.org")
domain-IsPlain = (
  (omega arith, omega arith),
  (
    (omega arith, omega arith),
    ((omega arith, omega arith), ((omega arith, omega arith), ((omega arith, omega arith), tt))),
  ),
)

tagged-IsMailbox : IsMailbox same (codes "P+a@x.org") (codes "p") (codes "x.org")
unfolding store
tagged-IsMailbox = (refl, inr (codes "a", (omega arith, tt), refl))

owned_recipients_lem_example :
    (elem
        (codes "P+a@x.org")
        (owned_recipients same (some paul) (codes "P+a@x.org" ∷ codes "q@x.org" ∷ []))
      ≡ true)
    ↔ ((elem (codes "P+a@x.org") (codes "P+a@x.org" ∷ codes "q@x.org" ∷ []) ≡ true)
        × IsOwned same paul (codes "p@x.org"))
owned_recipients_lem_example =
    owned_recipients_lem same paul (codes "P+a@x.org" ∷ codes "q@x.org" ∷ []) (codes "P+a@x.org")
      (codes "p") (codes "x.org") p-IsPlain domain-IsPlain tagged-IsMailbox

abbrev invite : Token
invite = record {
  hash = codes "t";
  username = some (codes "eve");
  is_admin = false;
  addresses = [];
  created = [];
  expires = 86405;
}

consume_test : (consume_token same 9 (codes "t") (invite ∷ [])).0 ≡ some invite
unfolding store
consume_test = refl

consume_token_lem_example :
    IsStored invite (invite ∷ [])
    × (invite.hash ≡ codes "t")
    × (9 < invite.expires)
    × ((consume_token same 10 (codes "t") (consume_token same 9 (codes "t") (invite ∷ [])).1).0
        ≡ none)
consume_token_lem_example =
    consume_token_lem same 9 10 (codes "t") (invite ∷ []) invite consume_test

bootstrap_setup_token_lem_example :
    ((is_empty users ≡ false)
      → bootstrap_setup_token same same (codes "s") (codes "d") 5 [] users [] ≡ (none, []))
    × ((is_empty users ≡ true)
        → false ≡ false
        → false ≡ false
        → (token : Text) × ((bootstrap_setup_token same same
              (codes "s")
              (codes "d")
              5
              []
              users
              []).0
            ≡ some token)
          × ((found : Token) × (peek_token same 5 token
                  (bootstrap_setup_token same same (codes "s") (codes "d") 5 [] users []).1
                ≡ some found)
              × (found.is_admin ≡ true)))
bootstrap_setup_token_lem_example =
    bootstrap_setup_token_lem same same (codes "s") (codes "d") 5 [] users []

-- An expired setup token is offered again and stays refused.
stale_test :
    ((bootstrap_setup_token same same (codes "t") (codes "d") 86405 [] [] (invite ∷ [])).0
      ≡ some (codes "t"))
    × (peek_token same 86405
          (codes "t")
          (bootstrap_setup_token same same (codes "t") (codes "d") 86405 [] [] (invite ∷ [])).1
        ≡ none)
unfolding store
stale_test = (refl, refl)
