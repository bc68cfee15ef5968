-- ===== src/Store/Users/Tokens.antt =====
-- Enrollment tokens (spamallam/app/store/users.py).
use spamallam.Prelude.{
  ℕ, ◌≡◌, ◌<◌, ◌+◌, refl, sym, ap, ◌∙◌, inl, inr, Bool-cases, Bool, true, false, not, Option,
  Option-cases, none, some, List, [], ◌∷◌, ◌++◌, any, keep, find_first, is_empty, Text, text_eq,
  text_eq_iff, text_eq_refl, arith,
}
use spamallam.Store.Users.{
  Token, Users, token_ttl, is_valid, peek_token, consume_token, create_token, setup_record,
  bootstrap_setup_token, normalize_addresses, normalize_from,
}

find_first-keep :
    (now : ℕ) (h : Text) (tokens : List Token)
    → find_first (is_valid now h) (keep (λ t. not (text_eq t.hash h)) tokens) ≡ none
find_first-keep now h [] = refl
find_first-keep now h (t ∷ tokens) = elim (Bool-cases (text_eq t.hash h)) [
  | inl e ↦ simp e (find_first-keep now h tokens)
  | inr e ↦ simp (e, find_first-keep now h tokens)
]

find_first-IsValid :
    (now : ℕ) (h : Text) (tokens : List Token) (found : Token)
    → find_first (is_valid now h) tokens ≡ some found
    → is_valid now h found ≡ true
find_first-IsValid now h [] found e = cc
find_first-IsValid now h (t ∷ tokens) found e = elim (Bool-cases (is_valid now h t)) [
  | inl f ↦ let same : t ≡ found = cc (simp f at e) in rw (sym same) f
  | inr f ↦ find_first-IsValid now h tokens found (simp f at e)
]

-- The first that is found stands in the list.
abbrev pub IsStored : Token → List Token → Type 0
IsStored found tokens =
    (before : List Token) × (after : List Token) × (tokens ≡ before ++ found ∷ after)

find_first-IsStored :
    (now : ℕ) (h : Text) (tokens : List Token) (found : Token)
    → find_first (is_valid now h) tokens ≡ some found
    → IsStored found tokens
find_first-IsStored now h [] found e = cc
find_first-IsStored now h (t ∷ tokens) found e = elim (Bool-cases (is_valid now h t)) [
  | inl f ↦ let same : t ≡ found = cc (simp f at e) in ([], tokens, ap (λ x. x ∷ tokens) same)
  | inr f ↦
      let (before, after, g) = find_first-IsStored now h tokens found (simp f at e) in
      (t ∷ before, after, ap (λ xs. t ∷ xs) g)
]

find_first-append :
    (now : ℕ) (h : Text) (tokens : List Token) (t : Token)
    → any (λ t. text_eq t.hash h) tokens ≡ false
    → is_valid now h t ≡ true
    → find_first (is_valid now h) (tokens ++ t ∷ []) ≡ some t
find_first-append now h [] t n v = simp v
find_first-append now h (u ∷ tokens) t n v =
    let e : text_eq u.hash h ≡ false = ground arith in
    let m : any (λ t. text_eq t.hash h) tokens ≡ false = ground arith in
    simp (e, find_first-append now h tokens t m v)

module _ (hash_of : Text → Text) where
  -- A token that is accepted is a stored one, as it was stored, with its hash, and has not expired;
  -- from then on it is refused, at any time.
  pub consume_token_lem :
      (now later : ℕ) (token : Text) (tokens : List Token) (found : Token)
      → (consume_token hash_of now token tokens).0 ≡ some found
      → IsStored found tokens
        × (found.hash ≡ hash_of token)
        × (now < found.expires)
        × ((consume_token hash_of later token (consume_token hash_of now token tokens).1).0 ≡ none)
  unfolding consume_token
  consume_token_lem now later token tokens found e =
      let h = hash_of token in
      elim (Option-cases (find_first (is_valid now h) tokens)) [
        | inl f ↦ cc (simp f at e)
        | inr (t, f) ↦
            let same : t ≡ found = cc (simp f at e) in
            let v = find_first-IsValid now h tokens found (f ∙ simp same) in
            let w : text_eq found.hash h ≡ true = ground arith in
            (
              find_first-IsStored now h tokens found (f ∙ simp same),
              (text_eq_iff found.hash h).0 w,
              ground (arith, v),
              simp f (simp (find_first-keep later h tokens)),
            )
      ]

  -- A token just created is accepted until it expires, with the rights that it was created with,
  -- if no stored token has its hash.
  pub consume_token-create_token :
      (parse_address : Text → Text) (token : Text) (now later : ℕ) (stamp : Text)
      (username : Option Text) (is_admin : Bool) (addresses : List Text) (tokens : List Token)
      → any (λ t. text_eq t.hash (hash_of token)) tokens ≡ false
      → later < now + token_ttl
      → (consume_token hash_of later token
          (create_token hash_of parse_address token now stamp username is_admin addresses tokens)).0
        ≡ some (record {
          hash = hash_of token;
          username = username;
          is_admin = is_admin;
          addresses = normalize_addresses parse_address addresses;
          created = stamp;
          expires = now + token_ttl;
        })
  unfolding consume_token create_token
  consume_token-create_token parse_address token now later stamp username is_admin addresses tokens
        n l =
      let t : Token = record {
        hash = hash_of token;
        username = username;
        is_admin = is_admin;
        addresses = normalize_addresses parse_address addresses;
        created = stamp;
        expires = now + token_ttl;
      } in
      let v : is_valid later (hash_of token) t ≡ true =
        ground (arith, text_eq_refl (hash_of token)) in
      simp (find_first-append later (hash_of token) tokens t n v)

  -- The first boot, with no user: a token is returned, and it can be redeemed at once, if none with
  -- its hash is stored already. With a user there is no token and nothing changes.
  pub bootstrap_setup_token_lem :
      (parse_address : Text → Text) (setup drawn : Text) (now : ℕ) (stamp : Text) (users : Users)
      (tokens : List Token)
      → ((is_empty users ≡ false)
          → bootstrap_setup_token hash_of parse_address setup drawn now stamp users tokens
            ≡ (none, tokens))
        × ((is_empty users ≡ true)
            → any (λ t. text_eq t.hash (hash_of setup)) tokens ≡ false
            → any (λ t. text_eq t.hash (hash_of drawn)) tokens ≡ false
            → (token : Text) × ((bootstrap_setup_token hash_of parse_address setup drawn now stamp
                  users tokens).0
                ≡ some token)
              × ((found : Token) × (peek_token hash_of now token
                      (bootstrap_setup_token hash_of parse_address setup drawn now stamp users
                        tokens).1
                    ≡ some found)
                  × (found.is_admin ≡ true)))
  unfolding bootstrap_setup_token peek_token create_token normalize_from
  bootstrap_setup_token_lem parse_address setup drawn now stamp users tokens = (
    λ e. simp e,
    λ e n m. elim (Bool-cases (is_empty setup)) [
      | inl f ↦
          let t = setup_record hash_of (hash_of drawn) now stamp in
          let v : is_valid now (hash_of drawn) t ≡ true =
            ground (arith, text_eq_refl (hash_of drawn)) in
          (
            drawn,
            simp (e, f),
            (t, simp (e, f) (find_first-append now (hash_of drawn) tokens t m v), refl),
          )
      | inr f ↦
          let t = setup_record hash_of (hash_of setup) now stamp in
          let v : is_valid now (hash_of setup) t ≡ true =
            ground (arith, text_eq_refl (hash_of setup)) in
          (
            setup,
            simp (e, f),
            (t, simp (e, f, n) (find_first-append now (hash_of setup) tokens t n v), refl),
          )
    ],
  )
