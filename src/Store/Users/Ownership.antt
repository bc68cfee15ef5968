-- ===== src/Store/Users/Ownership.antt =====
-- Whose mail is whose (spamallam/app/store/users.py).
use spamallam.Prelude.{
  AreDistinct, AreDistinct-append_one, ◌≡◌, refl, sym, ap, subst, ◌∙◌, ◌⊎◌, ◌↔◌, inl, inr, map, not,
  strip, lower, text_eq_refl, Bool-cases, Bool, true, false, ◌&&◌, some, List, [], ◌∷◌, ◌++◌,
  is_empty, elem, keep, All, All-append, Text, text_eq, text_eq_iff, arith,
}
use spamallam.Pipeline.Overrides.{has_at, drop_tags, base_recipient}
use spamallam.Pipeline.Overrides.Addressing.{IsPlain, HasNoAt, drop_tags_untagged, drop_tags_lem}
use spamallam.Store.Users.{
  User, normalize_address, is_new, normalize_from, normalize_addresses, owned_addresses,
  owned_recipients,
}

and_false : (b c : Bool) → c ≡ false → false ≡ (b && c)
and_false true c e = sym e
and_false false c e = refl

elem-keep : (p : Text → Bool) (r : Text) (xs : List Text) → elem r (keep p xs) ≡ (elem r xs && p r)
elem-keep p r [] = refl
elem-keep p r (x ∷ xs) = elim (Bool-cases (text_eq r x)) [
  | inl e ↦
      let same : r ≡ x = (text_eq_iff r x).0 e in
      elim (Bool-cases (p x)) [
        | inl f ↦ simp (f, e) (sym (ap p same ∙ f))
        | inr f ↦
            let g = ap p same ∙ f in
            simp (f, e) (elem-keep p r xs ∙ sym (and_false (elem r xs) (p r) g) ∙ sym g)
      ]
  | inr e ↦ elim (Bool-cases (p x)) [
    | inl f ↦ simp (f, e) (elem-keep p r xs)
    | inr f ↦ simp (f, e) (elem-keep p r xs)
  ]
]

elem-is_empty : (x : Text) (xs : List Text) → is_empty xs ≡ true → elem x xs ≡ false
elem-is_empty x [] e = refl
elem-is_empty x (y ∷ ys) e = cc

is_empty-append_at : (s t : Text) → is_empty (s ++ 64 ∷ t) ≡ false
is_empty-append_at [] t = refl
is_empty-append_at (c ∷ s) t = refl

abbrev pub HasAts : List Text → Type 0
HasAts = All (λ a. has_at a ≡ true)

module _ (parse_address : Text → Text) where
  normalize_from-AreDistinct :
      (seen addresses : List Text)
      → AreDistinct seen
      → HasAts seen
      → AreDistinct (normalize_from parse_address seen addresses)
        × HasAts (normalize_from parse_address seen addresses)
  unfolding normalize_from
  normalize_from-AreDistinct seen [] h k = (h, k)
  normalize_from-AreDistinct seen (a ∷ more) h k =
      let n = normalize_address parse_address a in
      elim (Bool-cases (is_new parse_address seen n)) [
        | inl e ↦
            let f : elem n seen ≡ false = ground arith in
            let g : has_at n ≡ true = ground arith in
            simp e (
              normalize_from-AreDistinct (seen ++ n ∷ []) more (AreDistinct-append_one n seen f h)
                (All-append _ seen _ k (g, tt)))
        | inr e ↦ simp e (normalize_from-AreDistinct seen more h k)
      ]

  -- The addresses that are stored for a user are distinct, and each has an `@`.
  pub normalize_addresses-AreDistinct :
      (addresses : List Text)
      → AreDistinct (normalize_addresses parse_address addresses)
        × HasAts (normalize_addresses parse_address addresses)
  normalize_addresses-AreDistinct addresses = normalize_from-AreDistinct [] addresses tt tt

  owned_recipients-elem :
      (user : User) (rcpt_tos : List Text) (r : Text)
      → elem r (owned_recipients parse_address (some user) rcpt_tos) ≡ (
          elem r rcpt_tos
          && elem (normalize_address parse_address r) (owned_addresses parse_address user))
  unfolding owned_recipients
  owned_recipients-elem user rcpt_tos r =
      let owned = owned_addresses parse_address user in
      elim (Bool-cases (is_empty owned)) [
        | inl e ↦ simp e (and_false (elem r rcpt_tos) _ (elem-is_empty _ owned e))
        | inr e ↦
            simp e (elem-keep (λ x. elem (normalize_address parse_address x) owned) r rcpt_tos)
      ]

  -- The address, as it is parsed, in lower case, is the name's at the domain, with a tag or none.
  abbrev pub IsMailbox : Text → Text → Text → Type 0
  IsMailbox address name domain =
      (has_at (parse_address address) ≡ true)
      × ((strip (lower (parse_address address)) ≡ name ++ 64 ∷ domain)
          ⊎ ((tag : Text) × HasNoAt tag
              × (strip (lower (parse_address address)) ≡ name ++ 43 ∷ (tag ++ 64 ∷ domain))))

  -- One of the user's addresses comes down to the text, in lower case and without tags.
  abbrev pub IsOwned : User → Text → Type 0
  IsOwned user mailbox =
      (a : Text) × (elem a user.addresses ≡ true)
      × (has_at (parse_address a) ≡ true)
      × (drop_tags false (strip (lower (parse_address a))) ≡ mailbox)

  normalize_address-mailbox :
      (address name domain : Text)
      → IsPlain name
      → IsPlain domain
      → IsMailbox address name domain
      → normalize_address parse_address address ≡ name ++ 64 ∷ domain
  unfolding normalize_address base_recipient
  normalize_address-mailbox address name domain h k (at, inl e) =
      simp at (ap (drop_tags false) e ∙ drop_tags_untagged name domain h k)
  normalize_address-mailbox address name domain h k (at, inr (tag, n, e)) =
      simp at (ap (drop_tags false) e ∙ drop_tags_lem name tag domain h n k)

  IsOwned-of_elem :
      (user : User) (mailbox : Text) (addresses : List Text)
      → is_empty mailbox ≡ false
      → elem mailbox (map (normalize_address parse_address) addresses) ≡ true
      → (a : Text) × (elem a addresses ≡ true)
        × (has_at (parse_address a) ≡ true)
        × (drop_tags false (strip (lower (parse_address a))) ≡ mailbox)
  unfolding normalize_address base_recipient
  IsOwned-of_elem user mailbox [] n e = cc
  IsOwned-of_elem user mailbox (a ∷ more) n e =
      elim (Bool-cases (text_eq mailbox (normalize_address parse_address a))) [
        | inl f ↦
            let same : mailbox ≡ normalize_address parse_address a =
              (text_eq_iff mailbox (normalize_address parse_address a)).0 f in
            elim (Bool-cases (has_at (parse_address a))) [
              | inl at ↦ (a, simp (text_eq_refl a), at, sym (simp at at same))
              | inr at ↦ cc (n, ap is_empty (simp at at same))
            ]
        | inr f ↦
            let (b, m, at, g) = IsOwned-of_elem user mailbox more n (simp f at e) in
            (b, ground (arith, m), at, g)
      ]

  elem-of_IsOwned :
      (mailbox a : Text) (addresses : List Text)
      → elem a addresses ≡ true
      → has_at (parse_address a) ≡ true
      → drop_tags false (strip (lower (parse_address a))) ≡ mailbox
      → elem mailbox (map (normalize_address parse_address) addresses) ≡ true
  unfolding normalize_address base_recipient
  elem-of_IsOwned mailbox a [] m at g = cc
  elem-of_IsOwned mailbox a (b ∷ more) m at g = elim (Bool-cases (text_eq a b)) [
    | inl f ↦
        let same : a ≡ b = (text_eq_iff a b).0 f in
        let is : normalize_address parse_address a ≡ mailbox = simp at g in
        let hit : text_eq mailbox (normalize_address parse_address b) ≡ true =
          (text_eq_iff mailbox (normalize_address parse_address b)).1
            (sym is ∙ ap (normalize_address parse_address) same) in
        ground (arith, hit)
    | inr f ↦ ground (arith, elem-of_IsOwned mailbox a more (simp f at m) at g)
  ]

  -- A user may release a message to an address `name@domain` or `name+tag@domain`, in any case, exactly
  -- if it is a recipient of the envelope and one of the user's addresses comes down to `name@domain` in
  -- lower case and without its tags.
  pub owned_recipients_lem :
      (user : User) (rcpt_tos : List Text) (r name domain : Text)
      → IsPlain name
      → IsPlain domain
      → IsMailbox r name domain
      → (elem r (owned_recipients parse_address (some user) rcpt_tos) ≡ true)
        ↔ ((elem r rcpt_tos ≡ true) × IsOwned user (name ++ 64 ∷ domain))
  unfolding owned_recipients
  owned_recipients_lem user rcpt_tos r name domain h k m =
      let mailbox = name ++ 64 ∷ domain in
      let owned = owned_addresses parse_address user in
      let n = is_empty-append_at name domain in
      let is = normalize_address-mailbox r name domain h k m in
      let found =
        elem-keep (λ a. not (is_empty a)) mailbox
          (map (normalize_address parse_address) user.addresses) in
      let all = owned_recipients-elem user rcpt_tos r in
      (
        λ e.
            let both : (elem r rcpt_tos && elem (normalize_address parse_address r) owned) ≡ true =
              sym all ∙ e in
            let own : elem (normalize_address parse_address r) owned ≡ true = ground arith in
            let mine : elem mailbox owned ≡ true = subst (λ x. elem x owned ≡ true) is own in
            let hit : elem mailbox (map (normalize_address parse_address) user.addresses) ≡ true =
              ground (arith, found) in
            (ground arith, IsOwned-of_elem user mailbox user.addresses n hit),
        λ (e, (a, elt, at, g)).
            let hit = elem-of_IsOwned mailbox a user.addresses elt at g in
            let mine : elem mailbox owned ≡ true = ground (arith, found) in
            let own : elem (normalize_address parse_address r) owned ≡ true =
              subst (λ x. elem x owned ≡ true) (sym is) mine in
            let both : (elem r rcpt_tos && elem (normalize_address parse_address r) owned) ≡ true =
              ground arith in
            all ∙ both,
      )
