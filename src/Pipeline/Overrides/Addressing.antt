-- ===== src/Pipeline/Overrides/Addressing.antt =====
-- Plus addressing (spamallam/app/pipeline/overrides.py, and store/users.py, which does the same).
use spamallam.Prelude.{
  ◌≡◌, ◌≢◌, refl, inl, inr, Bool-cases, Bool, true, false, [], ◌∷◌, ◌++◌, All, arith, Text, ◌∙◌, ap,
}
use spamallam.Pipeline.Overrides.{drop_tags, has_at, in_tag}

-- No `@` is dropped, and none appears.
pub has_at-drop_tags : (inside : Bool) (s : Text) → has_at (drop_tags inside s) ≡ has_at s
unfolding drop_tags
has_at-drop_tags inside [] = refl
has_at-drop_tags inside (c ∷ s) = elim (Bool-cases (in_tag inside c s)) [
  | inl e ↦ rw e (has_at-drop_tags true s ∙ ground arith)
  | inr e ↦ rw (e, has_at-drop_tags false s)
]

-- Dropping the tags of an address a second time changes nothing.
pub drop_tags_idempotent :
    (inside : Bool) (s : Text) → drop_tags false (drop_tags inside s) ≡ drop_tags inside s
unfolding drop_tags
drop_tags_idempotent inside [] = refl
drop_tags_idempotent inside (c ∷ s) = elim (Bool-cases (in_tag inside c s)) [
  | inl e ↦ rw e (drop_tags_idempotent true s)
  | inr e ↦
      let f : in_tag false c (drop_tags false s) ≡ false =
        ground (arith, has_at-drop_tags false s, e) in
      rw e (rw f (ap (λ r. c ∷ r) (drop_tags_idempotent false s)))
]

-- A run of codes with no `@` and no `+`.
abbrev pub IsPlain : Text → Type 0
IsPlain = All (λ c. (c ≢ 43) × (c ≢ 64))

abbrev pub HasNoAt : Text → Type 0
HasNoAt = All (λ c. c ≢ 64)

drop_tags_plain : (s t : Text) → IsPlain s → drop_tags false (s ++ t) ≡ s ++ drop_tags false t
unfolding drop_tags
drop_tags_plain [] t h = refl
drop_tags_plain (c ∷ s) t ((p, q), h) =
    let e : in_tag false c (s ++ t) ≡ false = ground arith in
    rw e (ap (λ r. c ∷ r) (drop_tags_plain s t h))

has_at-append : (s t : Text) → has_at (s ++ 64 ∷ t) ≡ true
has_at-append [] t = refl
has_at-append (c ∷ s) t = ground (arith, has_at-append s t)

drop_tags_inside :
    (tag t : Text) → HasNoAt tag → drop_tags true (tag ++ 64 ∷ t) ≡ 64 ∷ drop_tags false t
unfolding drop_tags
drop_tags_inside [] t h = refl
drop_tags_inside (c ∷ tag) t (p, h) =
    let e : in_tag true c (tag ++ 64 ∷ t) ≡ true = ground arith in rw e (drop_tags_inside tag t h)

drop_tags_domain : (s : Text) → IsPlain s → drop_tags false s ≡ s
unfolding drop_tags
drop_tags_domain [] h = refl
drop_tags_domain (c ∷ s) ((p, q), h) =
    let e : in_tag false c s ≡ false = ground arith in rw e (ap (λ r. c ∷ r) (drop_tags_domain s h))

pub drop_tags_untagged :
    (user domain : Text)
    → IsPlain user
    → IsPlain domain
    → drop_tags false (user ++ 64 ∷ domain) ≡ user ++ 64 ∷ domain
unfolding drop_tags
drop_tags_untagged user domain h l =
    drop_tags_plain user (64 ∷ domain) h ∙ ap (λ r. user ++ 64 ∷ r) (drop_tags_domain domain l)

-- Mail to user+tag@domain belongs to user@domain, whatever the tag, which may hold a `+` itself.
pub drop_tags_lem :
    (user tag domain : Text)
    → IsPlain user
    → HasNoAt tag
    → IsPlain domain
    → drop_tags false (user ++ 43 ∷ (tag ++ 64 ∷ domain)) ≡ user ++ 64 ∷ domain
unfolding drop_tags
drop_tags_lem user tag domain h k l =
    drop_tags_plain user (43 ∷ (tag ++ 64 ∷ domain)) h
    ∙ ap (λ r. user ++ r)
        ((let e : in_tag false 43 (tag ++ 64 ∷ domain) ≡ true = has_at-append tag domain in
            rw e (drop_tags_inside tag domain k))
          ∙ ap (λ r. 64 ∷ r) (drop_tags_domain domain l))
