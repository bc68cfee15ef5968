-- ===== src/Pipeline/Overrides/Matching.antt =====
-- Which domains a pattern covers (spamallam/app/pipeline/overrides.py).
use spamallam.Prelude.{
  ◌≡◌, ◌≢◌, refl, sym, ◌∙◌, ◌⊎◌, inl, inr, ◌↔◌, Bool-cases, true, none, some, List, [], ◌∷◌, ◌++◌,
  is_empty, All, arith, Text, text_eq, text_eq_iff, ends_with_iff,
}
use spamallam.Pipeline.Overrides.{clean_pattern, domain_hit, domain_matches}

-- The domain itself or a proper subdomain, cut at a dot.
abbrev pub IsUnder : Text → Text → Type 0
IsUnder domain p = (domain ≡ p) ⊎ ((x : Text) × (domain ≡ x ++ 46 ∷ p))

pub domain_hit_iff : (domain p : Text) → (domain_hit domain p ≡ true) ↔ IsUnder domain p
domain_hit_iff domain p = (
  λ h. elim (Bool-cases (text_eq domain p)) [
    | inl e ↦ inl ((text_eq_iff domain p).0 e)
    | inr e ↦ inr ((ends_with_iff (46 ∷ p) domain).0 (rw e at h))
  ],
  λ h. elim h [
    | inl e ↦ rw ((text_eq_iff domain p).1 e)
    | inr x ↦ ground (arith, (ends_with_iff (46 ∷ p) domain).1 x)
  ],
)

-- A pattern that covers the domain: not empty once cleaned, and the domain is it or lies under it.
abbrev pub Covers : Text → Text → Type 0
Covers domain pat = (clean_pattern pat ≢ []) × IsUnder domain (clean_pattern pat)

abbrev pub SomeCovers : Text → List Text → Text → Type 0
SomeCovers domain [] p = ⊥
SomeCovers domain (pat ∷ pats) p =
    ((clean_pattern pat ≡ p) × Covers domain pat) ⊎ SomeCovers domain pats p

is_empty_iff : (s : Text) → (is_empty s ≡ true) ↔ (s ≡ [])
is_empty_iff [] = (λ h. refl, λ e. refl)
is_empty_iff (c ∷ s) = (λ h. cc, λ e. cc)

Covers-dec : (domain pat : Text) → Covers domain pat ⊎ (¬ Covers domain pat)
Covers-dec domain pat =
    let q = clean_pattern pat in
    elim (Bool-cases (is_empty q)) [
      | inl e ↦ inr (λ (n, u). n ((is_empty_iff q).0 e))
      | inr e ↦ elim (Bool-cases (domain_hit domain q)) [
        | inl f ↦ inl (λ n. cc ((is_empty_iff q).1 n), (domain_hit_iff domain q).0 f)
        | inr f ↦ inr (λ (n, u). cc ((domain_hit_iff domain q).1 u))
      ]
    ]

domain_matches_of_Covers :
    (domain pat : Text) (pats : List Text)
    → Covers domain pat
    → domain_matches domain (pat ∷ pats) ≡ some (clean_pattern pat)
unfolding domain_matches
domain_matches_of_Covers domain pat pats (n, u) =
    let q = clean_pattern pat in ground (arith, (domain_hit_iff domain q).1 u, (is_empty_iff q).0)

domain_matches_of_not-Covers :
    (domain pat : Text) (pats : List Text)
    → ¬ Covers domain pat
    → domain_matches domain (pat ∷ pats) ≡ domain_matches domain pats
unfolding domain_matches
domain_matches_of_not-Covers domain pat pats n =
    let q = clean_pattern pat in
    elim (Bool-cases (is_empty q)) [
      | inl e ↦ rw e
      | inr e ↦ elim (Bool-cases (domain_hit domain q)) [
        | inl f ↦ absurd (n (λ z. cc ((is_empty_iff q).1 z), (domain_hit_iff domain q).0 f))
        | inr f ↦ rw (e, f)
      ]
    ]

-- A hit is a pattern of the list, cleaned, that covers the domain; there is none exactly when no
-- pattern covers it.
pub domain_matches_lem :
    (domain : Text) (pats : List Text)
    → ((p : Text) → domain_matches domain pats ≡ some p → SomeCovers domain pats p)
      × ((domain_matches domain pats ≡ none) ↔ All (λ pat. ¬ Covers domain pat) pats)
domain_matches_lem domain [] = unfold domain_matches in (λ p e. cc, (λ e. tt, λ h. refl))
domain_matches_lem domain (pat ∷ pats) =
    let (found, missed) = domain_matches_lem domain pats in
    elim (Covers-dec domain pat) [
      | inl c ↦
          let e = domain_matches_of_Covers domain pat pats c in
          (λ p f. inl (cc (e, f), c), (λ f. cc (e, f), λ (n, h). absurd (n c)))
      | inr n ↦
          let e = domain_matches_of_not-Covers domain pat pats n in
          (
            λ p f. inr (found p (sym e ∙ f)),
            (λ f. (n, missed.0 (sym e ∙ f)), λ (_, h). e ∙ missed.1 h),
          )
    ]
