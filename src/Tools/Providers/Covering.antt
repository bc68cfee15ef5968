-- ===== src/Tools/Providers/Covering.antt =====
-- Which hosts count as shared infrastructure (spamallam/app/tools/providers_db.py).
use spamallam.Prelude.{
  ◌≡◌, refl, ◌⊎◌, inl, inr, ◌↔◌, Bool-cases, true, false, Option, none, some, List, [], ◌∷◌, ◌++◌,
  is_empty, All, Text, text_eq_iff, ends_with, ends_with_iff, strip_left, strip_right, lower, arith,
}
use spamallam.Tools.Providers.{
  SharedProvider, Hit, shared_providers, hit_of, is_dot, suffix_hit, match_suffix, match_rdns,
  host_name, match_hostname,
}

-- The host ends in the suffix, or is it without its dot.
abbrev pub IsUnderSuffix : Text → Text → Type 0
IsUnderSuffix host suffix = ((x : Text) × (host ≡ x ++ suffix)) ⊎ (host ≡ strip_left is_dot suffix)

suffix_hit_iff : (host suffix : Text) → (suffix_hit host suffix ≡ true) ↔ IsUnderSuffix host suffix
suffix_hit_iff host suffix = (
  λ h. elim (Bool-cases (ends_with suffix host)) [
    | inl e ↦ inl ((ends_with_iff suffix host).0 e)
    | inr e ↦ inr ((text_eq_iff host (strip_left is_dot suffix)).0 (rw e at h))
  ],
  λ h. elim h [
    | inl x ↦ ground (arith, (ends_with_iff suffix host).1 x)
    | inr e ↦ ground (arith, (text_eq_iff host (strip_left is_dot suffix)).1 e)
  ],
)

abbrev pub IsOutside : Text → List Text → Type 0
IsOutside host suffixes = All (λ suffix. ¬ IsUnderSuffix host suffix) suffixes

match_suffix_iff :
    (host : Text) (suffixes : List Text)
    → (match_suffix host suffixes ≡ none) ↔ IsOutside host suffixes
unfolding match_suffix
match_suffix_iff host [] = (λ e. tt, λ h. refl)
match_suffix_iff host (suffix ∷ more) =
    let (to, from) = match_suffix_iff host more in
    let (hit, under) = suffix_hit_iff host suffix in
    elim (Bool-cases (suffix_hit host suffix)) [
      | inl e ↦ simp e (λ f. cc, λ (n, h). absurd (n (hit e)))
      | inr e ↦ simp e (λ f. (λ u. cc (e, under u), to f), λ (n, h). from h)
    ]

hit_of_iff :
    (p : SharedProvider) (o : Option Text) (rest : Option Hit)
    → (hit_of p o rest ≡ none) ↔ ((o ≡ none) × (rest ≡ none))
hit_of_iff p none rest = (λ e. (refl, e), λ (_, e). e)
hit_of_iff p (some matched) rest = (λ e. cc, λ (e, _). cc)

match_rdns_iff :
    (host : Text) (ps : List SharedProvider)
    → (match_rdns host ps ≡ none) ↔ All (λ (p : SharedProvider). IsOutside host p.rdns) ps
unfolding match_rdns
match_rdns_iff host [] = (λ e. tt, λ h. refl)
match_rdns_iff host (p ∷ more) =
    let (to, from) = match_rdns_iff host more in
    let (a, b) = match_suffix_iff host p.rdns in
    let (split, joined) = hit_of_iff p (match_suffix host p.rdns) (match_rdns host more) in
    (λ e. let (f, g) = split e in (a f, to g), λ (f, g). joined (b f, from g))

-- A host is taken for shared infrastructure exactly when, in lower case and without the dots at its
-- end, it lies under a suffix of some provider.
pub match_hostname_iff :
    (hostname : Text)
    → is_empty (strip_right is_dot (lower hostname)) ≡ false
    → (match_hostname hostname ≡ none)
      ↔ All
          (λ (p : SharedProvider). IsOutside (strip_right is_dot (lower hostname)) p.rdns)
          shared_providers
unfolding match_hostname
match_hostname_iff hostname e = rw e (match_rdns_iff (host_name hostname) shared_providers)
