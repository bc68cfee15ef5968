-- ===== src/Prelude/Strings.antt =====
-- Python's `str` and `bytes` as lists of code points and of byte values, with the string methods
-- that the program calls. Letters are cased as ASCII, which is all that host names, header names
-- and the program's own keywords hold.
use Prim.Native.Nat.{ℕ, ◌+◌, ◌-◌}
use Prim.Native.Char.{code}
use Prim.Native.String.{String}
use mathlib.Core.Path.{◌≡◌, refl, sym, ap, ◌∙◌}
use mathlib.Core.Logic.{◌↔◌, inl, inr}
use mathlib.Core.Bool.{Bool, true, false, ◌&&◌, ◌||◌}
use mathlib.Core.List.{List, [], ◌∷◌, ◌++◌, map, reverse, reverse-reverse, reverse-append}
use native.Mathlib.Omega.{arith}
use spamallam.Prelude.Tests.{leb, ◌==◌, if◌then◌else◌, Bool-cases}
use spamallam.Prelude.Lists.{All, All-reverse}

abbrev pub Text : Type 0
Text = List ℕ

abbrev pub Bytes : Type 0
Bytes = List ℕ

-- The code points of a literal.
abbrev pub codes : String → Text
codes String.[] = []
codes (String.◌∷◌ c s) = code c ∷ codes s

-- a == b
unfoldable pub text_eq : Text → Text → Bool
text_eq [] [] = true
text_eq (x ∷ xs) (y ∷ ys) = x == y && text_eq xs ys
text_eq [] (y ∷ ys) = false
text_eq (x ∷ xs) [] = false

pub text_eq_iff : (a b : Text) → (text_eq a b ≡ true) ↔ (a ≡ b)
unfolding text_eq
text_eq_iff [] [] = (λ _. refl, λ _. refl)
text_eq_iff (x ∷ xs) (y ∷ ys) =
    (λ h. ground (arith, (text_eq_iff xs ys).0), λ e. ground (arith, (text_eq_iff xs ys).1))
text_eq_iff [] (y ∷ ys) = (λ h. cc, λ e. cc)
text_eq_iff (x ∷ xs) [] = (λ h. cc, λ e. cc)

pub text_eq_refl : (a : Text) → text_eq a a ≡ true
text_eq_refl a = (text_eq_iff a a).1 refl

-- x in xs
abbrev pub elem : Text → List Text → Bool
elem x [] = false
elem x (y ∷ ys) = text_eq x y || elem x ys

abbrev pub starts_with : Text → Text → Bool
starts_with [] s = true
starts_with (p ∷ ps) [] = false
starts_with (p ∷ ps) (c ∷ s) = p == c && starts_with ps s

-- s.endswith(suffix), the suffix first.
abbrev pub ends_with : Text → Text → Bool
ends_with suffix s = starts_with (reverse suffix) (reverse s)

abbrev pub lower_code : ℕ → ℕ
lower_code c = if leb 65 c && leb c 90 then c + 32 else c

-- A letter as an ignore-case pattern of ASCII letters compares it: the long s, the Kelvin sign and
-- the dotted and dotless I match too.
abbrev pub fold_case : ℕ → ℕ
fold_case c =
    if c == 383
    then 115
    else if c == 8490
    then 107
    else if c == 304 || c == 305
    then 105
    else lower_code c

abbrev pub upper_code : ℕ → ℕ
upper_code c = if leb 97 c && leb c 122 then c - 32 else c

abbrev pub lower : Text → Text
lower = map lower_code

abbrev pub upper : Text → Text
upper = map upper_code

-- `\s` of a bytes pattern.
abbrev pub is_space : ℕ → Bool
is_space c = c == 32 || leb 9 c && leb c 13

-- White space of a `str`, as `str.strip()` takes it.
abbrev pub is_str_space : ℕ → Bool
is_str_space c =
    is_space c
    || leb 28 c && leb c 31
    || c == 133
    || c == 160
    || c == 5760
    || leb 8192 c && leb c 8202
    || c == 8232
    || c == 8233
    || c == 8239
    || c == 8287
    || c == 12288

-- s.lstrip(), over the codes that `p` accepts.
abbrev pub strip_left : (ℕ → Bool) → Text → Text
strip_left p [] = []
strip_left p (c ∷ s) = let rest = strip_left p s in if p c then rest else c ∷ s

abbrev pub strip_right : (ℕ → Bool) → Text → Text
strip_right p s = reverse (strip_left p (reverse s))

abbrev pub strip : Text → Text
strip s = strip_right is_str_space (strip_left is_str_space s)

-- s.replace("\r\n", "\n")
unfoldable pub replace_crlf : Text → Text
replace_crlf [] = []
replace_crlf (c ∷ s) =
    let rest = replace_crlf s in if c == 13 && starts_with (10 ∷ []) s then rest else c ∷ rest

-- sep.join(parts)
abbrev pub join : Text → List Text → Text
join sep [] = []
join sep (p ∷ []) = p
join sep (p ∷ q ∷ ps) = p ++ (sep ++ join sep (q ∷ ps))

pub All-strip_left {κ} :
    (P : ℕ → Type κ) (p : ℕ → Bool) (s : Text) → All P s → All P (strip_left p s)
All-strip_left P p [] h = tt
All-strip_left P p (c ∷ s) (q, h) = elim (Bool-cases (p c)) [
  | inl e ↦ rw e (All-strip_left P p s h)
  | inr e ↦ rw e (q, h)
]

pub All-strip {κ} : (P : ℕ → Type κ) (s : Text) → All P s → All P (strip s)
All-strip P s h =
    All-reverse P _
      (All-strip_left P is_str_space _ (All-reverse P _ (All-strip_left P is_str_space s h)))

pub starts_with_iff : (p s : Text) → (starts_with p s ≡ true) ↔ ((x : Text) × (s ≡ p ++ x))
starts_with_iff [] s = (λ h. (s, refl), λ h. refl)
starts_with_iff (c ∷ p) [] = (λ h. cc, λ (x, e). cc)
starts_with_iff (c ∷ p) (d ∷ s) = (
  λ h. let (x, e) = (starts_with_iff p s).0 (ground arith) in (x, ground (arith, e)),
  λ (x, e). ground (arith, (starts_with_iff p s).1 (x, ground arith)),
)

pub ends_with_iff : (p s : Text) → (ends_with p s ≡ true) ↔ ((x : Text) × (s ≡ x ++ p))
ends_with_iff p s = (
  λ h.
      let (x, e) = (starts_with_iff (reverse p) (reverse s)).0 h in
      (
        reverse x,
        sym (reverse-reverse s)
            ∙ ap reverse e
            ∙ reverse-append (reverse p) x
            ∙ ap (λ r. reverse x ++ r) (reverse-reverse p),
      ),
  λ (x, e).
      (starts_with_iff (reverse p) (reverse s)).1 (reverse x, ap reverse e ∙ reverse-append x p),
)

-- a <= b, by code points
abbrev pub text_le : Text → Text → Bool
text_le [] b = true
text_le (x ∷ a) [] = false
text_le (x ∷ a) (y ∷ b) = let rest = text_le a b in if x == y then rest else leb x y

pub text_le_total : (a b : Text) → text_le a b ≡ false → text_le b a ≡ true
text_le_total [] b e = cc
text_le_total (x ∷ a) [] e = refl
text_le_total (x ∷ a) (y ∷ b) e = ground (arith, text_le_total a b)
