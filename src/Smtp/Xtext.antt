-- ===== src/Smtp/Xtext.antt =====
-- The xtext decoding (spamallam/app/smtp/server.py) against the encoding of RFC 3461.
use spamallam.Prelude.{
  ℕ, ◌≡◌, ◌<◌, ◌+◌, ◌*◌, ◌/◌, ◌%◌, refl, ap, ◌∙◌, inl, inr, Bool-cases, Bool, false, not, ◌&&◌,
  some, [], ◌∷◌, leb, ltb, ◌==◌, if◌then◌else◌, All, Text, is_str_space, arith,
}
use spamallam.Smtp.{hex_digit, hex_pair, escape, xtext_from, xtext_decode}

abbrev digit : ℕ → ℕ
digit n = if ltb n 10 then 48 + n else 55 + n

-- A printable character other than `+` and `=` stands for itself.
abbrev is_plain : ℕ → Bool
is_plain c = leb 33 c && leb c 126 && not (c == 43) && not (c == 61)

-- The encoding that xtext prescribes for codes below 256.
unfoldable pub xtext_encode : Text → Text
xtext_encode [] = []
xtext_encode (c ∷ s) =
    let rest = xtext_encode s in
    if is_plain c then c ∷ rest else 43 ∷ digit (c / 16) ∷ digit (c % 16) ∷ rest

hex_digit-digit : (n : ℕ) → n < 16 → hex_digit (digit n) ≡ some n
hex_digit-digit n h = ground arith

is_str_space-digit : (n : ℕ) → n < 16 → is_str_space (digit n) ≡ false
is_str_space-digit n h = ground arith

is_sign-digit : (n : ℕ) → n < 16 → ((digit n == 43) ≡ false) × ((digit n == 45) ≡ false)
is_sign-digit n h = (ground arith, ground arith)

hex_pair-digit : (a b : ℕ) → a < 16 → b < 16 → hex_pair (digit a) (digit b) ≡ some (16 * a + b)
unfolding hex_pair
hex_pair-digit a b h k =
    let (p, q) = is_sign-digit a h in
    simp (
      p,
      q,
      is_str_space-digit a h,
      is_str_space-digit b k,
      hex_digit-digit a h,
      hex_digit-digit b k,
    )

xtext_from-plain :
    (c : ℕ) (s : Text) → (c == 43) ≡ false → xtext_from 0 (c ∷ s) ≡ c ∷ xtext_from 0 s
unfolding xtext_from
xtext_from-plain c s n = simp n

abbrev pub IsByte : ℕ → Type 0
IsByte c = c < 256

-- Decoding undoes the encoding, on every text of codes below 256.
pub xtext_decode-xtext_encode : (s : Text) → All IsByte s → xtext_decode (xtext_encode s) ≡ s
unfolding xtext_from xtext_encode escape
xtext_decode-xtext_encode [] h = refl
xtext_decode-xtext_encode (c ∷ s) (p, h) = elim (Bool-cases (is_plain c)) [
  | inl e ↦
      let n : (c == 43) ≡ false = ground arith in
      rw e (xtext_from-plain c (xtext_encode s) n ∙ ap (λ r. c ∷ r) (xtext_decode-xtext_encode s h))
  | inr e ↦
      let d : 16 * (c / 16) + c % 16 ≡ c = omega arith in
      rw e (
        simp (hex_pair-digit (c / 16) (c % 16) (omega arith) (omega arith), d)
          (ap (λ r. c ∷ r) (xtext_decode-xtext_encode s h)))
]
