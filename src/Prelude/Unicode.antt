-- ===== src/Prelude/Unicode.antt =====
-- `str.encode()`: UTF-8, which raises on a lone surrogate.
use Prim.Native.Nat.{ℕ, ◌+◌, ◌/◌, ◌%◌}
use mathlib.Core.Path.{◌≡◌, refl}
use mathlib.Core.Bool.{Bool, false, ◌&&◌}
use mathlib.Core.Option.{Option, none, some}
use mathlib.Core.List.{[], ◌∷◌, ◌++◌}
use native.Mathlib.Omega.{arith}
use spamallam.Prelude.Tests.{ltb, leb, if◌then◌else◌}
use spamallam.Prelude.Lists.{All}
use spamallam.Prelude.Strings.{Text, Bytes, codes}

abbrev pub is_surrogate : ℕ → Bool
is_surrogate c = leb 0xd800 c && leb c 0xdfff

abbrev pub utf8 : ℕ → Bytes
utf8 c =
    if ltb c 0x80
    then c ∷ []
    else if ltb c 0x800
    then (0xc0 + c / 64) ∷ (0x80 + c % 64) ∷ []
    else if ltb c 0x10000
    then (0xe0 + c / 4096) ∷ (0x80 + c / 64 % 64) ∷ (0x80 + c % 64) ∷ []
    else (0xf0 + c / 262144) ∷ (0x80 + c / 4096 % 64) ∷ (0x80 + c / 64 % 64) ∷ (0x80 + c % 64) ∷ []

abbrev cons_utf8 : ℕ → Option Bytes → Option Bytes
cons_utf8 c none = none
cons_utf8 c (some rest) = if is_surrogate c then none else some (utf8 c ++ rest)

-- `none` is UnicodeEncodeError.
unfoldable pub encode : Text → Option Bytes
encode [] = some []
encode (c ∷ s) = cons_utf8 c (encode s)

abbrev pub HasNoSurrogate : Text → Type 0
HasNoSurrogate = All (λ c. is_surrogate c ≡ false)

encode_tests :
    (encode (codes "aé€😀")
      ≡ some (97 ∷ 0xc3 ∷ 0xa9 ∷ 0xe2 ∷ 0x82 ∷ 0xac ∷ 0xf0 ∷ 0x9f ∷ 0x98 ∷ 0x80 ∷ []))
    × (encode (0xd800 ∷ []) ≡ none)
unfolding encode
encode_tests = (refl, refl)

pub encode-some : (s : Text) → HasNoSurrogate s → (b : Bytes) × (encode s ≡ some b)
unfolding encode
encode-some [] h = ([], refl)
encode-some (c ∷ s) (p, h) = let (b, e) = encode-some s h in (utf8 c ++ b, ground (arith, e, p))
