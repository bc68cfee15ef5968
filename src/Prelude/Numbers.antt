-- ===== src/Prelude/Numbers.antt =====
-- Python's `float` and the printing of numbers. Every finite double is a whole number of units of
-- 2 ^ -1074, so a sign and a number of units hold it exactly, the two zeros apart.
use Prim.Native.Nat.{ℕ, zero, suc, ◌+◌, ◌*◌, ◌/◌, ◌%◌, ◌^◌}
use mathlib.Core.Path.{◌≡◌, refl}
use mathlib.Core.Bool.{Bool, true, false, not, ◌&&◌, ◌||◌}
use mathlib.Core.List.{[], ◌∷◌, ◌++◌}
use spamallam.Prelude.Tests.{ltb, ◌==◌, if◌then◌else◌}
use spamallam.Prelude.Strings.{Text, codes}

pub data Float : Type 0 where
  nan neg_inf pos_inf : Float
  -- Whether the sign is set, and the magnitude in units.
  fin : Bool → ℕ → Float

-- 1.0 in units.
unfoldable pub scale : ℕ
scale = 2 ^ 1074

unfoldable pub zero_float : Float
zero_float = fin false 0

unfoldable pub one_float : Float
one_float = fin false scale

-- x < y; every comparison with a NaN is false.
unfoldable pub float_lt : Float → Float → Bool
float_lt nan y = false
float_lt x nan = false
float_lt neg_inf neg_inf = false
float_lt neg_inf y = true
float_lt x neg_inf = false
float_lt pos_inf y = false
float_lt x pos_inf = true
float_lt (fin false a) (fin false b) = ltb a b
float_lt (fin true a) (fin true b) = ltb b a
float_lt (fin true a) (fin false b) = not (a == 0 && b == 0)
float_lt (fin false a) (fin true b) = false

-- x >= y
unfoldable pub float_ge : Float → Float → Bool
float_ge nan y = false
float_ge x nan = false
float_ge x y = not (float_lt x y)

-- `min(x, y)` and `max(x, y)`: the first argument unless the second is strictly better.
unfoldable pub float_min : Float → Float → Float
float_min x y = if float_lt y x then y else x

unfoldable pub float_max : Float → Float → Float
float_max x y = if float_lt x y then y else x

-- The decimal digits of a number; the fuel is above the number, so it does not run out.
unfoldable pub print_from : ℕ → ℕ → Text
print_from zero n = []
print_from (suc f) n =
    let longer = print_from f (n / 10) ++ (48 + n % 10) ∷ [] in
    if ltb n 10 then (48 + n) ∷ [] else longer

-- str(n)
unfoldable pub print_nat : ℕ → Text
unfolding print_from
print_nat n = print_from (suc n) n

-- The magnitude in parts of a unit, `parts` to 1.0, rounded to the nearest, ties to even.
unfoldable pub rounded : ℕ → ℕ → ℕ
rounded parts m =
    let q = m * parts / scale in
    let r = m * parts % scale * 2 in if ltb scale r || (scale == r && q % 2 == 1) then q + 1 else q

abbrev pub sign_text : Bool → Text
sign_text s = if s then codes "-" else []

-- f"{x:.2f}"
unfoldable pub print_fixed2 : Float → Text
unfolding print_nat rounded scale
print_fixed2 nan = codes "nan"
print_fixed2 neg_inf = codes "-inf"
print_fixed2 pos_inf = codes "inf"
print_fixed2 (fin s m) =
    let h = rounded 100 m in
    sign_text s ++ print_nat (h / 100) ++ codes "." ++ (48 + h / 10 % 10) ∷ (48 + h % 10) ∷ []

-- f"{x:.1f}"
unfoldable pub print_fixed1 : Float → Text
unfolding print_nat rounded scale
print_fixed1 nan = codes "nan"
print_fixed1 neg_inf = codes "-inf"
print_fixed1 pos_inf = codes "inf"
print_fixed1 (fin s m) =
    let t = rounded 10 m in sign_text s ++ print_nat (t / 10) ++ codes "." ++ (48 + t % 10) ∷ []

print_fixed2_tests :
    (print_fixed2 one_float ≡ codes "1.00")
    × (print_fixed2 zero_float ≡ codes "0.00")
    × (print_fixed2 (fin true (scale / 8)) ≡ codes "-0.12")
    × (print_fixed2 (fin false (scale * 3 / 8)) ≡ codes "0.38")
    × (print_fixed2 (fin false (scale * 15)) ≡ codes "15.00")
unfolding print_fixed2 one_float zero_float scale
print_fixed2_tests = (refl, refl, refl, refl, refl)
