-- ===== src/Prelude/Distinct.antt =====
-- Lists of texts without repetition.
use mathlib.Core.Path.{◌≡◌, refl, sym}
use mathlib.Core.Logic.{inl, inr}
use mathlib.Core.Bool.{false}
use mathlib.Core.List.{List, [], ◌∷◌, ◌++◌}
use native.Mathlib.Omega.{arith}
use spamallam.Prelude.Tests.{Bool-cases}
use spamallam.Prelude.Strings.{Text, text_eq, text_eq_iff, elem}

pub text_eq_sym : (a b : Text) → text_eq a b ≡ false → text_eq b a ≡ false
text_eq_sym a b e = elim (Bool-cases (text_eq b a)) [
  | inl f ↦ cc (e, (text_eq_iff a b).1 (sym ((text_eq_iff b a).0 f)))
  | inr f ↦ f
]

abbrev pub AreDistinct : List Text → Type 0
AreDistinct [] = Unit
AreDistinct (x ∷ xs) = (elem x xs ≡ false) × AreDistinct xs

pub elem-append_one :
    (x n : Text) (xs : List Text)
    → elem x xs ≡ false
    → text_eq x n ≡ false
    → elem x (xs ++ n ∷ []) ≡ false
elem-append_one x n [] h k = simp k
elem-append_one x n (y ∷ xs) h k = ground (arith, elem-append_one x n xs, h, k)

pub AreDistinct-append_one :
    (n : Text) (xs : List Text) → elem n xs ≡ false → AreDistinct xs → AreDistinct (xs ++ n ∷ [])
AreDistinct-append_one n [] h k = (refl, tt)
AreDistinct-append_one n (x ∷ xs) h (e, k) =
    let f : text_eq n x ≡ false = ground arith in
    let g : elem n xs ≡ false = ground arith in
    (elem-append_one x n xs e (text_eq_sym n x f), AreDistinct-append_one n xs g k)
