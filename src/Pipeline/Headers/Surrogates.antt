-- ===== src/Pipeline/Headers/Surrogates.antt =====
-- Texts with no lone surrogate, which `str.encode` takes, and the operations that keep them so
-- (spamallam/app/pipeline/headers.py).
use spamallam.Prelude.{
  ℕ, zero, suc, ◌/◌, ◌%◌, ◌+◌, ◌≡◌, refl, inl, inr, Bool-cases, Bool, true, false, not, List, [],
  ◌∷◌, ◌++◌, if◌then◌else◌, all, All, All-append, All-take, All-strip, Text, codes, lower, upper,
  join, ltb, Float, nan, neg_inf, pos_inf, fin, print_from, print_nat, rounded, sign_text,
  print_fixed2, is_surrogate, HasNoSurrogate, arith,
}
use spamallam.Pipeline.Headers.Verdict.{is_break, join_lines, fold}

pub HasNoSurrogate-of_test :
    (s : Text) → all (λ c. not (is_surrogate c)) s ≡ true → HasNoSurrogate s
HasNoSurrogate-of_test [] e = tt
HasNoSurrogate-of_test (c ∷ s) e = (ground arith, HasNoSurrogate-of_test s (ground arith))

pub HasNoSurrogate-upper : (s : Text) → HasNoSurrogate s → HasNoSurrogate (upper s)
HasNoSurrogate-upper [] h = tt
HasNoSurrogate-upper (c ∷ s) (p, h) = (ground arith, HasNoSurrogate-upper s h)

pub HasNoSurrogate-lower : (s : Text) → HasNoSurrogate s → HasNoSurrogate (lower s)
HasNoSurrogate-lower [] h = tt
HasNoSurrogate-lower (c ∷ s) (p, h) = (ground arith, HasNoSurrogate-lower s h)

pub HasNoSurrogate-if :
    (b : Bool) (s t : Text)
    → HasNoSurrogate s
    → HasNoSurrogate t
    → HasNoSurrogate (if b then s else t)
HasNoSurrogate-if true s t h k = h
HasNoSurrogate-if false s t h k = k

HasNoSurrogate-join_lines :
    (inside : Bool) (s : Text) → HasNoSurrogate s → HasNoSurrogate (join_lines inside s)
unfolding join_lines
HasNoSurrogate-join_lines inside [] h = tt
HasNoSurrogate-join_lines inside (c ∷ s) (p, h) =
    let k = HasNoSurrogate-join_lines (is_break c) s h in
    HasNoSurrogate-if (is_break c) _ _ (HasNoSurrogate-if inside _ _ k (refl, k)) (p, k)

pub HasNoSurrogate-fold : (s : Text) → HasNoSurrogate s → HasNoSurrogate (fold s)
unfolding fold
HasNoSurrogate-fold s h = All-take _ 900 _ (All-strip _ _ (HasNoSurrogate-join_lines false s h))

pub HasNoSurrogate-join :
    (sep : Text) (parts : List Text)
    → HasNoSurrogate sep
    → All HasNoSurrogate parts
    → HasNoSurrogate (join sep parts)
HasNoSurrogate-join sep [] h k = tt
HasNoSurrogate-join sep (p ∷ []) h (k, l) = k
HasNoSurrogate-join sep (p ∷ q ∷ ps) h (k, l) =
    All-append _ p _ k (All-append _ sep _ h (HasNoSurrogate-join sep (q ∷ ps) h l))

HasNoSurrogate-print_from : (f n : ℕ) → HasNoSurrogate (print_from f n)
unfolding print_from
HasNoSurrogate-print_from zero n = tt
HasNoSurrogate-print_from (suc f) n = elim (Bool-cases (ltb n 10)) [
  | inl e ↦ simp e (ground arith, tt)
  | inr e ↦ simp e (
      All-append _ (print_from f (n / 10)) _ (HasNoSurrogate-print_from f (n / 10))
        (ground arith, tt))
]

pub HasNoSurrogate-print_nat : (n : ℕ) → HasNoSurrogate (print_nat n)
unfolding print_nat
HasNoSurrogate-print_nat n = HasNoSurrogate-print_from (suc n) n

HasNoSurrogate-sign_text : (s : Bool) → HasNoSurrogate (sign_text s)
HasNoSurrogate-sign_text true = (refl, tt)
HasNoSurrogate-sign_text false = tt

is_surrogate-digit : (n : ℕ) → is_surrogate (48 + n % 10) ≡ false
is_surrogate-digit n = ground arith

pub HasNoSurrogate-print_fixed2 : (x : Float) → HasNoSurrogate (print_fixed2 x)
unfolding print_fixed2
HasNoSurrogate-print_fixed2 nan = (refl, (refl, (refl, tt)))
HasNoSurrogate-print_fixed2 neg_inf = (refl, (refl, (refl, (refl, tt))))
HasNoSurrogate-print_fixed2 pos_inf = (refl, (refl, (refl, tt)))
HasNoSurrogate-print_fixed2 (fin s m) =
    let h = rounded 100 m in
    All-append _ (sign_text s ++ print_nat (h / 100) ++ codes ".") _
      (All-append _ (sign_text s ++ print_nat (h / 100)) _
        (All-append _ (sign_text s) _ (HasNoSurrogate-sign_text s)
          (HasNoSurrogate-print_nat (h / 100)))
        (refl, tt))
      (is_surrogate-digit (h / 10), (is_surrogate-digit h, tt))
