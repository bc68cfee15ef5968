-- ===== src/Pipeline/Headers/Signing.antt =====
-- Theorems on folding, the confidence and the signature (spamallam/app/pipeline/headers.py).
use spamallam.Prelude.{
  ◌≤◌, ◌≡◌, ◌≢◌, refl, inl, inr, Bool-cases, Bool, true, false, [], ◌∷◌, ◌++◌, if◌then◌else◌, All,
  All-take, All-strip, length, length-take-le, Text, codes, lower, arith, Float, nan, fin,
  zero_float, one_float, float_ge, float_lt,
}
use spamallam.Pipeline.Headers.Verdict.{clamp_confidence, is_break, join_lines, fold}

abbrev pub HasNoBreak : Text → Type 0
HasNoBreak = All (λ c. is_break c ≡ false)

HasNoBreak-run :
    (inside : Bool) (s : Text) → HasNoBreak s → HasNoBreak (if inside then s else 32 ∷ s)
HasNoBreak-run true s h = h
HasNoBreak-run false s h = (refl, h)

HasNoBreak-join_lines : (inside : Bool) (s : Text) → HasNoBreak (join_lines inside s)
unfolding join_lines
HasNoBreak-join_lines inside [] = tt
HasNoBreak-join_lines inside (c ∷ s) = elim (Bool-cases (is_break c)) [
  | inl e ↦ rw e (HasNoBreak-run inside (join_lines true s) (HasNoBreak-join_lines true s))
  | inr e ↦ rw e (e, HasNoBreak-join_lines false s)
]

-- A folded value is one line of at most 900 characters.
pub fold_bounds : (value : Text) → HasNoBreak (fold value) × (length (fold value) ≤ 900)
unfolding fold
fold_bounds value =
    (All-take _ 900 _ (All-strip _ _ (HasNoBreak-join_lines false value)), length-take-le 900 _)

-- The clamped confidence lies between 0 and 1, whatever float the model reported.
pub clamp_confidence_bounds :
    (x : Float)
    → (float_ge (clamp_confidence x) zero_float ≡ true)
      × (float_ge one_float (clamp_confidence x) ≡ true)
unfolding clamp_confidence float_ge float_lt zero_float one_float
clamp_confidence_bounds nan = ground arith
clamp_confidence_bounds (fin false m) = ground arith
clamp_confidence_bounds (fin true m) = ground arith
clamp_confidence_bounds x = ground arith

abbrev HasNoLf : Text → Type 0
HasNoLf = All (λ c. c ≢ 10)

HasNoLf-of_HasNoBreak : (s : Text) → HasNoBreak s → HasNoLf s
HasNoLf-of_HasNoBreak [] h = tt
HasNoLf-of_HasNoBreak (c ∷ s) (p, h) = (ground arith, HasNoLf-of_HasNoBreak s h)

lf_in_append : (c d : Text) → ¬ (HasNoLf (c ++ 10 ∷ d))
lf_in_append [] d (p, h) = p refl
lf_in_append (x ∷ c) d (p, h) = lf_in_append c d h

-- Two lines with no LF of their own are told from any text of two parts around an LF.
two_lines : (a b c d : Text) → HasNoLf a → HasNoLf b → a ++ 10 ∷ b ≡ c ++ 10 ∷ d → (a ≡ c) × (b ≡ d)
two_lines [] b [] d h k e = (refl, ground arith)
two_lines [] b (y ∷ c) d h k e =
    let f : b ≡ c ++ 10 ∷ d = ground arith in absurd (lf_in_append c d (rw f at k))
two_lines (x ∷ a) b [] d (p, h) k e = absurd (p (ground arith))
two_lines (x ∷ a) b (y ∷ c) d (p, h) k e =
    let (f, g) = two_lines a b c d h k (ground arith) in (ground (arith, f), g)

append_cancel : (p a b : Text) → p ++ a ≡ p ++ b → a ≡ b
append_cancel [] a b e = e
append_cancel (x ∷ p) a b e = append_cancel p a b (ground arith)

abbrev nl : Text
nl = codes "\n"

peel : (p a b : Text) → p ++ (nl ++ a) ≡ p ++ (nl ++ b) → a ≡ b
peel p a b e = append_cancel nl a b (append_cancel p (nl ++ a) (nl ++ b) e)

same_tail :
    (t u f a b : Text)
    → codes "v1" ++ (nl ++ (t ++ (nl ++ (u ++ (nl ++ (f ++ (nl ++ a)))))))
      ≡ codes "v1" ++ (nl ++ (t ++ (nl ++ (u ++ (nl ++ (f ++ (nl ++ b)))))))
    → a ≡ b
same_tail t u f a b e = peel f a b (peel u _ _ (peel t _ _ (peel (codes "v1") _ _ e)))

lower-HasNoLf : (s : Text) → HasNoLf s → HasNoLf (lower s)
lower-HasNoLf [] h = tt
lower-HasNoLf (c ∷ s) (p, h) = (ground arith, lower-HasNoLf s h)
