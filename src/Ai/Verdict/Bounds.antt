-- ===== src/Ai/Verdict/Bounds.antt =====
-- What a parsed verdict is (spamallam/app/ai/engine.py, `parse_verdict`).
use spamallam.Prelude.{
  ℕ, ◌≤◌, ◌≡◌, subst, inl, inr, Bool-cases, true, false, Option, none, some, List, [], ◌∷◌, ◌++◌,
  elem, length, length-append, length-take-le, leb, All, All-append, AreDistinct,
  AreDistinct-append_one, Text, upper, Float, float_ge, zero_float, one_float, arith,
}
use spamallam.Pipeline.Headers.Verdict.{SpamallamVerdict}
use spamallam.Pipeline.Headers.Signing.{clamp_confidence_bounds}
use spamallam.Pipeline.Rspamd.{float_field}
use spamallam.Ai.Verdict.{
  Answer, valid_verdicts, listed, is_taken, take_labels, verdict_of, read_answer, checked_answer,
  parse_verdict,
}

-- Labels that the admin enabled, none twice, and at most `n` of them.
abbrev pub AreLabels : List Text → ℕ → List Text → Type 0
AreLabels valid n labels =
    (length labels ≤ n) × AreDistinct labels × All (λ l. elem l valid ≡ true) labels

AreLabels-append_one :
    (valid labels : List Text) (l : Text)
    → is_taken valid labels l ≡ true
    → AreLabels valid 2 labels
    → AreLabels valid 3 (labels ++ l ∷ [])
AreLabels-append_one valid labels l e (n, d, v) =
    let f : elem l labels ≡ false = ground arith in
    let g : elem l valid ≡ true = ground arith in
    (
      omega (arith, length-append labels (l ∷ []), n),
      AreDistinct-append_one l labels f d,
      All-append _ labels (l ∷ []) v (g, tt),
    )

AreLabels-take_labels :
    (valid labels more : List Text)
    → AreLabels valid 2 labels
    → AreLabels valid 3 (take_labels valid labels more)
unfolding take_labels
AreLabels-take_labels valid labels [] (n, d, v) = (omega arith, d, v)
AreLabels-take_labels valid labels (l ∷ more) (n, d, v) =
    elim (Bool-cases (is_taken valid labels l)) [
      | inl e ↦
          let (m, d', v') = AreLabels-append_one valid labels l e (n, d, v) in
          elim (Bool-cases (leb 3 (length (labels ++ l ∷ [])))) [
            | inl f ↦ simp (e, f) (m, d', v')
            | inr f ↦
                simp (e, f)
                  (AreLabels-take_labels valid (labels ++ l ∷ []) more (ground arith, d', v'))
          ]
      | inr e ↦
          let f : leb 3 (length labels) ≡ false = ground arith in
          simp (e, f) (AreLabels-take_labels valid labels more (n, d, v))
    ]

-- One of the four verdicts, a confidence between 0 and 1, short texts, and enabled labels.
pub record IsSound (valid : List Text) (v : SpamallamVerdict) : Type 0 where
  pub verdict : elem v.verdict valid_verdicts ≡ true
  pub at_least : float_ge v.confidence zero_float ≡ true
  pub at_most : float_ge one_float v.confidence ≡ true
  pub category : length v.category ≤ 120
  pub reason : length v.reason ≤ 500
  pub labels : AreLabels valid 3 v.labels

module _ (model : Text) (tools_used valid : List Text) where
  IsSound-read_answer :
      (a : Answer) (confidence : Option Float) (v : SpamallamVerdict)
      → elem (upper a.verdict) valid_verdicts ≡ true
      → read_answer model tools_used valid a confidence ≡ some v
      → IsSound valid v
  IsSound-read_answer a none v n e = cc
  IsSound-read_answer a (some c) v n e =
      let (low, high) = clamp_confidence_bounds c in
      let ok : AreLabels valid 2 [] = (omega arith, tt, tt) in
      let same : verdict_of model tools_used valid a c ≡ v = cc e in
      subst (IsSound valid) same (record {
        verdict = n;
        at_least = low;
        at_most = high;
        category = length-take-le 120 a.category;
        reason = length-take-le 500 a.reason;
        labels = AreLabels-take_labels valid [] (listed a.labels) ok;
      })

  IsSound-checked_answer :
      (o : Option Answer) (v : SpamallamVerdict)
      → checked_answer model tools_used valid o ≡ some v
      → IsSound valid v
  IsSound-checked_answer none v e = cc
  IsSound-checked_answer (some a) v e = elim (Bool-cases (elem (upper a.verdict) valid_verdicts)) [
    | inl f ↦ IsSound-read_answer a (float_field a.confidence) v f (simp f at e)
    | inr f ↦ cc (simp f at e)
  ]

  -- Whatever the model wrote, a verdict that is read is one of the four, its confidence lies
  -- between 0 and 1, its category and reason are short, and its labels are at most three, distinct
  -- and enabled by the admin.
  pub parse_verdict-IsSound :
      (find_answer : Text → Option Answer) (text : Text) (v : SpamallamVerdict)
      → parse_verdict find_answer text model tools_used valid ≡ some v
      → IsSound valid v
  unfolding parse_verdict
  parse_verdict-IsSound find_answer text v e = IsSound-checked_answer (find_answer text) v e
