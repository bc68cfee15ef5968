-- ===== src/Store/Audit/Tail.antt =====
-- What the audit page shows (spamallam/app/store/audit.py, `tail`).
use mathlib.Core.List.{reverse, reverse-append}
use spamallam.Prelude.{
  ℕ, zero, suc, ◌-◌, ◌≤◌, ◌≡◌, refl, ap, ◌∙◌, none, some, List, [], ◌∷◌, ◌++◌, length,
  length-append, drop, Text, arith,
}
use spamallam.Store.Audit.{AuditEntry, Lines, record_audit, last_lines, parsed_lines, tail_of, tail}

drop-append :
    {A : Type 0} (n : ℕ) (xs ys : List A) → n ≤ length xs → drop n (xs ++ ys) ≡ drop n xs ++ ys
drop-append zero xs ys h = refl
drop-append (suc n) [] ys h = elim h [ ]
drop-append (suc n) (x ∷ xs) ys h = drop-append n xs ys (omega arith)

module _ {A : Type 0} where
  parsed_lines-append_one :
      (lines : Lines A) (a : A) → parsed_lines (lines ++ some a ∷ []) ≡ parsed_lines lines ++ a ∷ []
  parsed_lines-append_one [] a = refl
  parsed_lines-append_one (none ∷ lines) a = parsed_lines-append_one lines a
  parsed_lines-append_one (some b ∷ lines) a = ap (λ r. b ∷ r) (parsed_lines-append_one lines a)

  last_lines-append_one :
      (n : ℕ) (lines : Lines A) (a : A)
      → last_lines (suc (suc n)) (lines ++ some a ∷ []) ≡ last_lines (suc n) lines ++ some a ∷ []
  last_lines-append_one n lines a =
      let e : length (lines ++ some a ∷ []) - suc (suc n) ≡ length lines - suc n =
        omega (arith, length-append lines (some a ∷ [])) in
      ap (λ k. drop k (lines ++ some a ∷ [])) e
      ∙ drop-append (length lines - suc n) lines (some a ∷ []) (omega arith)

  tail_of-append_one :
      (n : ℕ) (lines : Lines A) (a : A)
      → tail_of (suc (suc n)) (some (lines ++ some a ∷ [])) ≡ a ∷ tail_of (suc n) (some lines)
  tail_of-append_one n lines a =
      ap (λ l. reverse (parsed_lines l)) (last_lines-append_one n lines a)
      ∙ ap reverse (parsed_lines-append_one (last_lines (suc n) lines) a)
      ∙ reverse-append (parsed_lines (last_lines (suc n) lines)) (a ∷ [])

-- At a limit of two or more, what was recorded last comes first, redacted, and after it comes what
-- the log showed before at a limit one smaller.
pub tail-record_audit :
    {Json : Type 0} (redact : Json → Json) (n : ℕ) (ts actor action : Text) (detail : Json)
    (log : Lines (AuditEntry Json))
    → tail (suc (suc n)) (some (record_audit redact ts actor action detail log))
      ≡ record { ts = ts; actor = actor; action = action; detail = redact detail }
        ∷ tail (suc n) (some log)
unfolding tail record_audit
tail-record_audit redact n ts actor action detail log =
    tail_of-append_one n log
      (record { ts = ts; actor = actor; action = action; detail = redact detail })
