-- ===== src/Pipeline/Analyzer/Printable.antt =====
-- When the result headers can be encoded (spamallam/app/pipeline/analyzer.py, step 7).
use spamallam.Prelude.{
  refl, inl, inr, Bool-cases, Bool, true, false, List, [], ◌∷◌, ◌++◌, map, All, All-append,
  if◌then◌else◌, is_empty, Text, codes, text_le, HasNoSurrogate, print_fixed2,
}
use spamallam.Pipeline.Headers.Verdict.{Header}
use spamallam.Pipeline.Headers.Encoding.{HasCleanHeaders}
use spamallam.Pipeline.Headers.Surrogates.{
  HasNoSurrogate-of_test, HasNoSurrogate-join, HasNoSurrogate-print_fixed2, HasNoSurrogate-if,
}
use spamallam.Pipeline.Rspamd.{
  Symbol, Symbols, RspamdResult, is_spam, insert_symbol, sort_symbols, symbol_part, symbol_score,
  spamd_result_header,
}
use spamallam.Pipeline.Run.{Failed}
use spamallam.Pipeline.Analyzer.Base.{Scored}
use spamallam.Pipeline.Analyzer.Verdict.{failed_name, failed_names, result_headers}

-- The names of the symbols can be encoded.
abbrev pub HasCleanNames : Symbols → Type 0
HasCleanNames = All (λ (s : Text × Symbol). HasNoSurrogate s.0)

HasCleanNames-insert_symbol :
    (s : Text × Symbol) (rest : Symbols)
    → HasNoSurrogate s.0
    → HasCleanNames rest
    → HasCleanNames (insert_symbol s rest)
HasCleanNames-insert_symbol (k, v) [] h l = (h, tt)
HasCleanNames-insert_symbol (k, v) ((j, w) ∷ rest) h (p, l) = elim (Bool-cases (text_le k j)) [
  | inl e ↦ simp e (h, (p, l))
  | inr e ↦ simp e (p, HasCleanNames-insert_symbol (k, v) rest h l)
]

HasCleanNames-sort_symbols : (ss : Symbols) → HasCleanNames ss → HasCleanNames (sort_symbols ss)
HasCleanNames-sort_symbols [] h = tt
HasCleanNames-sort_symbols (s ∷ rest) (p, h) =
    HasCleanNames-insert_symbol s (sort_symbols rest) p (HasCleanNames-sort_symbols rest h)

clean_symbol_parts : (ss : Symbols) → HasCleanNames ss → All HasNoSurrogate (map symbol_part ss)
clean_symbol_parts [] h = tt
clean_symbol_parts ((name, info) ∷ ss) (p, h) = (
  All-append _ (name ++ codes "(" ++ print_fixed2 (symbol_score info)) _
      (All-append _ (name ++ codes "(") _ (All-append _ name _ p (refl, tt))
        (HasNoSurrogate-print_fixed2 (symbol_score info)))
      (refl, tt),
  clean_symbol_parts ss h,
)

HasNoSurrogate-spamd_result_header :
    (r : RspamdResult) → HasCleanNames r.symbols → HasNoSurrogate (spamd_result_header r)
unfolding spamd_result_header
HasNoSurrogate-spamd_result_header r h =
    let flag : Text = if is_spam r then codes "True" else codes "False" in
    let first : Text =
      codes "default: "
      ++ flag
      ++ codes " ["
      ++ print_fixed2 r.score
      ++ codes " / "
      ++ print_fixed2 r.required_score
      ++ codes "]" in
    let clean_first : HasNoSurrogate first =
      All-append _
        (codes "default: "
          ++ flag
          ++ codes " ["
          ++ print_fixed2 r.score
          ++ codes " / "
          ++ print_fixed2 r.required_score)
        _
        (All-append _
          (codes "default: " ++ flag ++ codes " [" ++ print_fixed2 r.score ++ codes " / ") _
          (All-append _ (codes "default: " ++ flag ++ codes " [" ++ print_fixed2 r.score) _
            (All-append _ (codes "default: " ++ flag ++ codes " [") _
              (All-append _ (codes "default: " ++ flag) _
                (All-append _ (codes "default: ") _
                  (HasNoSurrogate-of_test (codes "default: ") refl)
                  (HasNoSurrogate-if (is_spam r) _ _ (HasNoSurrogate-of_test (codes "True") refl)
                    (HasNoSurrogate-of_test (codes "False") refl)))
                (HasNoSurrogate-of_test (codes " [") refl))
              (HasNoSurrogate-print_fixed2 r.score))
            (HasNoSurrogate-of_test (codes " / ") refl))
          (HasNoSurrogate-print_fixed2 r.required_score))
        (refl, tt) in
    HasNoSurrogate-join (codes "; ") (first ∷ map symbol_part (sort_symbols r.symbols))
      (HasNoSurrogate-of_test (codes "; ") refl)
      (
        clean_first,
        clean_symbol_parts (sort_symbols r.symbols) (HasCleanNames-sort_symbols r.symbols h),
      )

HasNoSurrogate-failed_name : (f : Failed) → HasNoSurrogate (failed_name f)
HasNoSurrogate-failed_name Failed.ai = HasNoSurrogate-of_test (codes "ai") refl
HasNoSurrogate-failed_name Failed.antivirus = HasNoSurrogate-of_test (codes "antivirus") refl
HasNoSurrogate-failed_name Failed.rspamd = HasNoSurrogate-of_test (codes "rspamd") refl

clean_failed_names : (fs : List Failed) → All HasNoSurrogate (map failed_name fs)
clean_failed_names [] = tt
clean_failed_names (f ∷ fs) = (HasNoSurrogate-failed_name f, clean_failed_names fs)

abbrev failure_headers : List Failed → List Header
failure_headers failed =
    if is_empty failed then [] else (codes "X-SpamAllam-Control-Failure", failed_names failed) ∷ []

HasCleanHeaders-failure_headers : (failed : List Failed) → HasCleanHeaders (failure_headers failed)
HasCleanHeaders-failure_headers [] = tt
HasCleanHeaders-failure_headers (f ∷ fs) = (
  (
    HasNoSurrogate-of_test (codes "X-SpamAllam-Control-Failure") refl,
    HasNoSurrogate-join (codes ", ") (map failed_name (f ∷ fs)) (refl, (refl, tt))
        (clean_failed_names (f ∷ fs)),
  ),
  tt,
)

HasCleanHeaders-if :
    (b : Bool) (hs gs : List Header)
    → HasCleanHeaders hs
    → HasCleanHeaders gs
    → HasCleanHeaders (if b then hs else gs)
HasCleanHeaders-if true hs gs h k = h
HasCleanHeaders-if false hs gs h k = k

-- The result headers can be encoded if the symbols' names can.
pub HasCleanHeaders-result_headers :
    (s : Scored) (failed : List Failed)
    → HasCleanNames s.rres.symbols
    → HasCleanHeaders (result_headers s failed)
unfolding result_headers
HasCleanHeaders-result_headers s failed h =
    let r = s.rres in
    let more = failure_headers failed in
    let clean_more = HasCleanHeaders-failure_headers failed in
    let yes : Text = if is_spam r then codes "Yes" else codes "No" in
    let clean_status : HasNoSurrogate (
        yes
        ++ codes ", score="
        ++ print_fixed2 r.score
        ++ codes " required="
        ++ print_fixed2 r.required_score) =
      All-append _ (yes ++ codes ", score=" ++ print_fixed2 r.score ++ codes " required=") _
        (All-append _ (yes ++ codes ", score=" ++ print_fixed2 r.score) _
          (All-append _ (yes ++ codes ", score=") _
            (All-append _ yes _
              (HasNoSurrogate-if (is_spam r) _ _ (HasNoSurrogate-of_test (codes "Yes") refl)
                (HasNoSurrogate-of_test (codes "No") refl))
              (HasNoSurrogate-of_test (codes ", score=") refl))
            (HasNoSurrogate-print_fixed2 r.score))
          (HasNoSurrogate-of_test (codes " required=") refl))
        (HasNoSurrogate-print_fixed2 r.required_score) in
    HasCleanHeaders-if r.ok _ _
      (
        (
          HasNoSurrogate-of_test (codes "X-Spamd-Result") refl,
          HasNoSurrogate-spamd_result_header r h,
        ),
        (
          (HasNoSurrogate-of_test (codes "X-Spam-Score") refl, HasNoSurrogate-print_fixed2 r.score),
          (
            (HasNoSurrogate-of_test (codes "X-Spam-Status") refl, clean_status),
            HasCleanHeaders-if (is_spam r) ((codes "X-Spam-Flag", codes "YES") ∷ more) more
                (
                  (
                    HasNoSurrogate-of_test (codes "X-Spam-Flag") refl,
                    HasNoSurrogate-of_test (codes "YES") refl,
                  ),
                  clean_more,
                )
                clean_more,
          ),
        ),
      )
      (
        (
          HasNoSurrogate-of_test (codes "X-SpamAllam-Rspamd") refl,
          HasNoSurrogate-of_test (codes "error") refl,
        ),
        clean_more,
      )
