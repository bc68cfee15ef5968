-- ===== src/Pipeline/Rspamd/Antivirus.antt =====
-- When an antivirus failure is reported (spamallam/app/pipeline/rspamd_client.py).
use spamallam.Prelude.{
  ◌≡◌, refl, ◌↔◌, false, none, List, [], ◌∷◌, All, Text, Option-cases, inl, inr,
}
use spamallam.Pipeline.Rspamd.{Symbols, lookup_symbol, antivirus_failure}

-- No failure is reported exactly when no failure symbol is present.
pub antivirus_failure_iff :
    (symbols : Symbols) (names : List Text)
    → ((antivirus_failure symbols names).0 ≡ false)
      ↔ All (λ name. lookup_symbol name symbols ≡ none) names
unfolding antivirus_failure
antivirus_failure_iff symbols [] = (λ e. tt, λ h. refl)
antivirus_failure_iff symbols (name ∷ names) =
    let (to, from) = antivirus_failure_iff symbols names in
    elim (Option-cases (lookup_symbol name symbols)) [
      | inl e ↦ rw e (λ f. (refl, to f), λ (_, h). from h)
      | inr (info, e) ↦ rw e (λ f. cc, λ (f, _). cc)
    ]
