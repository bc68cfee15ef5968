-- ===== src/Store/Audit/Tests.antt =====
-- Runs of the audit log (spamallam/app/store/audit.py).
use spamallam.Prelude.{ℕ, ◌≡◌, refl, none, some, [], ◌∷◌}
use spamallam.Store.Audit.{tail, read_suggestions}

-- A limit of 0 shows everything.
tail_tests :
    (tail {A = ℕ} 0 (some (some 1 ∷ none ∷ some 3 ∷ [])) ≡ 3 ∷ 1 ∷ [])
    × (read_suggestions {A = ℕ} 1 (some (some 1 ∷ some 2 ∷ [])) ≡ 2 ∷ [])
unfolding tail read_suggestions
tail_tests = (refl, refl)
