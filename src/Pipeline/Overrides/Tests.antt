-- ===== src/Pipeline/Overrides/Tests.antt =====
-- Runs of the override rules (spamallam/app/pipeline/overrides.py).
use spamallam.Prelude.{text_eq, List, ◌≡◌, refl, none, some, [], ◌∷◌, Text, codes}
use spamallam.Pipeline.Overrides.{clean_pattern, domain_matches}

abbrev patterns : List Text
patterns = codes " @" ∷ codes "@B.com" ∷ []

domain_matches_tests :
    (domain_matches (codes "x.b.com") patterns ≡ some (codes "b.com"))
    × (domain_matches (codes "xb.com") patterns ≡ none)
unfolding domain_matches clean_pattern text_eq
domain_matches_tests = (refl, refl)
