-- ===== src/Store/Quarantine/Retention.antt =====
-- What pruning removes (spamallam/app/store/quarantine.py, `prune`).
use spamallam.Prelude.{
  ℕ, ◌+◌, ◌≡◌, refl, ap, inl, inr, Bool-cases, true, false, Option, none, [], ◌∷◌, length, Text,
  text_eq, text_eq_iff, get, arith,
}
use spamallam.Store.Quarantine.{Days, is_before, prune}

-- The metadata files of all days.
abbrev pub entry_count : {Info : Type 0} → Days Info → ℕ
entry_count [] = 0
entry_count ((day, d) ∷ dirs) = length d.metas + entry_count dirs

module _ {Info : Type 0} (parse_day : Text → Option ℕ) (cutoff : ℕ) where
  -- A day before the cutoff is gone, every other day, and every directory that is no day, is as it
  -- was, and the count that is returned is that of the metadata files that went.
  pub prune_lem :
      (store : Days Info)
      → ((day : Text)
          → (is_before cutoff (parse_day day) ≡ true
              → get day (prune parse_day cutoff store).1 ≡ none)
            × (is_before cutoff (parse_day day) ≡ false
                → get day (prune parse_day cutoff store).1 ≡ get day store))
        × (entry_count store
            ≡ (prune parse_day cutoff store).0 + entry_count (prune parse_day cutoff store).1)
  unfolding prune get
  prune_lem [] = (λ day. (λ e. refl, λ e. refl), refl)
  prune_lem ((name, d) ∷ dirs) =
      let (days, count) = prune_lem dirs in
      elim (Bool-cases (is_before cutoff (parse_day name))) [
        | inl e ↦ (
          λ day. (
            λ f. simp e ((days day).0 f),
            λ f. elim (Bool-cases (text_eq day name)) [
              | inl g ↦
                  let same = (text_eq_iff day name).0 g in
                  cc (e, f, ap (λ x. is_before cutoff (parse_day x)) same)
              | inr g ↦ simp (e, g) ((days day).1 f)
            ],
          ),
          simp e (omega (arith, count)),
        )
        | inr e ↦ (
          λ day. (
            λ f. elim (Bool-cases (text_eq day name)) [
              | inl g ↦
                  let same = (text_eq_iff day name).0 g in
                  cc (e, f, ap (λ x. is_before cutoff (parse_day x)) same)
              | inr g ↦ simp (e, g) ((days day).0 f)
            ],
            λ f. elim (Bool-cases (text_eq day name)) [
              | inl g ↦ simp (e, g)
              | inr g ↦ simp (e, g) ((days day).1 f)
            ],
          ),
          simp e (omega (arith, count)),
        )
      ]
