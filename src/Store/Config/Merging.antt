-- ===== src/Store/Config/Merging.antt =====
-- The merge of saved settings over the defaults (spamallam/app/store/settings.py, `_deep_merge`).
use spamallam.Prelude.{
  ◌≡◌, refl, sym, ap, subst, ◌∙◌, inl, inr, Bool-cases, false, Option, none, some, Text, text_eq,
  text_eq_iff, text_eq_refl,
}
use spamallam.Store.Config.{
  Value, atom, dict, Fields, end, field, get_field, put_field, merge_value, deep_merge,
}

-- The keys of every mapping are distinct, as in a Python dict.
unfoldable mutual
  pub IsTree : {A : Type 0} → Value A → Type 0
  IsTree (atom a) = Unit
  IsTree (dict fs) = AreFields fs

  pub AreFields : {A : Type 0} → Fields A → Type 0
  AreFields end = Unit
  AreFields (field k v fs) = (get_field k fs ≡ none) × IsTree v × AreFields fs

module _ {A : Type 0} where
  pub get_field-put_field :
      (k : Text) (v : Value A) (fs : Fields A) → get_field k (put_field k v fs) ≡ some v
  unfolding get_field put_field
  get_field-put_field k v end = simp (text_eq_refl k)
  get_field-put_field k v (field l w fs) = elim (Bool-cases (text_eq k l)) [
    | inl e ↦ simp e
    | inr e ↦ simp (e, get_field-put_field k v fs)
  ]

  pub get_field-put_other :
      (other k : Text) (v : Value A) (fs : Fields A)
      → text_eq other k ≡ false
      → get_field other (put_field k v fs) ≡ get_field other fs
  unfolding get_field put_field
  get_field-put_other other k v end n = simp n
  get_field-put_other other k v (field l w fs) n = elim (Bool-cases (text_eq k l)) [
    | inl e ↦
        let same : k ≡ l = (text_eq_iff k l).0 e in
        let f : text_eq other l ≡ false = rw same at n in simp (e, f)
    | inr e ↦ simp (e, get_field-put_other other k v fs n)
  ]

  -- What a key has after the merge, by what it has in the two mappings.
  abbrev pub merged_field : Option (Value A) → Option (Value A) → Option (Value A)
  merged_field old none = old
  merged_field old (some v) = some (merge_value old v)

  -- A key of the merge has its saved value, merged with its default where both are mappings, or its
  -- default.
  pub get_field-deep_merge :
      (k : Text) (base fs : Fields A)
      → AreFields fs
      → get_field k (deep_merge base fs) ≡ merged_field (get_field k base) (get_field k fs)
  unfolding deep_merge AreFields get_field
  get_field-deep_merge k base end h = refl
  get_field-deep_merge k base (field l v fs) (n, t, h) =
      let w = merge_value (get_field l base) v in
      let rest = get_field-deep_merge k (put_field l w base) fs h in
      elim (Bool-cases (text_eq k l)) [
        | inl e ↦
            let same : k ≡ l = (text_eq_iff k l).0 e in
            let at_key : get_field l (deep_merge (put_field l w base) fs) ≡ some w =
              get_field-deep_merge l (put_field l w base) fs h
              ∙ ap (λ o. merged_field o (get_field l fs)) (get_field-put_field l w base)
              ∙ ap (merged_field (some w)) n in
            simp e (
              subst
                (λ x.
                  get_field x (deep_merge (put_field l w base) fs)
                  ≡ some (merge_value (get_field x base) v))
                (sym same) at_key)
        | inr e ↦
            simp e
              (rest ∙ ap (λ o. merged_field o (get_field k fs)) (get_field-put_other k l w base e))
      ]
