-- ===== src/Store/Config/Writing.antt =====
-- What a write of the settings changes (spamallam/app/store/settings.py, `set`).
use spamallam.Prelude.{
  ◌≡◌, refl, sym, ap, subst, ◌∙◌, inl, inr, Bool-cases, Option, none, some, List, [], ◌∷◌, Text,
  text_eq, text_eq_sym,
}
use spamallam.Store.Config.{
  Value, atom, dict, Fields, end, field, get_field, put_field, merge_value, deep_merge, get_path,
  put_under, child_of, set_below, set_path,
}
use spamallam.Store.Config.Merging.{
  IsTree, AreFields, get_field-put_field, get_field-put_other, merged_field, get_field-deep_merge,
}

module _ {A : Type 0} where
  IsTree-get_field :
      (k : Text) (fs : Fields A) (v : Value A) → AreFields fs → get_field k fs ≡ some v → IsTree v
  unfolding AreFields get_field
  IsTree-get_field k end v h e = cc
  IsTree-get_field k (field l w fs) v (n, t, h) e = elim (Bool-cases (text_eq k l)) [
    | inl f ↦ let same : w ≡ v = cc (simp f at e) in subst IsTree same t
    | inr f ↦ IsTree-get_field k fs v h (simp f at e)
  ]

  AreFields-put_field :
      (k : Text) (v : Value A) (fs : Fields A)
      → IsTree v
      → AreFields fs
      → AreFields (put_field k v fs)
  unfolding AreFields put_field get_field
  AreFields-put_field k v end t h = (refl, t, tt)
  AreFields-put_field k v (field l w fs) t (n, u, h) = elim (Bool-cases (text_eq k l)) [
    | inl e ↦ simp e (n, t, h)
    | inr e ↦
        simp e
          (get_field-put_other l k v fs (text_eq_sym k l e) ∙ n, u, AreFields-put_field k v fs t h)
  ]

  put_under-some :
      (p : Text) (fs gs : Fields A) (o : Option (Fields A))
      → put_under p fs o ≡ some gs
      → (below : Fields A) × (o ≡ some below) × (put_field p (dict below) fs ≡ gs)
  put_under-some p fs gs none e = cc
  put_under-some p fs gs (some below) e = (below, refl, cc e)

  set_below-some :
      (deeper : Fields A → Option (Fields A)) (below : Fields A) (o : Option (Fields A))
      → set_below deeper o ≡ some below
      → (child : Fields A) × (o ≡ some child) × (deeper child ≡ some below)
  set_below-some deeper below none e = cc
  set_below-some deeper below (some child) e = (child, refl, e)

  -- `set_path` through one more part: the mapping below, and what it becomes.
  pub set_path-inner :
      (p q : Text) (ps : List Text) (v : Value A) (fs gs : Fields A)
      → set_path (p ∷ q ∷ ps) v fs ≡ some gs
      → (child : Fields A) × (below : Fields A) × (child_of (get_field p fs) ≡ some child)
        × (set_path (q ∷ ps) v child ≡ some below)
        × (put_field p (dict below) fs ≡ gs)
  unfolding set_path
  set_path-inner p q ps v fs gs e =
      let deeper = set_path (q ∷ ps) v in
      let (below, f, same) =
        put_under-some p fs gs (set_below deeper (child_of (get_field p fs))) e in
      let (child, g, h) = set_below-some deeper below (child_of (get_field p fs)) f in
      (child, below, g, h, same)

  pub AreFields-child :
      (p : Text) (fs child : Fields A) (o : Option (Value A))
      → AreFields fs
      → get_field p fs ≡ o
      → child_of o ≡ some child
      → AreFields child
  unfolding AreFields
  AreFields-child p fs child none h f e = let same : end ≡ child = cc e in subst AreFields same tt
  AreFields-child p fs child (some (atom a)) h f e = cc
  AreFields-child p fs child (some (dict cs)) h f e =
      let same : cs ≡ child = cc e in subst AreFields same (IsTree-get_field p fs (dict cs) h f)

  pub AreFields-set_path :
      (ps : List Text) (v : Value A) (fs gs : Fields A)
      → IsTree v
      → AreFields fs
      → set_path ps v fs ≡ some gs
      → AreFields gs
  unfolding set_path AreFields
  AreFields-set_path [] v fs gs t h e = let same : fs ≡ gs = cc e in subst AreFields same h
  AreFields-set_path (p ∷ []) v fs gs t h e =
      let same : put_field p v fs ≡ gs = cc e in
      subst AreFields same (AreFields-put_field p v fs t h)
  AreFields-set_path (p ∷ q ∷ ps) v fs gs t h e =
      let (child, below, f, g, same) = set_path-inner p q ps v fs gs e in
      let c = AreFields-child p fs child (get_field p fs) h refl f in
      let b = AreFields-set_path (q ∷ ps) v child below t c g in
      subst AreFields same (AreFields-put_field p (dict below) fs b h)

  -- A mapping shows another one over some defaults.
  abbrev pub IsView : (Text → Option (Value A)) → Fields A → Fields A → Type 0
  IsView old shown fs = (k : Text) → get_field k shown ≡ merged_field (old k) (get_field k fs)

  abbrev pub no_defaults : Text → Option (Value A)
  no_defaults k = none

  merged-none : (o : Option (Value A)) → o ≡ merged_field none o
  unfolding merge_value
  merged-none none = refl
  merged-none (some (atom a)) = refl
  merged-none (some (dict fs)) = refl

  pub IsView-self : (fs : Fields A) → IsView no_defaults fs fs
  IsView-self fs k = merged-none (get_field k fs)

  -- The defaults below a key, by the default of the key.
  abbrev pub child_defaults : Option (Value A) → Text → Option (Value A)
  child_defaults none k = none
  child_defaults (some (atom a)) k = none
  child_defaults (some (dict ds)) k = get_field k ds

  -- What a mapping under a key shows, merged with the default of the key.
  pub shown_child :
      (old : Option (Value A)) (fs : Fields A)
      → AreFields fs
      → (shown : Fields A) × (merge_value old (dict fs) ≡ dict shown)
        × IsView (child_defaults old) shown fs
  unfolding merge_value
  shown_child none fs h = (fs, refl, IsView-self fs)
  shown_child (some (atom a)) fs h = (fs, refl, IsView-self fs)
  shown_child (some (dict ds)) fs h = (deep_merge ds fs, refl, λ k. get_field-deep_merge k ds fs h)

  pub get_path-set_path :
      (old : Text → Option (Value A)) (p : Text) (ps : List Text) (a : A) (shown fs gs : Fields A)
      → AreFields fs
      → set_path (p ∷ ps) (atom a) fs ≡ some gs
      → IsView old shown gs
      → get_path (p ∷ ps) (some (dict shown)) ≡ some (atom a)
  unfolding set_path get_path merge_value AreFields
  get_path-set_path old p [] a shown fs gs h e v =
      let same : put_field p (atom a) fs ≡ gs = cc e in
      v p
      ∙ ap (λ m. merged_field (old p) (get_field p m)) (sym same)
      ∙ ap (merged_field (old p)) (get_field-put_field p (atom a) fs)
  get_path-set_path old p (q ∷ ps) a shown fs gs h e v =
      let (child, below, f, g, same) = set_path-inner p q ps (atom a) fs gs e in
      let c = AreFields-child p fs child (get_field p fs) h refl f in
      let b = AreFields-set_path (q ∷ ps) (atom a) child below tt c g in
      let (inner, i, w) = shown_child (old p) below b in
      let at_p : get_field p shown ≡ some (dict inner) =
        v p
        ∙ ap (λ m. merged_field (old p) (get_field p m)) (sym same)
        ∙ ap (merged_field (old p)) (get_field-put_field p (dict below) fs)
        ∙ ap some i in
      ap (get_path (q ∷ ps)) at_p
      ∙ get_path-set_path (child_defaults (old p)) q ps a inner child below c g w
