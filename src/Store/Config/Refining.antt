-- ===== src/Store/Config/Refining.antt =====
-- The settings store as a map from dotted paths to values (spamallam/app/store/settings.py).
use spamallam.Prelude.{
  ◌≡◌, refl, sym, ap, subst, ◌∙◌, ◌⊎◌, inl, inr, Bool-cases, Bool, true, false, Option, none, some,
  List, [], ◌∷◌, Text, text_eq, split_on, split_on-cons, or_else,
}
use spamallam.Store.Config.{
  Value, atom, dict, Fields, end, Atoms, SetError, Outcome, raised, returned, get_field, put_field,
  merge_value, deep_merge, get_path, child_of, set_path, saved_fields, merged_all, all_settings,
  get_in, get_setting, store_fields, set_checked, set_saved, set_setting,
}
use spamallam.Store.Config.Merging.{
  IsTree, AreFields, get_field-put_field, get_field-put_other, merged_field, get_field-deep_merge,
}
use spamallam.Store.Config.Writing.{
  set_path-inner, AreFields-child, AreFields-set_path, IsView, child_defaults, shown_child,
  get_path-set_path,
}

-- The paths part before either of them ends.
abbrev pub Diverge : List Text → List Text → Type 0
Diverge [] qs = ⊥
Diverge (p ∷ ps) [] = ⊥
Diverge (p ∷ ps) (q ∷ qs) = (text_eq q p ≡ false) ⊎ ((q ≡ p) × Diverge ps qs)

module _ {A : Type 0} where
  get_path-none : (ps : List Text) → get_path {A = A} ps none ≡ none
  unfolding get_path
  get_path-none [] = refl
  get_path-none (p ∷ ps) = refl

  -- A path that starts in no mapping reads as one that starts in the empty mapping.
  get_path-end : (q : Text) (qs : List Text) → get_path {A = A} (q ∷ qs) (some (dict end)) ≡ none
  unfolding get_path get_field
  get_path-end q qs = get_path-none qs

  IsView-end : (fs : Fields A) → IsView (child_defaults (some (dict fs))) fs end
  unfolding get_field
  IsView-end fs k = refl

  shown_default :
      (old : Option (Value A)) (q : Text) (qs : List Text)
      → (shown : Fields A) × IsView (child_defaults old) shown end
        × (get_path (q ∷ qs) old ≡ get_path (q ∷ qs) (some (dict shown)))
  unfolding get_path get_field
  shown_default none q qs = (end, λ k. refl, sym (get_path-none qs))
  shown_default (some (atom a)) q qs = (end, λ k. refl, sym (get_path-none qs))
  shown_default (some (dict ds)) q qs = (ds, IsView-end ds, refl)

  -- What a key shows before a write below it, over the mapping that the write starts from.
  shown_before :
      (old o : Option (Value A)) (child : Fields A) (q : Text) (qs : List Text)
      → child_of o ≡ some child
      → AreFields child
      → (shown : Fields A) × IsView (child_defaults old) shown child
        × (get_path (q ∷ qs) (merged_field old o) ≡ get_path (q ∷ qs) (some (dict shown)))
  shown_before old (some (atom a)) child q qs e h = cc
  shown_before old (some (dict cs)) child q qs e h =
      let same : child ≡ cs = cc e in
      let (shown, m, v) = shown_child old child h in
      (
        shown,
        v,
        ap (λ c. get_path (q ∷ qs) (some (merge_value old (dict c)))) (sym same)
            ∙ ap (λ w. get_path (q ∷ qs) (some w)) m,
      )
  shown_before old none child q qs e h =
      let same : end ≡ child = cc e in
      subst
        (λ c.
          (shown : Fields A) × IsView (child_defaults old) shown c
          × (get_path (q ∷ qs) old ≡ get_path (q ∷ qs) (some (dict shown))))
        same (shown_default old q qs)

  -- A key that the write does not touch shows the same.
  shown_same :
      (old : Text → Option (Value A)) (p q : Text) (v : Value A) (before after fs gs : Fields A)
      → text_eq q p ≡ false
      → put_field p v fs ≡ gs
      → IsView old before fs
      → IsView old after gs
      → get_field q after ≡ get_field q before
  shown_same old p q v before after fs gs n same b a =
      a q
      ∙ ap (λ m. merged_field (old q) (get_field q m)) (sym same)
      ∙ ap (merged_field (old q)) (get_field-put_other q p v fs n)
      ∙ sym (b q)

  get_path-set_other :
      (old : Text → Option (Value A)) (ps qs : List Text) (v : Value A)
      (before after fs gs : Fields A)
      → IsTree v
      → AreFields fs
      → set_path ps v fs ≡ some gs
      → Diverge ps qs
      → IsView old before fs
      → IsView old after gs
      → get_path qs (some (dict after)) ≡ get_path qs (some (dict before))
  unfolding set_path get_path
  get_path-set_other old [] qs v before after fs gs t h e d b a = elim d [ ]
  get_path-set_other old (p ∷ ps) [] v before after fs gs t h e d b a = elim d [ ]
  get_path-set_other old (p ∷ []) (q ∷ qs) v before after fs gs t h e (inr (same, d)) b a =
      elim d [ ]
  get_path-set_other old (p ∷ r ∷ ps) (q ∷ []) v before after fs gs t h e (inr (same, d)) b a =
      elim d [ ]
  get_path-set_other old (p ∷ []) (q ∷ qs) v before after fs gs t h e (inl n) b a =
      ap (get_path qs) (shown_same old p q v before after fs gs n (cc e) b a)
  get_path-set_other old (p ∷ r ∷ ps) (q ∷ qs) v before after fs gs t h e (inl n) b a =
      let (child, below, f, g, same) = set_path-inner p r ps v fs gs e in
      ap (get_path qs) (shown_same old p q (dict below) before after fs gs n same b a)
  get_path-set_other old (p ∷ r ∷ ps) (q ∷ s ∷ qs) v before after fs gs t h e (inr (k, d)) b a =
      let (child, below, f, g, same) = set_path-inner p r ps v fs gs e in
      let c = AreFields-child p fs child (get_field p fs) h refl f in
      let (inner, m, w) =
        shown_child (old p) below (AreFields-set_path (r ∷ ps) v child below t c g) in
      let (first, u, x) = shown_before (old p) (get_field p fs) child s qs f c in
      let at_p : get_field p after ≡ some (dict inner) =
        a p
        ∙ ap (λ n. merged_field (old p) (get_field p n)) (sym same)
        ∙ ap (merged_field (old p)) (get_field-put_field p (dict below) fs)
        ∙ ap some m in
      ap (λ n. get_path (s ∷ qs) (get_field n after)) k
      ∙ ap (get_path (s ∷ qs)) at_p
      ∙ get_path-set_other (child_defaults (old p)) (r ∷ ps) (s ∷ qs) v first inner child below t c
          g d u w
      ∙ sym x
      ∙ ap (get_path (s ∷ qs)) (sym (b p))
      ∙ ap (λ n. get_path (s ∷ qs) (get_field n before)) (sym k)

module _ {A : Type 0} (atoms : Atoms A) (defaults : Fields A) where
  -- The file is as YAML loads it.
  abbrev pub IsStored : Option (Value A) → Type 0
  IsStored none = Unit
  IsStored (some v) = IsTree v

  -- A write raises and leaves the file, or it gives the old value and the new one; then its path
  -- reads as the new value, and every path that parts from it reads as before.
  abbrev pub IsWrite :
      Text → A → Option (Value A) → Outcome (Value A × Value A) × Option (Value A) → Type 0
  IsWrite dotted a file (result, after) =
      ((e : SetError) × (result ≡ raised e) × (after ≡ file))
      ⊎ ((old : Value A) × (result ≡ returned (old, atom a))
          × (get_setting atoms defaults dotted (atom atoms.null) file ≡ returned old)
          × ((d : Value A) → get_setting atoms defaults dotted d after ≡ returned (atom a))
          × ((other : Text) (d : Value A)
              → Diverge (split_on 46 dotted) (split_on 46 other)
              → get_setting atoms defaults other d after ≡ get_setting atoms defaults other d file)
          × IsStored after)

  AreFields-saved :
      (file : Option (Value A)) (fs : Fields A)
      → IsStored file
      → saved_fields atoms defaults file ≡ some fs
      → AreFields fs
  unfolding AreFields
  AreFields-saved none fs h e = let same : end ≡ fs = cc e in subst AreFields same tt
  AreFields-saved (some (dict gs)) fs h e = let same : gs ≡ fs = cc e in subst AreFields same h
  AreFields-saved (some (atom a)) fs h e = elim (Bool-cases (atoms.is_true a)) [
    | inl f ↦ cc (simp f at e)
    | inr f ↦ let same : end ≡ fs = cc (simp f at e) in subst AreFields same tt
  ]

  module _ (dotted : Text) (a : A) (file : Option (Value A)) (fs gs : Fields A)
      (s : saved_fields atoms defaults file ≡ some fs) (h : AreFields fs)
      (e : set_path (split_on 46 dotted) (atom a) fs ≡ some gs) where
    AreFields-after : AreFields gs
    unfolding IsTree
    AreFields-after = AreFields-set_path (split_on 46 dotted) (atom a) fs gs tt h e

    IsView-merged :
        (ms : Fields A)
        → AreFields ms
        → IsView (λ k. get_field k defaults) (deep_merge defaults ms) ms
    IsView-merged ms g k = get_field-deep_merge k defaults ms g

    path_written :
        (ps : List Text)
        → ((p : Text) × (more : List Text) × (ps ≡ p ∷ more))
        → set_path ps (atom a) fs ≡ some gs
        → get_path ps (some (dict (deep_merge defaults gs))) ≡ some (atom a)
    path_written [] (p, more, x) w = cc
    path_written (p ∷ ps) n w =
        get_path-set_path (λ k. get_field k defaults) p ps a (deep_merge defaults gs) fs gs h w
          (IsView-merged gs AreFields-after)

    get-written :
        (d : Value A) → get_setting atoms defaults dotted d (some (dict gs)) ≡ returned (atom a)
    unfolding get_setting all_settings
    get-written d =
        ap (λ o. returned (or_else o d))
          (path_written (split_on 46 dotted) (split_on-cons 46 dotted) e)

    get-other :
        (other : Text) (d : Value A)
        → Diverge (split_on 46 dotted) (split_on 46 other)
        → get_setting atoms defaults other d (some (dict gs))
          ≡ get_setting atoms defaults other d file
    unfolding get_setting all_settings IsTree
    get-other other d p =
        ap (λ o. returned (or_else o d))
          (get_path-set_other (λ k. get_field k defaults) (split_on 46 dotted) (split_on 46 other)
            (atom a) (deep_merge defaults fs) (deep_merge defaults gs) fs gs tt h e p
            (IsView-merged fs h) (IsView-merged gs AreFields-after))
        ∙ ap (λ o. get_in atoms defaults other d (merged_all atoms defaults o)) (sym s)

    IsWrite-store_fields :
        (can_write : Bool) (r : Outcome (Value A))
        → get_setting atoms defaults dotted (atom atoms.null) file ≡ r
        → IsWrite dotted a file (store_fields atoms defaults can_write (atom a) file r gs)
    unfolding IsTree
    IsWrite-store_fields can_write (raised x) q = inl (x, refl, refl)
    IsWrite-store_fields false (returned old) q = inl (_, refl, refl)
    IsWrite-store_fields true (returned old) q =
        inr (old, refl, q, get-written, get-other, AreFields-after)

  IsWrite-set_checked :
      (can_write : Bool) (dotted : Text) (a : A) (file : Option (Value A)) (fs : Fields A)
      (o : Option (Fields A))
      → saved_fields atoms defaults file ≡ some fs
      → AreFields fs
      → set_path (split_on 46 dotted) (atom a) fs ≡ o
      → IsWrite dotted a file (set_checked atoms defaults can_write dotted (atom a) file o)
  IsWrite-set_checked can_write dotted a file fs none s h e = inl (_, refl, refl)
  IsWrite-set_checked can_write dotted a file fs (some gs) s h e =
      IsWrite-store_fields dotted a file fs gs s h e can_write
        (get_setting atoms defaults dotted (atom atoms.null) file) refl

  IsWrite-set_saved :
      (can_write : Bool) (dotted : Text) (a : A) (file : Option (Value A)) (o : Option (Fields A))
      → IsStored file
      → saved_fields atoms defaults file ≡ o
      → IsWrite dotted a file (set_saved atoms defaults can_write dotted (atom a) file o)
  IsWrite-set_saved can_write dotted a file none h s = inl (_, refl, refl)
  IsWrite-set_saved can_write dotted a file (some fs) h s =
      IsWrite-set_checked can_write dotted a file fs (set_path (split_on 46 dotted) (atom a) fs) s
        (AreFields-saved file fs h s) refl

  -- A setting that is no mapping is written as in a map from paths: if `set` raises, the file stays;
  -- otherwise it gives the value that `get` gave, `get` gives the new value then, and nothing changes
  -- at a path that parts from the written one, the defaults included.
  pub set_setting-IsWrite :
      (can_write : Bool) (dotted : Text) (a : A) (file : Option (Value A))
      → IsStored file
      → IsWrite dotted a file (set_setting atoms defaults can_write dotted (atom a) file)
  unfolding set_setting
  set_setting-IsWrite can_write dotted a file h =
      IsWrite-set_saved can_write dotted a file (saved_fields atoms defaults file) h refl
