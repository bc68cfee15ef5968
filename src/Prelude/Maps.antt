-- ===== src/Prelude/Maps.antt =====
-- Python's dicts with text keys, in insertion order, and splitting of text.
use Prim.Native.Nat.{ℕ}
use mathlib.Core.Path.{◌≡◌, refl}
use mathlib.Core.Logic.{inl, inr}
use mathlib.Core.Bool.{false}
use mathlib.Core.Option.{Option, none, some}
use mathlib.Core.List.{List, [], ◌∷◌}
use spamallam.Prelude.Tests.{if◌then◌else◌, ◌==◌, Bool-cases}
use spamallam.Prelude.Lists.{is_empty}
use spamallam.Prelude.Strings.{Text, text_eq, text_eq_iff, text_eq_refl, is_str_space}

abbrev pub Map {ℓ} : Type ℓ → Type ℓ
Map A = List (Text × A)

module _ {ℓ} {A : Type ℓ} where
  -- d.get(key)
  unfoldable pub get : Text → Map A → Option A
  get key [] = none
  get key ((k, v) ∷ m) = let rest = get key m in if text_eq key k then some v else rest

  -- d[key] = value
  unfoldable pub put : Text → A → Map A → Map A
  put key value [] = (key, value) ∷ []
  put key value ((k, v) ∷ m) =
      let rest = put key value m in if text_eq key k then (k, value) ∷ m else (k, v) ∷ rest

  -- del d[key], where the key is present at most once
  unfoldable pub remove : Text → Map A → Map A
  remove key [] = []
  remove key ((k, v) ∷ m) = let rest = remove key m in if text_eq key k then rest else (k, v) ∷ rest

  pub get-put : (key : Text) (value : A) (m : Map A) → get key (put key value m) ≡ some value
  unfolding get put
  get-put key value [] = rw (text_eq_refl key)
  get-put key value ((k, v) ∷ m) = elim (Bool-cases (text_eq key k)) [
    | inl e ↦ simp e
    | inr e ↦ simp (e, get-put key value m)
  ]

  pub get-put_other :
      (other key : Text) (value : A) (m : Map A)
      → text_eq other key ≡ false
      → get other (put key value m) ≡ get other m
  unfolding get put
  get-put_other other key value [] n = rw n
  get-put_other other key value ((k, v) ∷ m) n = elim (Bool-cases (text_eq key k)) [
    | inl e ↦
        let same : key ≡ k = (text_eq_iff key k).0 e in
        let f : text_eq other k ≡ false = rw same at n in simp (e, f)
    | inr e ↦ simp (e, get-put_other other key value m n)
  ]

  pub get-remove : (key : Text) (m : Map A) → get key (remove key m) ≡ none
  unfolding get remove
  get-remove key [] = refl
  get-remove key ((k, v) ∷ m) = elim (Bool-cases (text_eq key k)) [
    | inl e ↦ simp (e, get-remove key m)
    | inr e ↦ simp (e, get-remove key m)
  ]

  pub get-remove_other :
      (other key : Text) (m : Map A)
      → text_eq other key ≡ false
      → get other (remove key m) ≡ get other m
  unfolding get remove
  get-remove_other other key [] n = refl
  get-remove_other other key ((k, v) ∷ m) n = elim (Bool-cases (text_eq key k)) [
    | inl e ↦
        let same : key ≡ k = (text_eq_iff key k).0 e in
        let f : text_eq other k ≡ false = rw same at n in
        simp (e, f, get-remove_other other key m n)
    | inr e ↦ simp (e, get-remove_other other key m n)
  ]

-- A word in front of others, unless it is empty.
abbrev pub word_then : Text × List Text → List Text
word_then (w, ws) = if is_empty w then ws else w ∷ ws

abbrev pub word_step : ℕ → Text × List Text → Text × List Text
word_step c (w, ws) = if is_str_space c then ([], word_then (w, ws)) else (c ∷ w, ws)

unfoldable pub words_from : Text → Text × List Text
words_from [] = ([], [])
words_from (c ∷ s) = word_step c (words_from s)

-- s.split()
abbrev pub words : Text → List Text
words s = word_then (words_from s)

abbrev pub push_text : ℕ → Option (Text × Text) → Option (Text × Text)
push_text c none = none
push_text c (some (a, b)) = some (c ∷ a, b)

-- s.partition(sep) for a separator of one code; `none` where it does not occur.
unfoldable pub partition : ℕ → Text → Option (Text × Text)
partition sep [] = none
partition sep (c ∷ s) =
    let rest = push_text c (partition sep s) in if c == sep then some ([], s) else rest

abbrev pub split_on_step : ℕ → ℕ → List Text → List Text
split_on_step sep c [] = (c ∷ []) ∷ []
split_on_step sep c (w ∷ ws) = if c == sep then [] ∷ w ∷ ws else (c ∷ w) ∷ ws

-- s.split(sep) for a separator of one code.
unfoldable pub split_on : ℕ → Text → List Text
split_on sep [] = [] ∷ []
split_on sep (c ∷ s) = split_on_step sep c (split_on sep s)

split_on_step-cons :
    (sep c : ℕ) (ws : List Text)
    → (w : Text) × (more : List Text) × (split_on_step sep c ws ≡ w ∷ more)
split_on_step-cons sep c [] = (c ∷ [], [], refl)
split_on_step-cons sep c (w ∷ ws) = elim (Bool-cases (c == sep)) [
  | inl e ↦ ([], w ∷ ws, simp e)
  | inr e ↦ (c ∷ w, ws, simp e)
]

-- A text splits into one part at least.
pub split_on-cons :
    (sep : ℕ) (s : Text) → (w : Text) × (more : List Text) × (split_on sep s ≡ w ∷ more)
unfolding split_on
split_on-cons sep [] = ([], [], refl)
split_on-cons sep (c ∷ s) = split_on_step-cons sep c (split_on sep s)
