-- ===== src/Pipeline/Sanitize/Attributes.antt =====
-- What the attributes of a preview's tags may be (spamallam/app/pipeline/sanitize.py,
-- `_clean_attrs`).
use spamallam.Prelude.{
  ℕ, ◌≡◌, ◌≢◌, refl, subst, ◌⊎◌, inl, inr, Bool-cases, Bool, true, false, not, ◌&&◌, Option, none,
  some, List, [], ◌∷◌, map, ◌==◌, is_empty, elem, keep, all, All, All-append, All-keep, Text, codes,
  text_eq, text_eq_iff, join, strip, lower, starts_with, split_on, arith,
}
use spamallam.Pipeline.Sanitize.{
  html_escape_code, html_escape, found_in, style_is_bad_at, keeps_style, clean_style, is_remote,
  is_dangerous, is_data_image, blocked_img, bare_url, clean_url, Attr, AttrPart, bare, quoted,
  is_permitted, dropped_attr, url_part, kept_attr, is_dropped_attr, clean_named, clean_attr,
  clean_attrs,
}
use spamallam.Pipeline.Sanitize.Tables.{url_attrs, drop_attrs}

-- The character opens or closes no tag and, in a value, no quotation.
abbrev pub IsInert : Bool → ℕ → Type 0
IsInert quote c = (c ≢ 60) × (c ≢ 62) × (quote ≡ true → c ≢ 34)

abbrev is_inert : ℕ → Bool
is_inert c = not (c == 60) && not (c == 62) && not (c == 34)

IsInert-all : (quote : Bool) (s : Text) → all is_inert s ≡ true → All (IsInert quote) s
IsInert-all quote [] e = tt
IsInert-all quote (c ∷ s) e =
    ((ground arith, ground arith, λ q. ground arith), IsInert-all quote s (ground arith))

html_escape_code-IsInert : (quote : Bool) (c : ℕ) → All (IsInert quote) (html_escape_code quote c)
html_escape_code-IsInert quote c = elim (Bool-cases (c == 38)) [
  | inl e ↦ simp e (IsInert-all quote (codes "&amp;") refl)
  | inr e ↦ elim (Bool-cases (c == 60)) [
    | inl f ↦ simp (e, f) (IsInert-all quote (codes "&lt;") refl)
    | inr f ↦ elim (Bool-cases (c == 62)) [
      | inl g ↦ simp (e, f, g) (IsInert-all quote (codes "&gt;") refl)
      | inr g ↦ elim (Bool-cases (quote && c == 34)) [
        | inl h ↦ simp (e, f, g, h) (IsInert-all quote (codes "&quot;") refl)
        | inr h ↦ elim (Bool-cases (quote && c == 39)) [
          | inl i ↦ simp (e, f, g, h, i) (IsInert-all quote (codes "&#x27;") refl)
          | inr i ↦ simp (e, f, g, h, i) ((ground arith, ground arith, λ q. ground arith), tt)
        ]
      ]
    ]
  ]
]

pub html_escape-IsInert : (quote : Bool) (s : Text) → All (IsInert quote) (html_escape quote s)
unfolding html_escape
html_escape-IsInert quote [] = tt
html_escape-IsInert quote (c ∷ s) =
    All-append (IsInert quote) (html_escape_code quote c) (html_escape quote s)
      (html_escape_code-IsInert quote c) (html_escape-IsInert quote s)

-- The declarations that the value joins have none of the marks of a style that loads or runs.
abbrev pub IsSafeStyle : Text → Type 0
IsSafeStyle value =
    (kept : List Text) × (value ≡ join (codes "; ") (map strip kept))
    × All (λ d. found_in style_is_bad_at d ≡ false) kept

abbrev pub IsImageSource : Text → Text → Type 0
IsImageSource tag name = (text_eq tag (codes "img") && text_eq name (codes "src")) ≡ true

-- The URL has no dangerous scheme; an image shows data of the message itself or the blank image; no
-- other attribute than a link's `href` leads outside.
pub record IsSafeUrl (tag name value : Text) : Type 0 where
  pub scheme : is_dangerous value ≡ false
  pub source : IsImageSource tag name → (is_data_image value ≡ true) ⊎ (value ≡ blocked_img)
  pub remote :
      (is_data_image value ≡ true)
      ⊎ (value ≡ blocked_img)
      ⊎ (name ≡ codes "href")
      ⊎ (is_remote value ≡ false)

-- The name is on the lists of the tag, and is none of a handler or of the dropped ones.
pub record IsSafeName (tag name : Text) : Type 0 where
  pub permitted : is_permitted tag name ≡ true
  pub no_handler : starts_with (codes "on") name ≡ false
  pub not_dropped : elem name drop_attrs ≡ false

abbrev pub IsSafePart : Text → AttrPart → Type 0
IsSafePart tag (bare name) = IsSafeName tag name
IsSafePart tag (quoted name value) =
    ((name ≡ codes "style") × IsSafeStyle value)
    ⊎ (IsSafeName tag name × (elem name url_attrs ≡ true → IsSafeUrl tag name value))

keeps_style-found_in : (d : Text) → keeps_style d ≡ true → found_in style_is_bad_at d ≡ false
keeps_style-found_in d e = ground (arith, Bool-cases (found_in style_is_bad_at d))

IsSafeStyle-clean_style : (value : Text) → IsSafeStyle (clean_style value)
unfolding clean_style
IsSafeStyle-clean_style value = (
  keep keeps_style (split_on 59 value),
  refl,
  All-keep (λ d. found_in style_is_bad_at d ≡ false) keeps_style keeps_style-found_in
      (split_on 59 value),
)

blocked_img-is_dangerous : is_dangerous blocked_img ≡ false
unfolding is_dangerous
blocked_img-is_dangerous = refl

near :
    (name u : Text)
    → (is_remote u && not (text_eq name (codes "href"))) ≡ false
    → (name ≡ codes "href") ⊎ (is_remote u ≡ false)
near name u r = elim (Bool-cases (text_eq name (codes "href"))) [
  | inl e ↦ inl ((text_eq_iff name (codes "href")).0 e)
  | inr e ↦ inr (ground arith)
]

IsSafeUrl-clean_url :
    (tag name value v : Text) → clean_url tag name value ≡ some v → IsSafeUrl tag name v
unfolding clean_url
IsSafeUrl-clean_url tag name value v e =
    let u = bare_url value in
    elim (Bool-cases (is_dangerous u)) [
      | inl d ↦ cc (simp d at e)
      | inr d ↦ elim (Bool-cases (text_eq tag (codes "img") && text_eq name (codes "src"))) [
        | inl i ↦ elim (Bool-cases (is_data_image u)) [
          | inl k ↦
              let same : u ≡ v = cc (simp (d, i, k) at e) in
              subst (IsSafeUrl tag name) same
                (record { scheme = d; source = λ h. inl k; remote = inl k })
          | inr k ↦
              let same : blocked_img ≡ v = cc (simp (d, i, k) at e) in
              subst (IsSafeUrl tag name) same (record {
                scheme = blocked_img-is_dangerous;
                source = λ h. inr refl;
                remote = inr (inl refl);
              })
        ]
        | inr i ↦ elim (Bool-cases (starts_with (codes "cid:") (lower u))) [
          | inl k ↦ cc (simp (d, i, k) at e)
          | inr k ↦
              let far = is_remote u && not (text_eq name (codes "href")) in
              elim (Bool-cases far) [
                | inl r ↦ cc (simp (d, i, k, r) at e)
                | inr r ↦
                    let same : u ≡ v = cc (simp (d, i, k, r) at e) in
                    subst (IsSafeUrl tag name) same (record {
                      scheme = d;
                      source = λ h. cc (h, i);
                      remote = inr (inr (near name u r));
                    })
              ]
        ]
      ]
    ]

IsSafeName-kept :
    (tag name : Text)
    → is_dropped_attr name ≡ false
    → is_permitted tag name ≡ true
    → IsSafeName tag name
unfolding is_dropped_attr
IsSafeName-kept tag name e f = record {
  permitted = f;
  no_handler = ground arith;
  not_dropped = ground arith;
}

module _ (tag name : Text) where
  IsSafe-dropped_attr : (value : Option Text) → All (IsSafePart tag) (dropped_attr name value)
  IsSafe-dropped_attr none = tt
  IsSafe-dropped_attr (some value) =
      elim (Bool-cases (text_eq name (codes "style") && not (is_empty value))) [
        | inr e ↦ simp e tt
        | inl e ↦ elim (Bool-cases (is_empty (clean_style value))) [
          | inl f ↦ simp (e, f) tt
          | inr f ↦ simp (e, f) (inl (refl, IsSafeStyle-clean_style value), tt)
        ]
      ]

  IsSafe-url_part :
      (value : Text) (o : Option Text)
      → IsSafeName tag name
      → clean_url tag name value ≡ o
      → All (IsSafePart tag) (url_part name o)
  IsSafe-url_part value none n e = tt
  IsSafe-url_part value (some v) n e = (inr (n, λ h. IsSafeUrl-clean_url tag name value v e), tt)

  IsSafe-kept_attr :
      (value : Option Text) → IsSafeName tag name → All (IsSafePart tag) (kept_attr tag name value)
  IsSafe-kept_attr none n = (n, tt)
  IsSafe-kept_attr (some value) n = elim (Bool-cases (elem name url_attrs)) [
    | inl e ↦ simp e (IsSafe-url_part value (clean_url tag name value) n refl)
    | inr e ↦ simp e (inr (n, λ h. cc h), tt)
  ]

IsSafe-clean_named :
    (tag name : Text) (value : Option Text) → All (IsSafePart tag) (clean_named tag name value)
IsSafe-clean_named tag name value = elim (Bool-cases (is_dropped_attr name)) [
  | inl e ↦ simp e (IsSafe-dropped_attr tag name value)
  | inr e ↦ elim (Bool-cases (is_permitted tag name)) [
    | inr f ↦ simp (e, f) tt
    | inl f ↦ simp (e, f) (IsSafe-kept_attr tag name value (IsSafeName-kept tag name e f))
  ]
]

IsSafe-clean_attr : (tag : Text) (a : Attr) → All (IsSafePart tag) (clean_attr tag a)
IsSafe-clean_attr tag (name, value) = IsSafe-clean_named tag (lower name) value

-- Every attribute that is passed on is on the tag's lists, or a style without the marks of one that
-- loads or runs; none is a handler, and no URL has a dangerous scheme.
pub clean_attrs-IsSafePart :
    (tag : Text) (attrs : List Attr) → All (IsSafePart tag) (clean_attrs tag attrs)
unfolding clean_attrs
clean_attrs-IsSafePart tag [] = tt
clean_attrs-IsSafePart tag (a ∷ attrs) =
    All-append (IsSafePart tag) (clean_attr tag a) (clean_attrs tag attrs) (IsSafe-clean_attr tag a)
      (clean_attrs-IsSafePart tag attrs)
