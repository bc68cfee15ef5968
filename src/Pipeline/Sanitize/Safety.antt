-- ===== src/Pipeline/Sanitize/Safety.antt =====
-- What a preview may hold (spamallam/app/pipeline/sanitize.py, `sanitize_email_html`).
use spamallam.Prelude.{
  ◌≡◌, refl, ap, ◌∙◌, ◌⊎◌, inl, inr, Bool-cases, Bool, true, false, not, ◌&&◌, ◌||◌, Option, none,
  some, List, [], ◌∷◌, ◌++◌, is_empty, All, All-append, Text, codes, text_eq, text_eq_iff, lower,
  arith,
}
use spamallam.Pipeline.Sanitize.{
  Attr, AttrPart, bare, quoted, clean_attrs, html_escape, part_text, parts_text,
}
use spamallam.Pipeline.Sanitize.Attributes.{
  IsInert, html_escape-IsInert, IsSafePart, clean_attrs-IsSafePart,
}
use spamallam.Pipeline.Sanitize.Callbacks.{
  HtmlEvent, start_tag, start_end_tag, end_tag, text, entity_ref, char_ref, comment, declaration,
  Piece, opening, closing, shown, named_ref, numbered_ref, piece_text, drops_tree, drops_void,
  allows_tag, is_void, Sanitizer, emit_piece, handle_starttag, handle_startendtag, handle_endtag,
  handle, handle_all, pieces_text, new_sanitizer, preformatted, sanitized, sanitize_email_html,
}

-- Between its quotes, a value is printed without a quote and without the ends of a tag.
abbrev pub IsClosed : AttrPart → Type 0
IsClosed (bare name) = Unit
IsClosed (quoted name value) =
    (shown : Text) × (part_text (quoted name value)
      ≡ codes " " ++ (name ++ (codes "=\"" ++ (shown ++ codes "\""))))
    × All (IsInert true) shown

AreClosed : (parts : List AttrPart) → All IsClosed parts
AreClosed [] = tt
AreClosed (bare name ∷ parts) = (tt, AreClosed parts)
AreClosed (quoted name value ∷ parts) =
    ((html_escape true value, refl, html_escape-IsInert true value), AreClosed parts)

-- A tag is on the list with safe attributes only, and text opens no tag.
abbrev pub IsSafePiece : Piece → Type 0
IsSafePiece (opening tag parts slash) =
    (allows_tag tag ≡ true)
    × All (IsSafePart tag) parts
    × All IsClosed parts
    × ((end : Text) × ((end ≡ codes ">") ⊎ (end ≡ codes " />"))
        × (piece_text (opening tag parts slash) ≡ codes "<" ++ (tag ++ (parts_text parts ++ end))))
IsSafePiece (closing tag) =
    (allows_tag tag ≡ true) × (piece_text (closing tag) ≡ codes "</" ++ (tag ++ codes ">"))
IsSafePiece (shown content) = All (IsInert false) (piece_text (shown content))
IsSafePiece (named_ref name) = piece_text (named_ref name) ≡ codes "&" ++ (name ++ codes ";")
IsSafePiece (numbered_ref name) = piece_text (numbered_ref name) ≡ codes "&#" ++ (name ++ codes ";")

abbrev pub IsSafeOutput : Sanitizer → Type 0
IsSafeOutput z = All IsSafePiece z.out

tag_end :
    (tag : Text) (parts : List AttrPart) (slash : Bool)
    → (end : Text) × ((end ≡ codes ">") ⊎ (end ≡ codes " />"))
      × (piece_text (opening tag parts slash) ≡ codes "<" ++ (tag ++ (parts_text parts ++ end)))
tag_end tag parts true = (codes " />", inr refl, refl)
tag_end tag parts false = (codes ">", inl refl, refl)

IsSafeOutput-emit_piece :
    (p : Piece) (z : Sanitizer) → IsSafePiece p → IsSafeOutput z → IsSafeOutput (emit_piece p z)
IsSafeOutput-emit_piece p z s h = elim (Bool-cases (is_empty z.skip)) [
  | inl e ↦ simp e (All-append IsSafePiece z.out (p ∷ []) h (s, tt))
  | inr e ↦ simp e h
]

module _ (z : Sanitizer) (h : IsSafeOutput z) (tag : Text) where
  IsSafeOutput-opening :
      (attrs : List Attr) (slash : Bool)
      → allows_tag tag ≡ true
      → IsSafeOutput (emit_piece (opening tag (clean_attrs tag attrs) slash) z)
  IsSafeOutput-opening attrs slash e =
      IsSafeOutput-emit_piece (opening tag (clean_attrs tag attrs) slash) z
        (
          e,
          clean_attrs-IsSafePart tag attrs,
          AreClosed (clean_attrs tag attrs),
          tag_end tag (clean_attrs tag attrs) slash,
        )
        h

module _ (z : Sanitizer) (h : IsSafeOutput z) (given : Text) where
  IsSafeOutput-start : (attrs : List Attr) → IsSafeOutput (handle_starttag given attrs z)
  IsSafeOutput-start attrs =
      let tag = lower given in
      elim (Bool-cases (drops_tree tag)) [
        | inl e ↦ simp e h
        | inr e ↦ elim (Bool-cases (drops_void tag || not (is_empty z.skip))) [
          | inl f ↦ simp (e, f) h
          | inr f ↦ elim (Bool-cases (allows_tag tag)) [
            | inl g ↦ simp (e, f, g) (IsSafeOutput-opening z h tag attrs (is_void tag) g)
            | inr g ↦ simp (e, f, g) h
          ]
        ]
      ]

  IsSafeOutput-start_end : (attrs : List Attr) → IsSafeOutput (handle_startendtag given attrs z)
  IsSafeOutput-start_end attrs =
      let tag = lower given in
      elim (Bool-cases (drops_tree tag || drops_void tag || not (is_empty z.skip))) [
        | inl f ↦ simp f h
        | inr f ↦ elim (Bool-cases (allows_tag tag)) [
          | inl g ↦ simp (f, g) (IsSafeOutput-opening z h tag attrs true g)
          | inr g ↦ simp (f, g) h
        ]
      ]

  IsSafeOutput-end : IsSafeOutput (handle_endtag given z)
  IsSafeOutput-end =
      let tag = lower given in
      elim (Bool-cases (is_empty z.skip)) [
        | inr e ↦ simp e h
        | inl e ↦ elim (Bool-cases (allows_tag tag && not (is_void tag))) [
          | inl f ↦
              simp (e, f)
                (All-append IsSafePiece z.out (closing tag ∷ []) h ((ground arith, refl), tt))
          | inr f ↦ simp (e, f) h
        ]
      ]

IsSafeOutput-handle : (e : HtmlEvent) (z : Sanitizer) → IsSafeOutput z → IsSafeOutput (handle e z)
unfolding handle
IsSafeOutput-handle (start_tag tag attrs) z h = IsSafeOutput-start z h tag attrs
IsSafeOutput-handle (start_end_tag tag attrs) z h = IsSafeOutput-start_end z h tag attrs
IsSafeOutput-handle (end_tag tag) z h = IsSafeOutput-end z h tag
IsSafeOutput-handle (text content) z h =
    IsSafeOutput-emit_piece (shown content) z (html_escape-IsInert false content) h
IsSafeOutput-handle (entity_ref name) z h = IsSafeOutput-emit_piece (named_ref name) z refl h
IsSafeOutput-handle (char_ref name) z h = IsSafeOutput-emit_piece (numbered_ref name) z refl h
IsSafeOutput-handle (comment content) z h = h
IsSafeOutput-handle (declaration content) z h = h

-- Whatever the parser finds in a message, the sanitizer passes on only text without tags, references,
-- and listed tags whose attributes are safe.
pub handle_all-IsSafeOutput :
    (events : List HtmlEvent) (z : Sanitizer) → IsSafeOutput z → IsSafeOutput (handle_all events z)
unfolding handle_all
handle_all-IsSafeOutput [] z h = h
handle_all-IsSafeOutput (e ∷ events) z h =
    handle_all-IsSafeOutput events (handle e z) (IsSafeOutput-handle e z h)

-- The HTML is the text of safe pieces, or the whole markup, escaped, between the two tags of a `pre`.
abbrev pub IsSafeHtml : Text → Text → Type 0
IsSafeHtml markup html =
    ((pieces : List Piece) × (html ≡ pieces_text pieces) × All IsSafePiece pieces)
    ⊎ ((html ≡ preformatted markup) × All (IsInert true) (html_escape true markup))

IsSafeHtml-sanitized :
    (markup : Text) (o : Option (List HtmlEvent)) → IsSafeHtml markup (sanitized markup o)
IsSafeHtml-sanitized markup none = inr (refl, html_escape-IsInert true markup)
IsSafeHtml-sanitized markup (some events) =
    inl
      ((handle_all events new_sanitizer).out, refl, handle_all-IsSafeOutput events new_sanitizer tt)

-- Whatever the parser makes of the markup, the HTML of a preview is text that opens no tag, references,
-- and listed tags: their attributes are listed and no handlers, no URL has a scheme that the sanitizer
-- takes for dangerous, none but that of a link leads outside, and no value ends its quotes. Where the
-- parser raises, the HTML is the markup, escaped, in a `pre`.
pub sanitize_email_html-IsSafeHtml :
    (parse : Text → Option (List HtmlEvent)) (markup : Text)
    → IsSafeHtml markup (sanitize_email_html parse markup)
unfolding sanitize_email_html
sanitize_email_html-IsSafeHtml parse markup = IsSafeHtml-sanitized markup (parse markup)

-- An event that neither opens a dropped element nor closes the given one.
abbrev pub IsInside : Text → HtmlEvent → Type 0
IsInside tag (start_tag name attrs) = drops_tree (lower name) ≡ false
IsInside tag (end_tag name) = text_eq (lower name) tag ≡ false
IsInside tag e = Unit

module _ (tag : Text) (skip : List Text) (out : List Piece) where
  abbrev inside : Sanitizer
  inside = record { out = out; skip = tag ∷ skip }

  handle-inside : (e : HtmlEvent) → IsInside tag e → handle e inside ≡ inside
  unfolding handle
  handle-inside (start_tag name attrs) h = elim (Bool-cases (drops_void (lower name))) [
    | inl e ↦ simp (h, e)
    | inr e ↦ simp (h, e)
  ]
  handle-inside (start_end_tag name attrs) h = elim (Bool-cases (drops_tree (lower name))) [
    | inl d ↦ simp d
    | inr d ↦ elim (Bool-cases (drops_void (lower name))) [
      | inl e ↦ simp (d, e)
      | inr e ↦ simp (d, e)
    ]
  ]
  handle-inside (end_tag name) h = simp h
  handle-inside (text content) h = refl
  handle-inside (entity_ref name) h = refl
  handle-inside (char_ref name) h = refl
  handle-inside (comment content) h = refl
  handle-inside (declaration content) h = refl

  handle_all-inside :
      (events rest : List HtmlEvent)
      → All (IsInside tag) events
      → handle_all (events ++ rest) inside ≡ handle_all rest inside
  unfolding handle_all
  handle_all-inside [] rest h = refl
  handle_all-inside (e ∷ events) rest (i, h) =
      ap (handle_all (events ++ rest)) (handle-inside e i) ∙ handle_all-inside events rest h

-- An element of the dropped kinds leaves no trace, with all that is inside it, where it is closed and
-- no other such element is open in it.
pub dropped_element_lem :
    (name close : Text) (attrs : List Attr) (inner rest : List HtmlEvent) (z : Sanitizer)
    → drops_tree (lower name) ≡ true
    → lower close ≡ lower name
    → All (IsInside (lower name)) inner
    → handle_all (start_tag name attrs ∷ inner ++ end_tag close ∷ rest) z ≡ handle_all rest z
unfolding handle_all handle
dropped_element_lem name close attrs inner rest z d c h =
    let tag = lower name in
    let opened : handle (start_tag name attrs) z ≡ inside tag z.skip z.out = simp d in
    let closes : text_eq (lower close) tag ≡ true = (text_eq_iff (lower close) tag).1 c in
    let closed : handle (end_tag close) (inside tag z.skip z.out) ≡ z = simp closes in
    ap (handle_all (inner ++ end_tag close ∷ rest)) opened
    ∙ handle_all-inside tag z.skip z.out inner (end_tag close ∷ rest) h
    ∙ ap (handle_all rest) closed
