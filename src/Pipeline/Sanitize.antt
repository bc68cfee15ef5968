-- ===== src/Pipeline/Sanitize.antt =====
-- The sanitizer of previews (spamallam/app/pipeline/sanitize.py): attributes, URLs and styles. The
-- children hold the tables, the callbacks of the parser, and the preview.
pub mod Tables
pub mod Callbacks
pub mod Preview
pub mod Attributes
pub mod Safety
mod Tests
use spamallam.Prelude.{
  ℕ, Bool, true, false, not, ◌&&◌, ◌||◌, Option, none, some, List, [], ◌∷◌, ◌++◌, map, leb, ◌==◌,
  if◌then◌else◌, any, keep, is_empty, elem, drop, length, Text, codes, text_eq, strip, strip_left,
  lower, join, starts_with, is_str_space, fold_case, split_on, Map, get,
}
use spamallam.Pipeline.Sanitize.Tables.{global_attrs, url_attrs, drop_attrs, tag_attrs}

-- html.escape of one character.
abbrev pub html_escape_code : Bool → ℕ → Text
html_escape_code quote c =
    if c == 38
    then codes "&amp;"
    else if c == 60
    then codes "&lt;"
    else if c == 62
    then codes "&gt;"
    else if quote && c == 34
    then codes "&quot;"
    else if quote && c == 39
    then codes "&#x27;"
    else c ∷ []

-- html.escape(s, quote=quote)
unfoldable pub html_escape : Bool → Text → Text
html_escape quote [] = []
html_escape quote (c ∷ s) = html_escape_code quote c ++ html_escape quote s

abbrev pub starts_folded : Text → Text → Bool
starts_folded p s = starts_with p (map fold_case s)

-- Whether the pattern matches somewhere.
unfoldable pub found_in : (Text → Bool) → Text → Bool
found_in p [] = p []
found_in p (c ∷ s) = p (c ∷ s) || found_in p s

abbrev pub skip_spaces : Text → Text
skip_spaces = strip_left is_str_space

-- name\s*\(
abbrev pub calls : Text → Text → Bool
calls name s = starts_folded name s && starts_with (codes "(") (skip_spaces (drop (length name) s))

-- _STYLE_BAD_RE, at one place.
abbrev pub style_is_bad_at : Text → Bool
style_is_bad_at s =
    calls (codes "url") s
    || calls (codes "image-set") s
    || calls (codes "cross-fade") s
    || calls (codes "expression") s
    || starts_folded (codes "@import") s
    || starts_folded (codes "javascript:") s
    || starts_with (codes "/*") s
    || starts_with (codes "\\") s

abbrev pub keeps_style : Text → Bool
keeps_style d = not (is_empty (strip d)) && not (found_in style_is_bad_at d)

-- _clean_style(value)
unfoldable pub clean_style : Text → Text
clean_style value = join (codes "; ") (map strip (keep keeps_style (split_on 59 value)))

-- (?:https?:)?//
abbrev pub remote_tail : Text → Bool
remote_tail s =
    starts_with (codes "//") s
    || starts_folded (codes "http://") s
    || starts_folded (codes "https://") s

-- _REMOTE_URL_RE.match(v)
abbrev pub is_remote : Text → Bool
is_remote v = remote_tail (skip_spaces v)

abbrev pub starts_any : List Text → Text → Bool
starts_any prefixes s = any (λ p. starts_folded p s) prefixes

abbrev pub dangerous_schemes : List Text
dangerous_schemes =
    codes "javascript:" ∷ codes "vbscript:" ∷ codes "data:text/html:" ∷ codes "file:" ∷ []

-- _DANGEROUS_SCHEME_RE.match(v)
unfoldable pub is_dangerous : Text → Bool
is_dangerous v = starts_any dangerous_schemes (skip_spaces v)

abbrev pub image_types : List Text
image_types =
    codes "data:image/png;"
    ∷ codes "data:image/gif;"
    ∷ codes "data:image/jpeg;"
    ∷ codes "data:image/jpg;"
    ∷ codes "data:image/webp;"
    ∷ codes "data:image/bmp;"
    ∷ codes "data:image/svg+xml;"
    ∷ []

-- _DATA_IMAGE_RE.match(v)
unfoldable pub is_data_image : Text → Bool
is_data_image v = starts_any image_types (skip_spaces v)

-- _BLOCKED_IMG
abbrev pub blocked_img : Text
blocked_img = codes "data:image/gif;base64,R0lGODlhAQABAIAAAAAAAP///yH5BAEAAAAALAAAAAABAAEAAAIBRAA7"

abbrev pub is_url_ctrl : ℕ → Bool
is_url_ctrl c = leb c 32 || c == 127

-- The URL as it is checked and passed on: without control characters.
abbrev pub bare_url : Text → Text
bare_url value = strip (keep (λ c. not (is_url_ctrl c)) value)

-- _clean_url(tag, attr, value)
unfoldable pub clean_url : Text → Text → Text → Option Text
clean_url tag attr value =
    let v = bare_url value in
    if is_dangerous v
    then none
    else if text_eq tag (codes "img") && text_eq attr (codes "src")
    then (if is_data_image v then some v else some blocked_img)
    else if starts_with (codes "cid:") (lower v)
    then none
    else if is_remote v && not (text_eq attr (codes "href"))
    then none
    else some v

-- An attribute with its value, `none` where it has none.
abbrev pub Attr : Type 0
Attr = Text × Option Text

-- A part of a tag: an attribute that is passed on.
pub data AttrPart : Type 0 where
  bare : Text → AttrPart
  -- The name, and the value before it is escaped.
  quoted : Text → Text → AttrPart

abbrev pub part_text : AttrPart → Text
part_text (bare name) = codes " " ++ name
part_text (quoted name value) =
    codes " " ++ (name ++ (codes "=\"" ++ (html_escape true value ++ codes "\"")))

abbrev pub or_no_attrs : Option (List Text) → List Text
or_no_attrs none = []
or_no_attrs (some names) = names

-- `lname not in allowed`
unfoldable pub is_permitted : Text → Text → Bool
is_permitted tag name = elem name (or_no_attrs (get tag tag_attrs)) || elem name global_attrs

abbrev pub style_part : Text → List AttrPart
style_part cleaned = if is_empty cleaned then [] else quoted (codes "style") cleaned ∷ []

abbrev pub dropped_attr : Text → Option Text → List AttrPart
dropped_attr name none = []
dropped_attr name (some value) =
    if text_eq name (codes "style") && not (is_empty value)
    then style_part (clean_style value)
    else []

abbrev pub url_part : Text → Option Text → List AttrPart
url_part name none = []
url_part name (some value) = quoted name value ∷ []

abbrev pub kept_attr : Text → Text → Option Text → List AttrPart
kept_attr tag name none = bare name ∷ []
kept_attr tag name (some value) =
    if elem name url_attrs then url_part name (clean_url tag name value) else quoted name value ∷ []

unfoldable pub is_dropped_attr : Text → Bool
is_dropped_attr name = starts_with (codes "on") name || elem name drop_attrs

abbrev pub clean_named : Text → Text → Option Text → List AttrPart
clean_named tag name value =
    if is_dropped_attr name
    then dropped_attr name value
    else if not (is_permitted tag name)
    then []
    else kept_attr tag name value

abbrev pub clean_attr : Text → Attr → List AttrPart
clean_attr tag (name, value) = clean_named tag (lower name) value

-- The parts that _clean_attrs(tag, attrs) joins.
unfoldable pub clean_attrs : Text → List Attr → List AttrPart
clean_attrs tag [] = []
clean_attrs tag (a ∷ attrs) = clean_attr tag a ++ clean_attrs tag attrs

unfoldable pub parts_text : List AttrPart → Text
parts_text [] = []
parts_text (p ∷ parts) = part_text p ++ parts_text parts
