-- ===== src/Pipeline/Sanitize/Callbacks.antt =====
-- The callbacks of the HTML parser (spamallam/app/pipeline/sanitize.py, `_Sanitizer`), and the
-- sanitizer of a body. Python's HTMLParser is an argument: the events of a markup.
use spamallam.Prelude.{
  Bool, true, false, not, ◌&&◌, ◌||◌, Option, none, some, List, [], ◌∷◌, ◌++◌, if◌then◌else◌,
  is_empty, elem, Text, codes, text_eq, lower,
}
use spamallam.Pipeline.Sanitize.{Attr, AttrPart, clean_attrs, parts_text, html_escape}
use spamallam.Pipeline.Sanitize.Tables.{drop_tree, drop_void, allowed_tags, void_tags}

pub data HtmlEvent : Type 0 where
  start_tag start_end_tag : Text → List Attr → HtmlEvent
  end_tag text entity_ref char_ref comment declaration : Text → HtmlEvent

-- What is emitted.
pub data Piece : Type 0 where
  -- An opening tag with its parts, and whether it ends with a slash.
  opening : Text → List AttrPart → Bool → Piece
  closing : Text → Piece
  -- Text, before it is escaped.
  shown : Text → Piece
  named_ref numbered_ref : Text → Piece

abbrev pub piece_text : Piece → Text
piece_text (opening tag parts slash) =
    codes "<" ++ (tag ++ (parts_text parts ++ ((if slash then codes " /" else []) ++ codes ">")))
piece_text (closing tag) = codes "</" ++ (tag ++ codes ">")
piece_text (shown content) = html_escape false content
piece_text (named_ref name) = codes "&" ++ (name ++ codes ";")
piece_text (numbered_ref name) = codes "&#" ++ (name ++ codes ";")

-- The tests `tag in …` of the tables.
unfoldable pub drops_tree : Text → Bool
drops_tree tag = elem tag drop_tree

unfoldable pub drops_void : Text → Bool
drops_void tag = elem tag drop_void

unfoldable pub allows_tag : Text → Bool
allows_tag tag = elem tag allowed_tags

unfoldable pub is_void : Text → Bool
is_void tag = elem tag void_tags

-- The state of the sanitizer; the stack of open dropped tags has its top first.
pub record Sanitizer : Type 0 where
  pub out : List Piece
  pub skip : List Text

-- _emit(s)
abbrev pub emit_piece : Piece → Sanitizer → Sanitizer
emit_piece p z = if is_empty z.skip then record z { out = z.out ++ p ∷ [] } else z

abbrev pub pop_if : Text → List Text → List Text
pop_if tag [] = []
pop_if tag (top ∷ skip) = if text_eq tag top then skip else top ∷ skip

abbrev pub handle_starttag : Text → List Attr → Sanitizer → Sanitizer
handle_starttag given attrs z =
    let tag = lower given in
    if drops_tree tag
    then record z { skip = tag ∷ z.skip }
    else if drops_void tag || not (is_empty z.skip)
    then z
    else if not (allows_tag tag)
    then z
    else emit_piece (opening tag (clean_attrs tag attrs) (is_void tag)) z

abbrev pub handle_startendtag : Text → List Attr → Sanitizer → Sanitizer
handle_startendtag given attrs z =
    let tag = lower given in
    if drops_tree tag || drops_void tag || not (is_empty z.skip)
    then z
    else if not (allows_tag tag)
    then z
    else emit_piece (opening tag (clean_attrs tag attrs) true) z

abbrev pub handle_endtag : Text → Sanitizer → Sanitizer
handle_endtag given z =
    let tag = lower given in
    if not (is_empty z.skip)
    then record z { skip = pop_if tag z.skip }
    else if allows_tag tag && not (is_void tag)
    then emit_piece (closing tag) z
    else z

-- The callback of an event.
unfoldable pub handle : HtmlEvent → Sanitizer → Sanitizer
handle (start_tag tag attrs) z = handle_starttag tag attrs z
handle (start_end_tag tag attrs) z = handle_startendtag tag attrs z
handle (end_tag tag) z = handle_endtag tag z
handle (text content) z = emit_piece (shown content) z
handle (entity_ref name) z = emit_piece (named_ref name) z
handle (char_ref name) z = emit_piece (numbered_ref name) z
handle (comment content) z = z
handle (declaration content) z = z

unfoldable pub handle_all : List HtmlEvent → Sanitizer → Sanitizer
handle_all [] z = z
handle_all (e ∷ events) z = handle_all events (handle e z)

unfoldable pub pieces_text : List Piece → Text
pieces_text [] = []
pieces_text (p ∷ pieces) = piece_text p ++ pieces_text pieces

abbrev pub new_sanitizer : Sanitizer
new_sanitizer = record { out = []; skip = [] }

-- Text, escaped, in a `pre` of the preview's class.
abbrev pub preformatted : Text → Text
preformatted s = codes "<pre class=\"qtn-text\">" ++ (html_escape true s ++ codes "</pre>")

abbrev pub sanitized : Text → Option (List HtmlEvent) → Text
sanitized markup none = preformatted markup
sanitized markup (some events) = pieces_text (handle_all events new_sanitizer).out

-- sanitize_email_html(markup); the parser gives none where it raises.
unfoldable pub sanitize_email_html : (Text → Option (List HtmlEvent)) → Text → Text
sanitize_email_html parse markup = sanitized markup (parse markup)
