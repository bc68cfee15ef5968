-- ===== src/Pipeline/Sanitize/Preview.antt =====
-- The preview of a message (spamallam/app/pipeline/sanitize.py, `sanitize_email` and
-- `preview_document`). The parser of messages, Unicode's word characters and the decoder are
-- arguments.
use spamallam.Prelude.{
  ℕ, Bool, true, false, not, ◌&&◌, ◌||◌, Option, none, some, List, [], ◌∷◌, ◌++◌, ◌==◌,
  if◌then◌else◌, Text, Bytes, codes, text_eq, is_some, drop, length,
}
use spamallam.Pipeline.Sanitize.{html_escape, starts_folded, skip_spaces, remote_tail}
use spamallam.Pipeline.Sanitize.Callbacks.{HtmlEvent, preformatted, sanitize_email_html}

-- A part of a message, as `walk()` meets it; the content is none where get_content raises or gives no
-- text.
pub record MimePart : Type 0 where
  pub is_multipart : Bool
  pub is_attachment : Bool
  pub content_type : Text
  pub content : Option Text

-- A message; a missing header is empty.
pub record Mail : Type 0 where
  pub subject : Text
  pub from : Text
  pub to : Text
  pub date : Text
  pub parts : List MimePart

-- The first text and the first HTML part so far.
abbrev pub Bodies : Type 0
Bodies = Option Text × Option Text

abbrev pub with_content : Text → Text → Bodies → Bodies
with_content kind content (plain, html) =
    if text_eq kind (codes "text/plain")
    then ((if is_some plain then plain else some content), html)
    else if text_eq kind (codes "text/html")
    then (plain, (if is_some html then html else some content))
    else (plain, html)

abbrev pub with_part : MimePart → Option Text → Bodies → Bodies
with_part part none bodies = bodies
with_part part (some content) bodies =
    if part.is_multipart || part.is_attachment
    then bodies
    else with_content part.content_type content bodies

-- _first_parts(msg)
unfoldable pub first_parts : List MimePart → Bodies → Bodies
first_parts [] bodies = bodies
first_parts (p ∷ parts) bodies = first_parts parts (with_part p p.content bodies)

abbrev pub is_quote : ℕ → Bool
is_quote c = c == 34 || c == 39

abbrev pub skip_quote : Text → Text
skip_quote [] = []
skip_quote (c ∷ s) = if is_quote c then s else c ∷ s

-- =\s*["']?\s*(?:https?:)?//
abbrev pub equals_remote : Text → Bool
equals_remote [] = false
equals_remote (c ∷ s) = c == 61 && remote_tail (skip_spaces (skip_quote (skip_spaces s)))

-- The name, then \s* and the remote value.
abbrev pub names_remote : Text → Text → Bool
names_remote name s = starts_folded name s && equals_remote (skip_spaces (drop (length name) s))

module _ (is_word : ℕ → Bool) where
  -- A match of the pattern at a boundary after the given character.
  abbrev pub at_boundary : ℕ → Text → Text → Bool
  at_boundary before name s = not (is_word before) && names_remote name s

  -- [^>]*\bsrc, then a remote value.
  unfoldable pub remote_src : ℕ → Text → Bool
  remote_src before [] = false
  remote_src before (c ∷ s) =
      at_boundary before (codes "src") (c ∷ s) || not (c == 62) && remote_src c s

  abbrev pub ends_word : Text → Bool
  ends_word [] = true
  ends_word (c ∷ s) = not (is_word c)

  -- <img\b, then a remote source; `g` is the character before.
  abbrev pub remote_img : Text → Bool
  remote_img s = starts_folded (codes "<img") s && ends_word (drop 4 s) && remote_src 103 (drop 4 s)

  -- _HAS_REMOTE_IMG_RE.search, after the given character; a line break stands before the start.
  unfoldable pub has_remote_from : ℕ → Text → Bool
  has_remote_from before [] = false
  has_remote_from before (c ∷ s) =
      remote_img (c ∷ s) || at_boundary before (codes "background") (c ∷ s) || has_remote_from c s

-- What a preview shows: the result of sanitize_email.
pub record Shown : Type 0 where
  pub subject : Text
  pub from : Text
  pub to : Text
  pub date : Text
  pub html : Text
  pub had_remote_images : Bool
  pub text_only : Bool

-- The library code that the preview calls.
pub record MailReader : Type 0 where
  -- message_from_bytes; `none` where it raises.
  pub read : Bytes → Option Mail
  pub decode : Bytes → Text
  pub parse_html : Text → Option (List HtmlEvent)
  pub is_word : ℕ → Bool

abbrev pub shown_as : Mail → Text → Bool → Bool → Shown
shown_as mail html had_remote text_only = record {
  subject = mail.subject;
  from = mail.from;
  to = mail.to;
  date = mail.date;
  html = html;
  had_remote_images = had_remote;
  text_only = text_only;
}

abbrev pub no_body : Text
no_body =
    codes "<p class=\"qtn-note\">This message has no text/plain or "
    ++ codes "text/html part (attachments/binary only).</p>"

module _ (reader : MailReader) where
  abbrev pub show_bodies : Mail → Bodies → Shown
  show_bodies mail (plain, some html) =
      shown_as mail (sanitize_email_html reader.parse_html html)
        (has_remote_from reader.is_word 10 html) false
  show_bodies mail (some plain, none) = shown_as mail (preformatted plain) false true
  show_bodies mail (none, none) = shown_as mail no_body false true

  abbrev pub show_mail : Bytes → Option Mail → Shown
  show_mail raw none = record {
    subject = codes "(unparseable message)";
    from = [];
    to = [];
    date = [];
    html = preformatted (reader.decode raw);
    had_remote_images = false;
    text_only = true;
  }
  show_mail raw (some mail) = show_bodies mail (first_parts mail.parts (none, none))

  -- sanitize_email(raw)
  unfoldable pub sanitize_email : Bytes → Shown
  sanitize_email raw = show_mail raw (reader.read raw)

-- The style sheet of the document, up to the header's rows.
abbrev pub document_head : Text
document_head =
    codes "<!doctype html>\n<html><head><meta charset=\"utf-8\">\n<style>\n"
    ++ codes "  body { font: 14px/1.5 -apple-system, Segoe UI, Roboto, Arial, sans-serif;\n"
    ++ codes "         margin: 0; padding: 16px; color: #111; background: #fff; }\n"
    ++ codes
        "  .qtn-hdr { border-bottom: 1px solid #ddd; margin-bottom: 12px; padding-bottom: 8px;\n"
    ++ codes "             font-size: 13px; color: #333; }\n"
    ++ codes
        "  .qtn-hdr b { display: inline-block; min-width: 64px; color: #666; font-weight: 600; }\n"
    ++ codes "  .qtn-note { background: #fff8e1; border: 1px solid #ffe082; color: #7b5e00;\n"
    ++ codes
        "             padding: 6px 10px; border-radius: 4px; font-size: 12px; margin: 8px 0; }\n"
    ++ codes "  .qtn-text { white-space: pre-wrap; word-break: break-word; font: inherit; }\n"
    ++ codes "  img { max-width: 100%; height: auto; }\n  table { max-width: 100%; }\n"
    ++ codes "</style></head>\n<body>\n  <div class=\"qtn-hdr\">\n"

abbrev pub row : Text → Text → Text
row label value =
    codes "    <div><b>"
    ++ (label ++ (codes "</b> " ++ (html_escape true value ++ codes "</div>\n")))

abbrev pub remote_note : Bool → Text
remote_note had_remote =
    if had_remote
    then codes "<p class=\"qtn-note\">Remote images and tracking pixels have been "
      ++ codes "blocked in this preview.</p>"
    else []

-- preview_document(raw)
unfoldable pub preview_document : MailReader → Bytes → Text
preview_document reader raw =
    let p = sanitize_email reader raw in
    let rows =
      row (codes "From") p.from
      ++ (row (codes "To") p.to
          ++ (row (codes "Date") p.date ++ row (codes "Subject") p.subject)) in
    document_head
    ++ (rows
        ++ (codes "  </div>\n  "
            ++ (remote_note p.had_remote_images
                ++ (codes "\n  " ++ (p.html ++ codes "\n</body></html>")))))
