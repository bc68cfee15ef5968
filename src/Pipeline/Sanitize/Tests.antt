-- ===== src/Pipeline/Sanitize/Tests.antt =====
-- Runs of the sanitizer of previews (spamallam/app/pipeline/sanitize.py).
use spamallam.Prelude.{
  ◌≡◌, refl, true, false, none, some, [], ◌∷◌, ◌++◌, codes, text_eq, get, split_on, List,
}
use spamallam.Pipeline.Sanitize.{
  html_escape, found_in, clean_style, is_dangerous, is_data_image, clean_url, clean_attrs,
  parts_text, is_permitted, is_dropped_attr,
}
use spamallam.Pipeline.Sanitize.Callbacks.{
  HtmlEvent, start_tag, end_tag, text, drops_tree, drops_void, allows_tag, is_void, handle,
  handle_all, pieces_text, new_sanitizer, sanitize_email_html,
}
use spamallam.Pipeline.Sanitize.Preview.{
  remote_src, has_remote_from, first_parts, sanitize_email, preview_document,
}
use spamallam.Pipeline.Sanitize.Safety.{
  IsSafeHtml, sanitize_email_html-IsSafeHtml, dropped_element_lem,
}

sanitizer : Unit {0}
unfolding text_eq get split_on html_escape found_in clean_style is_dangerous is_data_image clean_url
    clean_attrs parts_text is_permitted is_dropped_attr drops_tree drops_void allows_tag is_void
    handle handle_all pieces_text sanitize_email_html remote_src has_remote_from first_parts
    sanitize_email preview_document
sanitizer = tt

clean_url_test :
    (clean_url (codes "a") (codes "href") (codes "java\tscript:alert(1)") ≡ none)
    × (clean_url (codes "a") (codes "href") (codes " https://a.example/")
        ≡ some (codes "https://a.example/"))
    × (clean_url (codes "q") (codes "cite") (codes "//a.example/") ≡ none)
unfolding sanitizer
clean_url_test = (refl, refl, refl)

-- A link to a document in a `data:` URL passes: the pattern wants a colon after `text/html`.
data_link_test :
    clean_url (codes "a") (codes "href") (codes "data:text/html,<script>x</script>")
    ≡ some (codes "data:text/html,<script>x</script>")
unfolding sanitizer
data_link_test = refl

clean_style_test :
    clean_style (codes "color: red; background: URL (x);; width:1px")
    ≡ codes "color: red; width:1px"
unfolding sanitizer
clean_style_test = refl

abbrev hostile : List HtmlEvent
hostile =
    start_tag (codes "p")
      ((codes "onclick", some (codes "x()")) ∷ (codes "style", some (codes "color:\"red\"")) ∷ [])
    ∷ text (codes "a<b")
    ∷ start_tag (codes "script") []
    ∷ text (codes "evil()")
    ∷ end_tag (codes "SCRIPT")
    ∷ start_tag (codes "img") ((codes "src", some (codes "http://t.example/")) ∷ [])
    ∷ end_tag (codes "p")
    ∷ []

sanitize_test :
    (sanitize_email_html (λ m. some hostile) [])
    ≡ codes "<p style=\"color:&quot;red&quot;\">a&lt;b"
      ++ codes
          "<img src=\"data:image/gif;base64,R0lGODlhAQABAIAAAAAAAP///yH5BAEAAAAALAAAAAABAAEAAAIBRAA7\" />"
      ++ codes "</p>"
unfolding sanitizer
sanitize_test = refl

-- An `embed` has no end tag, and hides all that follows.
embed_test :
    sanitize_email_html (λ m. some (start_tag (codes "embed") [] ∷ text (codes "hidden") ∷ [])) []
    ≡ []
unfolding sanitizer
embed_test = refl

remote_test :
    (has_remote_from (λ c. true) 10 (codes "<img alt=1 src='http://a/'>") ≡ false)
    × (has_remote_from (λ c. false) 10 (codes "<IMG alt=1 src = 'http://a/'>") ≡ true)
    × (has_remote_from (λ c. false) 10 (codes "<td background=//a>") ≡ true)
    × (has_remote_from (λ c. false) 10 (codes "<img><p src=//a>") ≡ false)
unfolding sanitizer
remote_test = (refl, refl, refl, refl)

sanitize_email_html-IsSafeHtml_example :
    IsSafeHtml (codes "<p>") (sanitize_email_html (λ m. some hostile) (codes "<p>"))
sanitize_email_html-IsSafeHtml_example =
    sanitize_email_html-IsSafeHtml (λ m. some hostile) (codes "<p>")

dropped_element_lem_example :
    handle_all
      (start_tag (codes "Script") [] ∷ (text (codes "x") ∷ []) ++ end_tag (codes "SCRIPT") ∷ [])
      new_sanitizer
    ≡ handle_all [] new_sanitizer
unfolding drops_tree text_eq
dropped_element_lem_example =
    dropped_element_lem (codes "Script") (codes "SCRIPT") [] (text (codes "x") ∷ []) []
      new_sanitizer refl refl (tt, tt)
