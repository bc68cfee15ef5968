-- ===== src/Pipeline/Body.antt =====
-- When the body of a delivered message is rewritten (spamallam/app/pipeline/body.py). The MIME
-- rewriting itself is an argument: it parses and prints with the standard library's email package.
use spamallam.Prelude.{
  Bool, not, ◌&&◌, ◌||◌, is_empty, elem, map, Text, Bytes, codes, text_eq, upper,
}
use spamallam.Pipeline.Headers.Verdict.{SpamallamVerdict}
use spamallam.Pipeline.Rspamd.{RspamdResult, is_spam, is_reject}
use spamallam.Pipeline.Settings.{Marking, Classification, Settings}

-- _ai_wants_marking
unfoldable pub ai_wants_marking : SpamallamVerdict → Marking → Bool
ai_wants_marking v m = elem (upper v.verdict) (map upper m.trigger_verdicts)

-- _rspamd_wants_marking
unfoldable pub rspamd_wants_marking : RspamdResult → Marking → Bool
rspamd_wants_marking r m = m.trigger_on_rspamd_spam && r.ok && is_spam r && not (is_reject r)

-- _wants_marking
unfoldable pub wants_marking : SpamallamVerdict → RspamdResult → Marking → Bool
unfolding ai_wants_marking rspamd_wants_marking
wants_marking v r m = m.enabled && (ai_wants_marking v m || rspamd_wants_marking r m)

-- _wants_images_broken
unfoldable pub wants_images_broken : SpamallamVerdict → RspamdResult → Marking → Bool
unfolding wants_marking
wants_images_broken v r m =
    text_eq m.scope (codes "all_mail") || text_eq m.scope (codes "spam_only") && wants_marking v r m

-- _wants_classification_footer
unfoldable pub wants_classification_footer : Classification → Bool
wants_classification_footer c =
    c.enabled && (text_eq c.placement (codes "footer") || text_eq c.placement (codes "both"))

-- What the rewriting is to do: the banner, the images, the footer.
pub record Wanted : Type 0 where
  pub do_mark : Bool
  pub do_images : Bool
  pub do_footer : Bool

unfoldable pub wanted : SpamallamVerdict → RspamdResult → Settings → Wanted
unfolding wants_marking wants_images_broken wants_classification_footer
wanted v r cfg = record {
  do_mark = wants_marking v r cfg.marking;
  do_images = wants_images_broken v r cfg.marking;
  do_footer = wants_classification_footer cfg.classification && not (is_empty v.labels);
}

pub data Rewritten : Type 0 where
  rewritten : Bytes → Rewritten
  raised : Text → Rewritten

abbrev pub wants_any : Wanted → Bool
wants_any w = w.do_mark || w.do_images || w.do_footer

-- `_rewrite(raw, ...)`, and what it raises.
abbrev pub Rewriter : Type 0
Rewriter = Bytes → SpamallamVerdict → RspamdResult → Wanted → Rewritten
