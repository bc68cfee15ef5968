-- ===== src/Pipeline/Headers/Tests.antt =====
-- Runs of the header code on sample messages (spamallam/app/pipeline/headers.py).
use spamallam.Prelude.{◌≡◌, refl, [], ◌∷◌, ◌++◌, Bytes, codes}
use spamallam.Pipeline.Headers.Message.{
  split_message, split_lines, strip_block, scan, emit, find_sep, contains, emit_more, newline_style,
  is_spam_header, strip_spam_headers,
}
use spamallam.Pipeline.Headers.Verdict.{fold, join_lines}
use spamallam.Pipeline.Headers.Clean.{IsClean}
use spamallam.Pipeline.Headers.Strip.{strip-IsClean, strip_of_IsClean, strip-strip}

program : Unit {0}
unfolding strip_spam_headers strip_block split_message split_lines scan emit emit_more newline_style
    contains find_sep is_spam_header fold join_lines
program = tt

-- A spoofed header with its continuation line, a blank line, and the body.
abbrev spoofed : Bytes
spoofed =
    codes
      "X-Spam-Flag: NO\r\n folded\r\nTo: c\r\nx-spamallam-Verdict : HAM\r\n\r\nX-Spam: in the body\r\n"

abbrev plain : Bytes
plain = codes "To: c\n\nhi\n"

strip_test : strip_spam_headers spoofed ≡ (
  codes "To: c\r\n\r\nX-Spam: in the body\r\n",
  codes "X-Spam-Flag: NO" ∷ codes " folded" ∷ codes "x-spamallam-Verdict : HAM" ∷ [],
)
unfolding program
strip_test = refl

strip-IsClean_example :
    (block : Bytes) × ((strip_spam_headers spoofed).0 ≡ block ++ (split_message spoofed).1)
    × IsClean block
strip-IsClean_example = strip-IsClean spoofed

plain-IsClean : IsClean (split_message plain).0
unfolding program
plain-IsClean = (refl, (λ e. refl, (λ e. refl, (λ e. refl, (λ e. refl, (λ e. refl, tt))))))

strip_of_IsClean_example : strip_spam_headers plain ≡ (plain, [])
strip_of_IsClean_example = strip_of_IsClean plain plain-IsClean

strip-strip_example :
    strip_spam_headers (strip_spam_headers spoofed).0 ≡ ((strip_spam_headers spoofed).0, [])
strip-strip_example = strip-strip spoofed

fold_test : fold (codes " two\r\n\nlines\n") ≡ codes "two lines"
unfolding program
fold_test = refl
