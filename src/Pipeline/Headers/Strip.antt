-- ===== src/Pipeline/Headers/Strip.antt =====
-- Theorems on `strip_spam_headers` (spamallam/app/pipeline/headers.py).
use spamallam.Prelude.{
  ◌≡◌, refl, ap, ◌∙◌, inl, inr, Bool-cases, Bool, true, false, List, [], ◌∷◌, ◌++◌, All, Bytes,
  arith,
}
use spamallam.Pipeline.Headers.Message.{
  split_message, newline_style, Part, split_lines, is_spam_header, is_continuation, drops, scan,
  emit, strip_block, strip_spam_headers,
}
use spamallam.Pipeline.Headers.Lines.{split_message-append, IsPart, split_lines-IsSplit}
use spamallam.Pipeline.Headers.Boundary.{split_message-Within}
use spamallam.Pipeline.Headers.Pattern.{is_spam_header_of_continuation}
use spamallam.Pipeline.Headers.Clean.{
  IsClean, IsHonest, AreHonest, IsClean-emit_more, AreHonest-split_lines, IsClean-prefix,
}

IsHonest-of_drops : (skipping : Bool) (line : Bytes) → drops skipping line ≡ false → IsHonest line
IsHonest-of_drops skipping line e = elim (Bool-cases (is_continuation line)) [
  | inl c ↦ is_spam_header_of_continuation line c
  | inr c ↦ rw c at e
]

drops_of_IsHonest : (line : Bytes) → IsHonest line → drops false line ≡ false
drops_of_IsHonest line h = ground arith

AreHonest-scan : (skipping : Bool) (parts : List Part) → AreHonest (scan skipping parts).0
unfolding scan
AreHonest-scan skipping [] = tt
AreHonest-scan skipping ((sep, line) ∷ parts) = elim (Bool-cases (drops skipping line)) [
  | inl e ↦ rw e (AreHonest-scan true parts)
  | inr e ↦ rw e (IsHonest-of_drops skipping line e, AreHonest-scan false parts)
]

IsPart-scan :
    (skipping : Bool) (parts : List Part) → All IsPart parts → All IsPart (scan skipping parts).0
unfolding scan
IsPart-scan skipping [] h = tt
IsPart-scan skipping ((sep, line) ∷ parts) (p, h) = elim (Bool-cases (drops skipping line)) [
  | inl e ↦ rw e (IsPart-scan true parts h)
  | inr e ↦ rw e (p, IsPart-scan false parts h)
]

scan_of_AreHonest : (parts : List Part) → AreHonest parts → scan false parts ≡ (parts, [])
unfolding scan
scan_of_AreHonest [] h = refl
scan_of_AreHonest ((sep, line) ∷ parts) (p, h) =
    rw (drops_of_IsHonest line p, scan_of_AreHonest parts h)

IsClean-nil : IsClean []
unfolding is_spam_header
IsClean-nil = (refl, tt)

IsClean-emit :
    (newline : Bytes) (parts : List Part)
    → AreHonest parts
    → All IsPart parts
    → IsClean (emit newline parts)
unfolding emit
IsClean-emit newline [] h ok = IsClean-nil
IsClean-emit newline ((sep, line) ∷ parts) (p, h) ((_, n), ok) =
    IsClean-emit_more newline line parts n p ok h

-- The block that stripping leaves is clean.
IsClean-strip_block : (newline head : Bytes) → IsClean (strip_block newline head).0
unfolding strip_block
IsClean-strip_block newline head =
    let (first, parts) = split_lines head in
    let s = split_lines-IsSplit head in
    elim (Bool-cases (drops false first)) [
      | inl e ↦ rw e (
          IsClean-emit newline (scan true parts).0 (AreHonest-scan true parts)
            (IsPart-scan true parts s.other_lines))
      | inr e ↦ rw e (
          IsClean-emit_more newline first (scan false parts).0 s.first_line
            (IsHonest-of_drops false first e) (IsPart-scan false parts s.other_lines)
            (AreHonest-scan false parts))
    ]

-- A clean block is left alone.
strip_block_of_IsClean :
    (newline head : Bytes) → IsClean head → strip_block newline head ≡ (head, [])
unfolding strip_block
strip_block_of_IsClean newline head clean =
    let (p, h) = AreHonest-split_lines head clean in
    let s = split_lines-IsSplit head in
    rw (scan_of_AreHonest (([], (split_lines head).0) ∷ (split_lines head).1) (p, h))
      (ap (λ (r : Bytes). (r, [])) (s.joined newline))

-- Whatever the message, the result is a clean block and the rest of the message as it came: read
-- with LF as the end of a line, no line of the block is an X-SpamAllam-, X-Spam- or X-Spamd- header.
pub strip-IsClean :
    (raw : Bytes)
    → (block : Bytes) × ((strip_spam_headers raw).0 ≡ block ++ (split_message raw).1)
      × IsClean block
unfolding strip_spam_headers
strip-IsClean raw =
    let (head, rest) = split_message raw in
    let newline = newline_style head rest in
    ((strip_block newline head).0, refl, IsClean-strip_block newline head)

-- A message whose header block has no such line comes back byte for byte, with nothing removed.
pub strip_of_IsClean :
    (raw : Bytes) → IsClean (split_message raw).0 → strip_spam_headers raw ≡ (raw, [])
unfolding strip_spam_headers
strip_of_IsClean raw clean =
    let (head, rest) = split_message raw in
    ap (λ (p : Bytes × List Bytes). (p.0 ++ rest, p.1))
      (strip_block_of_IsClean (newline_style head rest) head clean)
    ∙ ap (λ (r : Bytes). (r, [])) (split_message-append raw)

-- A second pass finds nothing to remove, on any message, and changes nothing.
pub strip-strip :
    (raw : Bytes) → strip_spam_headers (strip_spam_headers raw).0 ≡ ((strip_spam_headers raw).0, [])
strip-strip raw =
    let (block, e, clean) = strip-IsClean raw in
    let (x, j) = split_message-Within raw block in
    rw e (strip_of_IsClean _ (IsClean-prefix _ x (rw j clean)))
