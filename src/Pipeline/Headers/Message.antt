-- ===== src/Pipeline/Headers/Message.antt =====
-- Header blocks as raw bytes (spamallam/app/pipeline/headers.py): splitting a message, the line
-- splitter, the pattern for spoofed headers, and the loop that strips them.
use spamallam.Prelude.{
  ℕ, Bool, true, false, ◌&&◌, ◌||◌, Option, none, some, List, [], ◌∷◌, ◌++◌, leb, ◌==◌,
  if◌then◌else◌, is_empty, Bytes, codes, starts_with, lower_code, is_space,
}

abbrev pub lf : Bytes
lf = 10 ∷ []

abbrev pub crlf : Bytes
crlf = 13 ∷ 10 ∷ []

abbrev pub push_front : ℕ → Option (Bytes × Bytes) → Option (Bytes × Bytes)
push_front c none = none
push_front c (some (a, b)) = some (c ∷ a, b)

-- `raw[:idx], raw[idx:]` at `idx = raw.find(sep)`; `none` is -1.
unfoldable pub find_sep : Bytes → Bytes → Option (Bytes × Bytes)
find_sep sep [] = if starts_with sep [] then some ([], []) else none
find_sep sep (c ∷ s) =
    if starts_with sep (c ∷ s) then some ([], c ∷ s) else push_front c (find_sep sep s)

abbrev pub or_bare : Bytes → Option (Bytes × Bytes) → Bytes × Bytes
or_bare raw none = (raw, [])
or_bare raw (some cut) = cut

abbrev pub or_lf : Bytes → Option (Bytes × Bytes) → Bytes × Bytes
or_lf raw none = or_bare raw (find_sep (lf ++ lf) raw)
or_lf raw (some cut) = cut

-- split_message(raw)
unfoldable pub split_message : Bytes → Bytes × Bytes
unfolding find_sep
split_message raw = or_lf raw (find_sep (crlf ++ crlf) raw)

-- `sub in s` for bytes.
unfoldable pub contains : Bytes → Bytes → Bool
contains sub [] = starts_with sub []
contains sub (c ∷ s) = starts_with sub (c ∷ s) || contains sub s

unfoldable pub newline_style : Bytes → Bytes → Bytes
unfolding contains
newline_style head rest = if starts_with crlf rest || contains crlf head then crlf else lf

-- A line of the header block behind the separator that preceded it.
abbrev pub Part : Type 0
Part = Bytes × Bytes

abbrev pub starts_lf : Bytes → Bool
starts_lf s = starts_with lf s

-- The separator that begins the rest takes the CR before it.
abbrev pub cr_sep : Bytes × List Part → Bytes × List Part
cr_sep (l, []) = (l, [])
cr_sep (l, (sep, m) ∷ parts) = (l, (13 ∷ sep, m) ∷ parts)

abbrev pub split_step : ℕ → Bool → Bytes × List Part → Bytes × List Part
split_step c next_lf (l, parts) =
    if c == 10
    then ([], (lf, l) ∷ parts)
    else if c == 13 && next_lf
    then cr_sep (l, parts)
    else (c ∷ l, parts)

-- `_LINE_SPLIT_RE.split(head)`: the first line, and the others with the separators before them.
unfoldable pub split_lines : Bytes → Bytes × List Part
split_lines [] = ([], [])
split_lines (c ∷ s) = split_step c (starts_lf s) (split_lines s)

abbrev pub is_word_or_dash : ℕ → Bool
is_word_or_dash c =
    leb 97 c && leb c 122 || leb 65 c && leb c 90 || leb 48 c && leb c 57 || c == 95 || c == 45

-- `\s*:` at the start.
abbrev pub spaces_colon : Bytes → Bool
spaces_colon [] = false
spaces_colon (c ∷ s) = c == 58 || is_space c && spaces_colon s

-- `[\w-]*\s*:` at the start. No byte is in two of the classes, so a match needs no backtracking.
abbrev pub name_colon : Bytes → Bool
name_colon [] = false
name_colon (c ∷ s) = spaces_colon (c ∷ s) || is_word_or_dash c && name_colon s

-- The pattern's fixed letters, in any case, and then the rest of the name.
abbrev pub header_match : Bytes → Bytes → Bool
header_match [] s = name_colon s
header_match (p ∷ ps) [] = false
header_match (p ∷ ps) (c ∷ s) = lower_code c == p && header_match ps s

-- `_STRIP_RE.match(line)`
unfoldable pub is_spam_header : Bytes → Bool
is_spam_header line =
    header_match (codes "x-spamallam-") line
    || header_match (codes "x-spam-") line
    || header_match (codes "x-spamd-") line

-- `line[:1] in (b" ", b"\t")`
abbrev pub is_continuation : Bytes → Bool
is_continuation [] = false
is_continuation (c ∷ s) = c == 32 || c == 9

-- What the loop does with a line: a continuation shares the fate of the line above it.
abbrev pub drops : Bool → Bytes → Bool
drops skipping line = if is_continuation line then skipping else is_spam_header line

abbrev pub file : Bool → Part → List Part × List Bytes → List Part × List Bytes
file true (sep, line) (kept, removed) = (kept, line ∷ removed)
file false part (kept, removed) = (part ∷ kept, removed)

-- The loop over the parts; `skipping` after a line is whether that line was dropped.
unfoldable pub scan : Bool → List Part → List Part × List Bytes
scan skipping [] = ([], [])
scan skipping ((sep, line) ∷ parts) =
    let dropped = drops skipping line in file dropped (sep, line) (scan dropped parts)

-- The lines after the first, each with its separator.
unfoldable pub emit_more : Bytes → List Part → Bytes
emit_more newline [] = []
emit_more newline ((sep, line) ∷ parts) =
    (if is_empty sep then newline else sep) ++ line ++ emit_more newline parts

-- The first surviving line carries no separator.
unfoldable pub emit : Bytes → List Part → Bytes
unfolding emit_more
emit newline [] = []
emit newline ((sep, line) ∷ parts) = line ++ emit_more newline parts

unfoldable pub strip_block : Bytes → Bytes → Bytes × List Bytes
unfolding split_lines scan emit
strip_block newline head =
    let (first, parts) = split_lines head in
    let (kept, removed) = scan false (([], first) ∷ parts) in (emit newline kept, removed)

-- strip_spam_headers(raw)
unfoldable pub strip_spam_headers : Bytes → Bytes × List Bytes
unfolding split_message newline_style strip_block is_spam_header
strip_spam_headers raw =
    let (head, rest) = split_message raw in
    let (block, removed) = strip_block (newline_style head rest) head in (block ++ rest, removed)
