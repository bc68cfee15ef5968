-- ===== src/Tools/Web/Plain.antt =====
-- The text of a page (spamallam/app/tools/webtools.py, `_to_text`): scripts and styles go, then
-- tags, then runs of white space.
use spamallam.Prelude.{
  fold_case, ℕ, zero, suc, Option, none, some, [], ◌∷◌, ◌++◌, map, ◌==◌, if◌then◌else◌, length,
  take, drop, Text, codes, strip, lower_code, starts_with, is_str_space,
}

-- The lower case by which a back reference compares.
abbrev pub group_case : ℕ → ℕ
group_case c = if c == 304 then 105 else lower_code c

-- The text after the first place where the element closes, `none` where it does not.
unfoldable pub after_close : Text → Text → Option Text
after_close closing [] = none
after_close closing (c ∷ s) =
    let later = after_close closing s in
    if starts_with closing (map group_case (c ∷ s))
    then some (drop (length closing) (c ∷ s))
    else later

abbrev pub closing_of : Text → Text
closing_of name = map group_case (codes "</" ++ (name ++ codes ">"))

abbrev pub raw_name : Text → Option Text
raw_name s =
    if starts_with (codes "script") (map fold_case s)
    then some (take 6 s)
    else if starts_with (codes "style") (map fold_case s)
    then some (take 5 s)
    else none

abbrev pub raw_rest : Text → Option Text → Option Text
raw_rest s none = none
raw_rest s (some name) = after_close (closing_of name) (drop (length name) s)

-- The text after a script or style that starts here.
abbrev pub skip_raw : ℕ → Text → Option Text
skip_raw c s = if c == 60 then raw_rest s (raw_name s) else none

-- A match is replaced by the filler, and the search goes on after it.
abbrev pub replaced : Text → ℕ → Text → (Text → Text) → Option Text → Text
replaced filler c kept again none = c ∷ kept
replaced filler c kept again (some rest) = filler ++ again rest

-- re.sub(r"(?is)<(script|style).*?</\1>", " ", markup); the fuel is the length of the markup.
unfoldable pub drop_raw_from : ℕ → Text → Text
drop_raw_from zero s = s
drop_raw_from (suc n) [] = []
drop_raw_from (suc n) (c ∷ s) =
    replaced (32 ∷ []) c (drop_raw_from n s) (drop_raw_from n) (skip_raw c s)

-- The text after the next `>`.
unfoldable pub after_gt : Text → Option Text
after_gt [] = none
after_gt (c ∷ s) = let later = after_gt s in if c == 62 then some s else later

-- `<[^>]+>`: at least one character before the `>`.
abbrev pub skip_tag : ℕ → Text → Option Text
skip_tag c [] = none
skip_tag c (d ∷ s) =
    let rest = after_gt s in if c == 60 then (if d == 62 then none else rest) else none

-- The loop of _TAG_RE.sub(filler, s); the fuel is the length of the text.
unfoldable pub drop_tags_from : Text → ℕ → Text → Text
drop_tags_from filler zero s = s
drop_tags_from filler (suc n) [] = []
drop_tags_from filler (suc n) (c ∷ s) =
    replaced filler c (drop_tags_from filler n s) (drop_tags_from filler n) (skip_tag c s)

-- _TAG_RE.sub(filler, s)
unfoldable pub sub_tags : Text → Text → Text
sub_tags filler s = drop_tags_from filler (length s) s

-- The white space read since the last other character.
pub data Spaces : Type 0 where
  no_space many : Spaces
  one : ℕ → Spaces

abbrev pub flush : Spaces → Text
flush no_space = []
flush (one c) = c ∷ []
flush many = 32 ∷ []

abbrev pub longer : ℕ → Spaces → Spaces
longer c no_space = one c
longer c (one d) = many
longer c many = many

-- re.sub(r"\s{2,}", " ", text)
unfoldable pub collapse : Spaces → Text → Text
collapse run [] = flush run
collapse run (c ∷ s) =
    let spaces = collapse (longer c run) s in
    let others = collapse no_space s in if is_str_space c then spaces else flush run ++ c ∷ others

-- _to_text(markup)
unfoldable pub to_text : (Text → Text) → Text → Text
to_text unescape markup =
    let kept = drop_raw_from (length markup) markup in
    strip (collapse no_space (unescape (sub_tags (32 ∷ []) kept)))
