-- ===== src/Pipeline/Headers/Clean.antt =====
-- Header blocks with no spam header, read with LF as the end of a line, against blocks whose lines
-- from the splitter are no spam headers.
use spamallam.Prelude.{
  ◌≡◌, refl, sym, ap, ◌∙◌, inl, inr, Bool-cases, false, List, [], ◌∷◌, ◌++◌, ◌==◌, if◌then◌else◌,
  All, Bytes, arith, append-nil,
}
use spamallam.Pipeline.Headers.Message.{lf, Part, split_lines, is_spam_header, emit_more}
use spamallam.Pipeline.Headers.Lines.{HasNoLf, IsPart, split_lines-IsSplit}
use spamallam.Pipeline.Headers.Pattern.{is_spam_header-append, is_spam_header-cr}

-- The bytes up to the next LF, as a reader that ends lines at LF sees a line.
abbrev pub until_lf : Bytes → Bytes
until_lf [] = []
until_lf (c ∷ s) = let rest = until_lf s in if c == 10 then [] else c ∷ rest

-- Behind every LF stands a line that is no spam header.
abbrev pub IsCleanBelow : Bytes → Type 0
IsCleanBelow [] = Unit
IsCleanBelow (c ∷ s) = (c ≡ 10 → is_spam_header (until_lf s) ≡ false) × IsCleanBelow s

-- No line of the block, read with LF as the end of a line, is a spam header.
abbrev pub IsClean : Bytes → Type 0
IsClean s = (is_spam_header (until_lf s) ≡ false) × IsCleanBelow s

abbrev pub IsHonest : Bytes → Type 0
IsHonest line = is_spam_header line ≡ false

abbrev pub AreHonest : List Part → Type 0
AreHonest = All (λ p. IsHonest p.1)

until_lf-line : (l : Bytes) → HasNoLf l → until_lf l ≡ l
until_lf-line [] h = refl
until_lf-line (c ∷ l) (p, h) = ground (arith, until_lf-line l h)

until_lf-lf : (l s : Bytes) → HasNoLf l → until_lf (l ++ 10 ∷ s) ≡ l
until_lf-lf [] s h = refl
until_lf-lf (c ∷ l) s (p, h) = ground (arith, until_lf-lf l s h)

until_lf-crlf : (l s : Bytes) → HasNoLf l → until_lf (l ++ 13 ∷ 10 ∷ s) ≡ l ++ 13 ∷ []
until_lf-crlf [] s h = refl
until_lf-crlf (c ∷ l) s (p, h) = ground (arith, until_lf-crlf l s h)

IsCleanBelow-line : (l s : Bytes) → HasNoLf l → IsCleanBelow s → IsCleanBelow (l ++ s)
IsCleanBelow-line [] s h k = k
IsCleanBelow-line (c ∷ l) s (p, h) k = (λ e. absurd (p e), IsCleanBelow-line l s h k)

IsCleanBelow-of_line : (l s : Bytes) → IsCleanBelow (l ++ s) → IsCleanBelow s
IsCleanBelow-of_line [] s h = h
IsCleanBelow-of_line (c ∷ l) s (p, h) = IsCleanBelow-of_line l s h

module _ (newline : Bytes) where
  pub IsClean-emit_more :
      (l : Bytes) (parts : List Part)
      → HasNoLf l
      → IsHonest l
      → All IsPart parts
      → AreHonest parts
      → IsClean (l ++ emit_more newline parts)
  unfolding emit_more
  IsClean-emit_more l [] n h ok honest =
      (rw append-nil (rw (until_lf-line l n) h), IsCleanBelow-line l [] n tt)
  IsClean-emit_more l ((sep, m) ∷ parts) n h ((inl e, k), ok) (p, honest) =
      let (here, below) = IsClean-emit_more m parts k p ok honest in
      rw e (rw (until_lf-lf l _ n) h, IsCleanBelow-line l _ n (λ _. here, below))
  IsClean-emit_more l ((sep, m) ∷ parts) n h ((inr e, k), ok) (p, honest) =
      let (here, below) = IsClean-emit_more m parts k p ok honest in
      rw e (
        rw (until_lf-crlf l _ n) (is_spam_header-cr l ∙ h),
        IsCleanBelow-line l _ n ((λ q. absurd (omega arith)), (λ _. here, below)),
      )

  IsHonest-emit_more :
      (l : Bytes) (parts : List Part)
      → HasNoLf l
      → All IsPart parts
      → IsClean (l ++ emit_more newline parts)
      → IsHonest l × AreHonest parts
  unfolding emit_more
  IsHonest-emit_more l [] n ok (here, below) =
      (rw (until_lf-line l n) at (rw append-nil at here), tt)
  IsHonest-emit_more l ((sep, m) ∷ parts) n ((inl e, k), ok) clean =
      let (here, below) = rw e at clean in
      let (at_lf, more) = IsCleanBelow-of_line l _ below in
      let (p, honest) = IsHonest-emit_more m parts k ok (at_lf refl, more) in
      (rw (until_lf-lf l _ n) at here, (p, honest))
  IsHonest-emit_more l ((sep, m) ∷ parts) n ((inr e, k), ok) clean =
      let (here, below) = rw e at clean in
      let (_, (at_lf, more)) = IsCleanBelow-of_line l _ below in
      let (p, honest) = IsHonest-emit_more m parts k ok (at_lf refl, more) in
      (sym (is_spam_header-cr l) ∙ (rw (until_lf-crlf l _ n) at here), (p, honest))

-- The splitter's lines of a clean block are honest.
pub AreHonest-split_lines :
    (s : Bytes) → IsClean s → IsHonest (split_lines s).0 × AreHonest (split_lines s).1
AreHonest-split_lines s clean =
    let h = split_lines-IsSplit s in
    IsHonest-emit_more lf _ _ h.first_line h.other_lines (rw (h.joined lf) clean)

until_lf-append : (a b : Bytes) → (x : Bytes) × (until_lf (a ++ b) ≡ until_lf a ++ x)
until_lf-append [] b = (until_lf b, refl)
until_lf-append (c ∷ a) b =
    let (x, e) = until_lf-append a b in
    elim (Bool-cases (c == 10)) [ inl f ↦ ([], rw f) | inr f ↦ (x, rw f (ap (λ r. c ∷ r) e)) ]

honest_prefix :
    (a b : Bytes) → is_spam_header (until_lf (a ++ b)) ≡ false → is_spam_header (until_lf a) ≡ false
honest_prefix a b h =
    let (x, e) = until_lf-append a b in ground (arith, e, is_spam_header-append (until_lf a) x)

IsCleanBelow-prefix : (a b : Bytes) → IsCleanBelow (a ++ b) → IsCleanBelow a
IsCleanBelow-prefix [] b h = tt
IsCleanBelow-prefix (c ∷ a) b (p, h) = (λ e. honest_prefix a b (p e), IsCleanBelow-prefix a b h)

-- What stands before a cut in a clean block is clean.
pub IsClean-prefix : (a b : Bytes) → IsClean (a ++ b) → IsClean a
IsClean-prefix a b (p, h) = (honest_prefix a b p, IsCleanBelow-prefix a b h)
