-- ===== src/Pipeline/Headers/Pattern.antt =====
-- What the pattern for spoofed headers looks at: a match stays a match on a longer line, and a CR
-- at the end of a line makes none.
use spamallam.Prelude.{◌≡◌, ◌≢◌, refl, true, false, [], ◌∷◌, ◌++◌, All, Bytes, codes, arith}
use spamallam.Pipeline.Headers.Message.{
  spaces_colon, name_colon, header_match, is_spam_header, is_continuation,
}

spaces_colon-append : (l x : Bytes) → spaces_colon l ≡ true → spaces_colon (l ++ x) ≡ true
spaces_colon-append [] x h = cc
spaces_colon-append (c ∷ l) x h = ground (arith, spaces_colon-append l x)

name_colon-append : (l x : Bytes) → name_colon l ≡ true → name_colon (l ++ x) ≡ true
name_colon-append [] x h = cc
name_colon-append (c ∷ l) x h = ground (arith, name_colon-append l x, spaces_colon-append (c ∷ l) x)

header_match-append : (p l x : Bytes) → header_match p l ≡ true → header_match p (l ++ x) ≡ true
header_match-append [] l x h = name_colon-append l x h
header_match-append (q ∷ p) [] x h = cc
header_match-append (q ∷ p) (c ∷ l) x h = ground (arith, header_match-append p l x)

pub is_spam_header-append : (l x : Bytes) → is_spam_header l ≡ true → is_spam_header (l ++ x) ≡ true
unfolding is_spam_header
is_spam_header-append l x h = ground (
  arith,
  header_match-append (codes "x-spamallam-") l x,
  header_match-append (codes "x-spam-") l x,
  header_match-append (codes "x-spamd-") l x,
)

abbrev cr : Bytes
cr = 13 ∷ []

spaces_colon-cr : (l : Bytes) → spaces_colon (l ++ cr) ≡ spaces_colon l
spaces_colon-cr [] = refl
spaces_colon-cr (c ∷ l) = rw (spaces_colon-cr l)

name_colon-cr : (l : Bytes) → name_colon (l ++ cr) ≡ name_colon l
name_colon-cr [] = refl
name_colon-cr (c ∷ l) = rw (spaces_colon-cr l, name_colon-cr l)

header_match-cr : (p l : Bytes) → All (λ q. q ≢ 13) p → header_match p (l ++ cr) ≡ header_match p l
header_match-cr [] l h = name_colon-cr l
header_match-cr (q ∷ p) [] h = ground arith
header_match-cr (q ∷ p) (c ∷ l) h = rw (header_match-cr p l h.1)

pub is_spam_header-cr : (l : Bytes) → is_spam_header (l ++ 13 ∷ []) ≡ is_spam_header l
unfolding is_spam_header
is_spam_header-cr l = rw (
  header_match-cr (codes "x-spamallam-") l (omega arith),
  header_match-cr (codes "x-spam-") l (omega arith),
  header_match-cr (codes "x-spamd-") l (omega arith),
)

-- A continuation line is no header.
pub is_spam_header_of_continuation :
    (l : Bytes) → is_continuation l ≡ true → is_spam_header l ≡ false
unfolding is_spam_header
is_spam_header_of_continuation [] h = refl
is_spam_header_of_continuation (c ∷ l) h = ground arith
