-- ===== src/Pipeline/Headers/Lines.antt =====
-- Splitting a message and its header block loses no byte.
use spamallam.Prelude.{
  ℕ, ◌≡◌, ◌≢◌, refl, ap, ◌⊎◌, inl, inr, Bool-cases, true, false, Option, none, some, List, [], ◌∷◌,
  ◌++◌, ◌==◌, All, Bytes, starts_with, arith, append-nil,
}
use spamallam.Pipeline.Headers.Message.{
  lf, crlf, push_front, find_sep, or_lf, split_message, Part, split_step, split_lines, emit_more,
}

push_front-append :
    (c : ℕ) (s : Bytes) (o : Option (Bytes × Bytes))
    → ((x y : Bytes) → o ≡ some (x, y) → x ++ y ≡ s)
    → (a b : Bytes) → push_front c o ≡ some (a, b)
    → a ++ b ≡ c ∷ s
push_front-append c s none h a b e = cc
push_front-append c s (some (x, y)) h a b e = ground (arith, h x y refl)

pub find_sep-append : (sep s a b : Bytes) → find_sep sep s ≡ some (a, b) → a ++ b ≡ s
unfolding find_sep
find_sep-append sep [] a b e = ground arith
find_sep-append sep (c ∷ s) a b e = elim (Bool-cases (starts_with sep (c ∷ s))) [
  | inl here ↦ ground arith
  | inr later ↦ push_front-append c s (find_sep sep s) (find_sep-append sep s) a b (ground arith)
]

-- The two halves of a message make it up.
pub split_message-append : (raw : Bytes) → (split_message raw).0 ++ (split_message raw).1 ≡ raw
unfolding split_message
split_message-append raw = go (find_sep (crlf ++ crlf) raw) refl (find_sep (lf ++ lf) raw) refl
  where
    go :
        (o : Option (Bytes × Bytes))
        → find_sep (crlf ++ crlf) raw ≡ o
        → (q : Option (Bytes × Bytes)) → find_sep (lf ++ lf) raw ≡ q
        → (or_lf raw o).0 ++ (or_lf raw o).1 ≡ raw
    go (some (a, b)) e q f = find_sep-append (crlf ++ crlf) raw a b e
    go none e (some (a, b)) f = rw f (find_sep-append (lf ++ lf) raw a b f)
    go none e none f = rw f (append-nil raw)

abbrev pub IsSep : Bytes → Type 0
IsSep sep = (sep ≡ lf) ⊎ (sep ≡ crlf)

abbrev pub HasNoLf : Bytes → Type 0
HasNoLf = All (λ c. c ≢ 10)

abbrev pub IsPart : Part → Type 0
IsPart p = IsSep p.0 × HasNoLf p.1

-- The lines and their separators make up the block, whatever stands for a missing separator.
pub record IsSplit (s first : Bytes) (parts : List Part) : Type 0 where
  pub joined : (newline : Bytes) → first ++ emit_more newline parts ≡ s
  pub first_line : HasNoLf first
  pub other_lines : All IsPart parts

module _ {s l : Bytes} {parts : List Part} (h : IsSplit s l parts) where
  lf-IsSplit : IsSplit (10 ∷ s) [] ((lf, l) ∷ parts)
  unfolding emit_more
  lf-IsSplit = record {
    joined = λ newline. ap (λ r. 10 ∷ r) (h.joined newline);
    first_line = tt;
    other_lines = ((inl refl, h.first_line), h.other_lines);
  }

  cr-IsSplit : IsSplit (13 ∷ 10 ∷ s) [] ((crlf, l) ∷ parts)
  unfolding emit_more
  cr-IsSplit = record {
    joined = λ newline. ap (λ r. 13 ∷ 10 ∷ r) (h.joined newline);
    first_line = tt;
    other_lines = ((inr refl, h.first_line), h.other_lines);
  }

  other-IsSplit : (c : ℕ) → c ≢ 10 → IsSplit (c ∷ s) (c ∷ l) parts
  other-IsSplit c p = record {
    joined = λ newline. ap (λ r. c ∷ r) (h.joined newline);
    first_line = (p, h.first_line);
    other_lines = h.other_lines;
  }

-- `split_step` where an LF comes next.
before_lf-IsSplit :
    (c : ℕ) (s l : Bytes) (parts : List Part)
    → IsSplit s l parts
    → IsSplit
        (c ∷ 10 ∷ s)
        (split_step c true ([], (lf, l) ∷ parts)).0
        (split_step c true ([], (lf, l) ∷ parts)).1
before_lf-IsSplit c s l parts h = elim (Bool-cases (c == 10)) [
  | inl e ↦ let p : c ≡ 10 = ground arith in rw p (lf-IsSplit (lf-IsSplit h))
  | inr e ↦ elim (Bool-cases (c == 13)) [
    | inl f ↦ let p : c ≡ 13 = ground arith in rw p (cr-IsSplit h)
    | inr f ↦ rw (e, f) (other-IsSplit (lf-IsSplit h) c (ground arith))
  ]
]

-- `split_step` where none does.
not_lf-IsSplit :
    (c : ℕ) (s l : Bytes) (parts : List Part)
    → IsSplit s l parts
    → IsSplit (c ∷ s) (split_step c false (l, parts)).0 (split_step c false (l, parts)).1
not_lf-IsSplit c s l parts h = elim (Bool-cases (c == 10)) [
  | inl e ↦ let p : c ≡ 10 = ground arith in rw p (lf-IsSplit h)
  | inr e ↦ elim (Bool-cases (c == 13)) [
    | inl f ↦ let p : c ≡ 13 = ground arith in rw p (other-IsSplit h 13 (omega arith))
    | inr f ↦ rw (e, f) (other-IsSplit h c (ground arith))
  ]
]

pub split_lines-IsSplit : (s : Bytes) → IsSplit s (split_lines s).0 (split_lines s).1
unfolding split_lines emit_more
split_lines-IsSplit [] = record { joined = λ newline. refl; first_line = tt; other_lines = tt }
split_lines-IsSplit (c ∷ []) = not_lf-IsSplit c [] [] [] (split_lines-IsSplit [])
split_lines-IsSplit (c ∷ d ∷ t) = elim (Bool-cases (10 == d)) [
  | inl e ↦
      let p : d ≡ 10 = ground arith in
      let (l, parts) = split_lines t in rw p (before_lf-IsSplit c t l parts (split_lines-IsSplit t))
  | inr e ↦
      let (l, parts) = split_lines (d ∷ t) in
      rw e (not_lf-IsSplit c (d ∷ t) l parts (split_lines-IsSplit (d ∷ t)))
]
