-- ===== src/Pipeline/Headers/Boundary.antt =====
-- Where the boundary of a message falls that is put together from a block and another's rest.
use spamallam.Prelude.{
  ℕ, ◌≡◌, refl, ap, ◌∙◌, inl, inr, Bool-cases, true, Option, none, some, [], ◌∷◌, ◌++◌, Bytes,
  starts_with, arith, append-nil, Option-cases,
}
use spamallam.Pipeline.Headers.Message.{lf, crlf, push_front, find_sep, split_message}
use spamallam.Pipeline.Headers.Lines.{find_sep-append, split_message-append}

-- A separator that stands behind a block is found in it or there.
find_sep-before :
    (sep block rest : Bytes)
    → starts_with sep rest ≡ true
    → (a b x : Bytes) × (find_sep sep (block ++ rest) ≡ some (a, b)) × (a ++ x ≡ block)
unfolding find_sep
find_sep-before sep [] [] h = ([], [], [], rw h, refl)
find_sep-before sep [] (r ∷ rest) h = ([], r ∷ rest, [], rw h, refl)
find_sep-before sep (c ∷ block) rest h = elim (Bool-cases (starts_with sep (c ∷ block ++ rest))) [
  | inl e ↦ ([], c ∷ block ++ rest, c ∷ block, rw e, refl)
  | inr e ↦
      let (a, b, x, f, j) = find_sep-before sep block rest h in
      (c ∷ a, b, x, rw (e, f), ap (λ r. c ∷ r) j)
]

push_front-eq-some :
    (c : ℕ) (o : Option (Bytes × Bytes)) (a b : Bytes)
    → push_front c o ≡ some (a, b)
    → (a' : Bytes) × (o ≡ some (a', b)) × (a ≡ c ∷ a')
push_front-eq-some c none a b e = cc
push_front-eq-some c (some (x, y)) a b e = (x, ground arith, ground arith)

-- A separator that does not stand in the rest is found, if at all, to begin in the block.
find_sep-within :
    (sep block rest a b : Bytes)
    → find_sep sep rest ≡ none
    → find_sep sep (block ++ rest) ≡ some (a, b)
    → (x : Bytes) × (a ++ x ≡ block)
unfolding find_sep
find_sep-within sep [] rest a b h e = cc
find_sep-within sep (c ∷ block) rest a b h e =
    elim (Bool-cases (starts_with sep (c ∷ block ++ rest))) [
      | inl f ↦ (c ∷ block, ground arith)
      | inr f ↦
          let (a', e', g) =
            push_front-eq-some c (find_sep sep (block ++ rest)) a b (ground arith) in
          let (x, j) = find_sep-within sep block rest a' b h e' in
          (x, ap (λ (r : Bytes). r ++ x) g ∙ ap (λ r. c ∷ r) j)
    ]

-- What is found begins with the separator.
find_sep-starts : (sep s a b : Bytes) → find_sep sep s ≡ some (a, b) → starts_with sep b ≡ true
unfolding find_sep
find_sep-starts sep [] a b e = ground arith
find_sep-starts sep (c ∷ s) a b e = elim (Bool-cases (starts_with sep (c ∷ s))) [
  | inl f ↦ ground arith
  | inr f ↦
      let (a', e', g) = push_front-eq-some c (find_sep sep s) a b (ground arith) in
      find_sep-starts sep s a' b e'
]

push_front-eq-none : (c : ℕ) (o : Option (Bytes × Bytes)) → push_front c o ≡ none → o ≡ none
push_front-eq-none c none e = refl
push_front-eq-none c (some (x, y)) e = cc

-- What does not stand in a message does not stand in its end.
find_sep-suffix : (sep a b : Bytes) → find_sep sep (a ++ b) ≡ none → find_sep sep b ≡ none
unfolding find_sep
find_sep-suffix sep [] b e = e
find_sep-suffix sep (c ∷ a) b e = elim (Bool-cases (starts_with sep (c ∷ a ++ b))) [
  | inl f ↦ ground arith
  | inr f ↦ find_sep-suffix sep a b (push_front-eq-none c (find_sep sep (a ++ b)) (ground arith))
]

-- The header block of `block ++ rest` lies in `block`.
abbrev pub Within : Bytes → Bytes → Type 0
Within block rest = (x : Bytes) × ((split_message (block ++ rest)).0 ++ x ≡ block)

Within-of_crlf : (block rest : Bytes) → starts_with (crlf ++ crlf) rest ≡ true → Within block rest
unfolding split_message
Within-of_crlf block rest h =
    let (a, b, x, f, j) = find_sep-before (crlf ++ crlf) block rest h in (x, rw f j)

Within-of_lf :
    (block rest : Bytes)
    → find_sep (crlf ++ crlf) rest ≡ none
    → starts_with (lf ++ lf) rest ≡ true
    → Within block rest
unfolding split_message
Within-of_lf block rest n h = elim (Option-cases (find_sep (crlf ++ crlf) (block ++ rest))) [
  | inl e ↦ let (a, b, x, f, j) = find_sep-before (lf ++ lf) block rest h in (x, rw (e, f) j)
  | inr ((a, b), e) ↦ let (x, j) = find_sep-within (crlf ++ crlf) block rest a b n e in (x, rw e j)
]

pub split_message-Within : (raw block : Bytes) → Within block (split_message raw).1
unfolding split_message
split_message-Within raw block = elim (Option-cases (find_sep (crlf ++ crlf) raw)) [
  | inr ((a, b), e) ↦ rw e (Within-of_crlf block b (find_sep-starts (crlf ++ crlf) raw a b e))
  | inl e ↦ elim (Option-cases (find_sep (lf ++ lf) raw)) [
    | inr ((a, b), f) ↦
        rw (e, f)
          (Within-of_lf block b
            (find_sep-suffix (crlf ++ crlf) a b (rw (find_sep-append (lf ++ lf) raw a b f) e))
            (find_sep-starts (lf ++ lf) raw a b f))
    | inl f ↦ rw (e, f) (rw append-nil ((split_message block).1, split_message-append block))
  ]
]
