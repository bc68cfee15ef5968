-- ===== src/Store/Quarantine/Listing.antt =====
-- What the listing shows (spamallam/app/store/quarantine.py, `list_entries`).
use spamallam.Prelude.{
  ℕ, zero, suc, ◌≤◌, ◌≡◌, refl, inl, inr, Bool-cases, true, false, Option, none, some, List, [],
  ◌∷◌, ◌++◌, leb, length, take, length-take-le, All, All-append, All-take, Text, text_le,
  text_le_total, Map,
}
use spamallam.Store.Quarantine.{
  Meta, Dir, Days, is_live, taken, records_of, insert_newest, newest_first, collect, day_dirs,
  list_entries,
}

module _ {Info : Type 0} where
  abbrev IsNewerThanHead : Meta Info → List (Meta Info) → Type 0
  IsNewerThanHead r [] = Unit
  IsNewerThanHead r (q ∷ rest) = text_le q.ts r.ts ≡ true

  -- Each entry is at least as new as the next one.
  abbrev pub IsNewestFirst : List (Meta Info) → Type 0
  IsNewestFirst [] = Unit
  IsNewestFirst (r ∷ rest) = IsNewerThanHead r rest × IsNewestFirst rest

  IsNewerThanHead-insert_newest :
      (q r : Meta Info) (rest : List (Meta Info))
      → text_le r.ts q.ts ≡ true
      → IsNewerThanHead q rest
      → IsNewerThanHead q (insert_newest r rest)
  IsNewerThanHead-insert_newest q r [] h k = h
  IsNewerThanHead-insert_newest q r (p ∷ rest) h k = elim (Bool-cases (text_le p.ts r.ts)) [
    | inl e ↦ simp e h
    | inr e ↦ simp e k
  ]

  IsNewestFirst-insert_newest :
      (r : Meta Info) (rest : List (Meta Info))
      → IsNewestFirst rest
      → IsNewestFirst (insert_newest r rest)
  IsNewestFirst-insert_newest r [] h = (tt, tt)
  IsNewestFirst-insert_newest r (q ∷ rest) (h, k) = elim (Bool-cases (text_le q.ts r.ts)) [
    | inl e ↦ simp e (refl, (h, k))
    | inr e ↦ simp e (
      IsNewerThanHead-insert_newest q r rest (text_le_total q.ts r.ts e) h,
      IsNewestFirst-insert_newest r rest k,
    )
  ]

  pub IsNewestFirst-newest_first : (rs : List (Meta Info)) → IsNewestFirst (newest_first rs)
  IsNewestFirst-newest_first [] = tt
  IsNewestFirst-newest_first (r ∷ rs) =
      IsNewestFirst-insert_newest r (newest_first rs) (IsNewestFirst-newest_first rs)

  IsNewestFirst-take :
      (n : ℕ) (rs : List (Meta Info)) → IsNewestFirst rs → IsNewestFirst (take n rs)
  IsNewestFirst-take zero rs h = tt
  IsNewestFirst-take (suc n) [] h = tt
  IsNewestFirst-take (suc zero) (r ∷ rs) (h, k) = (tt, tt)
  IsNewestFirst-take (suc (suc n)) (r ∷ []) (h, k) = (tt, tt)
  IsNewestFirst-take (suc (suc n)) (r ∷ q ∷ rs) (h, k) = (h, IsNewestFirst-take (suc n) (q ∷ rs) k)

  -- Every entry is still in quarantine.
  abbrev pub AreLive : List (Meta Info) → Type 0
  AreLive = All (λ (r : Meta Info). is_live r.status ≡ true)

  AreLive-taken :
      (o : Option (Meta Info)) (rest : List (Meta Info))
      → AreLive rest
      → AreLive (taken false o rest)
  AreLive-taken none rest h = h
  AreLive-taken (some rec) rest h = elim (Bool-cases (is_live rec.status)) [
    | inl e ↦ simp e (refl, h)
    | inr e ↦ simp e h
  ]

  AreLive-records_of : (metas : Map (Option (Meta Info))) → AreLive (records_of false metas)
  unfolding records_of
  AreLive-records_of [] = tt
  AreLive-records_of ((id, o) ∷ metas) = AreLive-taken o _ (AreLive-records_of metas)

  AreLive-insert_newest :
      (r : Meta Info) (rs : List (Meta Info))
      → is_live r.status ≡ true
      → AreLive rs
      → AreLive (insert_newest r rs)
  AreLive-insert_newest r [] e h = (e, tt)
  AreLive-insert_newest r (q ∷ rs) e (f, h) = elim (Bool-cases (text_le q.ts r.ts)) [
    | inl g ↦ simp g (e, (f, h))
    | inr g ↦ simp g (f, AreLive-insert_newest r rs e h)
  ]

  AreLive-newest_first : (rs : List (Meta Info)) → AreLive rs → AreLive (newest_first rs)
  AreLive-newest_first [] h = tt
  AreLive-newest_first (r ∷ rs) (e, h) =
      AreLive-insert_newest r (newest_first rs) e (AreLive-newest_first rs h)

  -- What a page of the listing is.
  abbrev pub IsPage : ℕ → List (Meta Info) → Type 0
  IsPage limit rs = (length rs ≤ limit) × AreLive rs × IsNewestFirst rs

  IsPage-take :
      (limit : ℕ) (rs : List (Meta Info))
      → AreLive rs
      → IsNewestFirst rs
      → IsPage limit (take limit rs)
  IsPage-take limit rs h k =
      (length-take-le limit rs, All-take _ limit rs h, IsNewestFirst-take limit rs k)

  IsPage-collect :
      (limit : ℕ) (out : List (Meta Info)) (dirs : List (Text × Dir Info))
      → AreLive out
      → IsNewestFirst out
      → IsPage limit (collect limit false out dirs)
  unfolding collect
  IsPage-collect limit out [] h k = IsPage-take limit out h k
  IsPage-collect limit out ((day, d) ∷ dirs) h k =
      let found = out ++ records_of false d.metas in
      let more = newest_first found in
      let live = AreLive-newest_first found (All-append _ out _ h (AreLive-records_of d.metas)) in
      let sorted = IsNewestFirst-newest_first found in
      elim (Bool-cases (leb limit (length more))) [
        | inl e ↦ simp e (IsPage-take limit more live sorted)
        | inr e ↦ simp e (IsPage-collect limit more dirs live sorted)
      ]

  -- The queue shows at most `limit` entries, only those that are still in quarantine, newest first.
  pub list_entries-IsPage :
      (limit : ℕ) (day : Option Text) (store : Days Info)
      → IsPage limit (list_entries limit day false store)
  unfolding list_entries
  list_entries-IsPage limit day store = IsPage-collect limit [] (day_dirs day store) tt tt
