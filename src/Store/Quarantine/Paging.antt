-- ===== src/Store/Quarantine/Paging.antt =====
-- Which entries the queue shows (spamallam/app/store/quarantine.py, `list_entries`).
use mathlib.Core.List.{Perm}
use mathlib.Core.List.Perm
use spamallam.Prelude.{
  ℕ, ◌≤◌, ◌≡◌, refl, sym, ap, subst, ◌⊎◌, inl, inr, Bool-cases, true, false, Option, none, some,
  List, [], ◌∷◌, ◌++◌, append_assoc, append-nil, leb, length, take, if◌then◌else◌, Text, text_le,
  text_le_total, Map, arith,
}
use spamallam.Store.Quarantine.{
  Meta, Dir, Days, is_live, records_of, insert_newest, newest_first, collect, insert_day,
  latest_day_first, list_entries,
}
use spamallam.Store.Quarantine.Listing.{IsNewestFirst, IsNewestFirst-newest_first}

module _ {Info : Type 0} where
  -- The entries of a directory that are still in quarantine.
  abbrev pub live_in : Map (Option (Meta Info)) → List (Meta Info)
  live_in [] = []
  live_in ((id, none) ∷ metas) = live_in metas
  live_in ((id, some rec) ∷ metas) =
      let rest = live_in metas in if is_live rec.status then rec ∷ rest else rest

  abbrev pub live_of : List (Text × Dir Info) → List (Meta Info)
  live_of [] = []
  live_of ((day, d) ∷ dirs) = live_in d.metas ++ live_of dirs

  records_of-eq-live_in :
      (metas : Map (Option (Meta Info))) → records_of false metas ≡ live_in metas
  unfolding records_of
  records_of-eq-live_in [] = refl
  records_of-eq-live_in ((id, none) ∷ metas) = records_of-eq-live_in metas
  records_of-eq-live_in ((id, some rec) ∷ metas) = elim (Bool-cases (is_live rec.status)) [
    | inl e ↦ simp (e, records_of-eq-live_in metas)
    | inr e ↦ simp (e, records_of-eq-live_in metas)
  ]

  insert_newest-perm : (r : Meta Info) (rs : List (Meta Info)) → Perm (insert_newest r rs) (r ∷ rs)
  insert_newest-perm r [] = Perm.rfl
  insert_newest-perm r (q ∷ rs) = elim (Bool-cases (text_le q.ts r.ts)) [
    | inl e ↦ simp e Perm.rfl
    | inr e ↦ simp e (Perm.trans (Perm.cons q (insert_newest-perm r rs)) (Perm.swap r q rs))
  ]

  newest_first-perm : (rs : List (Meta Info)) → Perm (newest_first rs) rs
  newest_first-perm [] = Perm.rfl
  newest_first-perm (r ∷ rs) =
      Perm.trans (insert_newest-perm r (newest_first rs)) (Perm.cons r (newest_first-perm rs))

  -- Each day is at least as late as the next one.
  abbrev IsLaterThanHead : Text → List (Text × Dir Info) → Type 0
  IsLaterThanHead day [] = Unit
  IsLaterThanHead day ((e, f) ∷ rest) = text_le e day ≡ true

  abbrev pub IsLatestFirst : List (Text × Dir Info) → Type 0
  IsLatestFirst [] = Unit
  IsLatestFirst ((day, d) ∷ rest) = IsLaterThanHead day rest × IsLatestFirst rest

  insert_day-perm :
      (day : Text) (d : Dir Info) (rest : List (Text × Dir Info))
      → Perm (insert_day (day, d) rest) ((day, d) ∷ rest)
  insert_day-perm day d [] = Perm.rfl
  insert_day-perm day d ((e, f) ∷ rest) = elim (Bool-cases (text_le e day)) [
    | inl g ↦ simp g Perm.rfl
    | inr g ↦ simp g (
        Perm.trans (Perm.cons (e, f) (insert_day-perm day d rest)) (Perm.swap (day, d) (e, f) rest))
  ]

  latest_day_first-perm : (store : Days Info) → Perm (latest_day_first store) store
  latest_day_first-perm [] = Perm.rfl
  latest_day_first-perm ((day, d) ∷ rest) =
      Perm.trans (insert_day-perm day d (latest_day_first rest))
        (Perm.cons (day, d) (latest_day_first-perm rest))

  IsLaterThanHead-insert_day :
      (e day : Text) (d : Dir Info) (rest : List (Text × Dir Info))
      → text_le day e ≡ true
      → IsLaterThanHead e rest
      → IsLaterThanHead e (insert_day (day, d) rest)
  IsLaterThanHead-insert_day e day d [] h k = h
  IsLaterThanHead-insert_day e day d ((g, f) ∷ rest) h k = elim (Bool-cases (text_le g day)) [
    | inl x ↦ simp x h
    | inr x ↦ simp x k
  ]

  IsLatestFirst-insert_day :
      (day : Text) (d : Dir Info) (rest : List (Text × Dir Info))
      → IsLatestFirst rest
      → IsLatestFirst (insert_day (day, d) rest)
  IsLatestFirst-insert_day day d [] h = (tt, tt)
  IsLatestFirst-insert_day day d ((e, f) ∷ rest) (h, k) = elim (Bool-cases (text_le e day)) [
    | inl x ↦ simp x (refl, (h, k))
    | inr x ↦ simp x (
      IsLaterThanHead-insert_day e day d rest (text_le_total e day x) h,
      IsLatestFirst-insert_day day d rest k,
    )
  ]

  IsLatestFirst-latest_day_first : (store : Days Info) → IsLatestFirst (latest_day_first store)
  IsLatestFirst-latest_day_first [] = tt
  IsLatestFirst-latest_day_first ((day, d) ∷ rest) =
      IsLatestFirst-insert_day day d (latest_day_first rest) (IsLatestFirst-latest_day_first rest)

  -- The days were read up to some day, latest first, and the page is the newest of all the entries of
  -- those days that are still in quarantine; the reading stopped early only with enough of them.
  pub record IsLatest (limit : ℕ) (dirs : List (Text × Dir Info)) (out page : List (Meta Info))
      : Type 0 where
    pub now : List (Text × Dir Info)
    pub later : List (Text × Dir Info)
    pub sorted : List (Meta Info)
    pub days : dirs ≡ now ++ later
    pub order : IsNewestFirst sorted
    pub everything : Perm sorted (out ++ live_of now)
    pub shown : page ≡ take limit sorted
    pub stops : (later ≡ []) ⊎ (limit ≤ length sorted)

  module _ (limit : ℕ) (out : List (Meta Info)) (day : Text) (d : Dir Info)
      (dirs : List (Text × Dir Info)) where
    abbrev more : List (Meta Info)
    more = newest_first (out ++ records_of false d.metas)

    more-perm : Perm more (out ++ live_in d.metas)
    more-perm =
        subst (λ l. Perm more (out ++ l)) (records_of-eq-live_in d.metas)
          (newest_first-perm (out ++ records_of false d.metas))

    IsLatest-stop : limit ≤ length more → IsLatest limit ((day, d) ∷ dirs) out (take limit more)
    IsLatest-stop enough = record {
      now = (day, d) ∷ [];
      later = dirs;
      sorted = more;
      days = refl;
      order = IsNewestFirst-newest_first (out ++ records_of false d.metas);
      everything = subst (λ l. Perm more (out ++ l)) (sym (append-nil (live_in d.metas))) more-perm;
      shown = refl;
      stops = inr enough;
    }

    IsLatest-go_on :
        (page : List (Meta Info))
        → IsLatest limit dirs more page
        → IsLatest limit ((day, d) ∷ dirs) out page
    IsLatest-go_on page w = record {
      now = (day, d) ∷ w.now;
      later = w.later;
      sorted = w.sorted;
      days = ap (λ l. (day, d) ∷ l) w.days;
      order = w.order;
      everything = Perm.trans w.everything (
          subst (Perm (more ++ live_of w.now)) (append_assoc out (live_in d.metas) (live_of w.now))
            (Perm.append_right (live_of w.now) more-perm));
      shown = w.shown;
      stops = w.stops;
    }

  IsLatest-collect :
      (limit : ℕ) (out : List (Meta Info)) (dirs : List (Text × Dir Info))
      → IsNewestFirst out
      → IsLatest limit dirs out (collect limit false out dirs)
  unfolding collect
  IsLatest-collect limit out [] h = record {
    now = [];
    later = [];
    sorted = out;
    days = refl;
    order = h;
    everything = subst (Perm out) (sym (append-nil out)) Perm.rfl;
    shown = refl;
    stops = inl refl;
  }
  IsLatest-collect limit out ((day, d) ∷ dirs) h =
      let found = more limit out day d dirs in
      let rest =
        IsLatest-collect limit found dirs
          (IsNewestFirst-newest_first (out ++ records_of false d.metas)) in
      elim (Bool-cases (leb limit (length found))) [
        | inl e ↦ simp e (IsLatest-stop limit out day d dirs (ground (arith, e)))
        | inr e ↦ simp e (IsLatest-go_on limit out day d dirs (collect limit false found dirs) rest)
      ]

  -- The queue without a day reads the days of the store, each once, from the latest on, and shows the
  -- newest entries, `limit` at most, of all those of the days read that are still in quarantine; it
  -- reads on as long as these are too few and there is a day left.
  pub list_entries-IsLatest :
      (limit : ℕ) (store : Days Info)
      → (dirs : List (Text × Dir Info)) × Perm dirs store
        × IsLatestFirst dirs
        × IsLatest limit dirs [] (list_entries limit none false store)
  unfolding list_entries
  list_entries-IsLatest limit store = (
    latest_day_first store,
    latest_day_first-perm store,
    IsLatestFirst-latest_day_first store,
    IsLatest-collect limit [] (latest_day_first store) tt,
  )
