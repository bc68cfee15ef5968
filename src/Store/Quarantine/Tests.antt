-- ===== src/Store/Quarantine/Tests.antt =====
-- Runs of the quarantine (spamallam/app/store/quarantine.py).
use mathlib.Core.List.{Perm}
use spamallam.Prelude.{
  ℕ, ◌+◌, ◌≡◌, refl, Bool, if◌then◌else◌, true, false, Option, none, some, List, [], ◌∷◌, ◌++◌,
  Text, codes, get, put, remove, text_eq,
}
use spamallam.Store.Quarantine.{
  Meta, Dir, released, Box, Days, stamped, save, get_meta, get_original, acted_on, mark,
  list_entries, collect, records_of, prune, is_before,
}
use spamallam.Store.Quarantine.Lifecycle.{IsFaithful, get_original-save, mark_lem}
use spamallam.Store.Quarantine.Paging.{IsLatestFirst, IsLatest, list_entries-IsLatest}
use spamallam.Store.Quarantine.Retention.{entry_count, prune_lem}

quarantine : Unit {0}
unfolding save get_meta get_original mark list_entries collect records_of prune get put remove
    text_eq
quarantine = tt

abbrev plain_box : Box
plain_box = record { encrypt = λ b. b; decrypt = λ t. some t }

plain_box-IsFaithful : IsFaithful plain_box
plain_box-IsFaithful b = refl

abbrev today : Text
today = codes "2026-01-02"

abbrev held : Days ℕ
held =
    (save plain_box (record { blob_write = false; meta_write = false; blob_unlink = false })
      (codes "10:00") (codes "a1") today 7 (codes "mail") []).1

get_original-save_example :
    (get_original plain_box (codes "a1") today held ≡ some (codes "mail"))
    × (get_meta (codes "a1") today held
        ≡ some (stamped (codes "10:00") (codes "a1") today 7 (codes "mail")))
get_original-save_example =
    get_original-save plain_box (codes "10:00") (codes "a1") today 7 (codes "mail") []
      plain_box-IsFaithful

abbrev marked : Option Bool × Days ℕ
marked =
    mark (record { blob_write = false; meta_write = false; blob_unlink = false }) (codes "11:00")
      (codes "a1") today released (codes "root") held

marked_test : marked.0 ≡ some true
unfolding quarantine
marked_test = refl

mark_lem_example :
    (get_original plain_box (codes "a1") today marked.1 ≡ none)
    × ((rec : Meta ℕ) × (get_meta (codes "a1") today held ≡ some rec)
        × (get_meta (codes "a1") today marked.1
            ≡ some (acted_on released (codes "root") (codes "11:00") rec)))
mark_lem_example =
    mark_lem plain_box (record { blob_write = false; meta_write = false; blob_unlink = false })
      (codes "11:00") (codes "a1") today released (codes "root") held marked_test

listing_tests :
    (list_entries 5 none false held
      ≡ stamped (codes "10:00") (codes "a1") today 7 (codes "mail") ∷ [])
    × (list_entries 5 none false marked.1 ≡ [])
unfolding quarantine
listing_tests = (refl, refl)

-- Two days, the earlier one first in the store.
abbrev two_days : Days ℕ
two_days =
    (save plain_box (record { blob_write = false; meta_write = false; blob_unlink = false })
      (codes "11:00") (codes "b1") (codes "2026-01-01") 8 (codes "old") []).1
    ++ held

latest_test :
    list_entries 1 none false two_days
    ≡ stamped (codes "10:00") (codes "a1") today 7 (codes "mail") ∷ []
unfolding quarantine
latest_test = refl

list_entries-IsLatest_example :
    (dirs : List (Text × Dir ℕ)) × Perm dirs two_days
    × IsLatestFirst dirs
    × IsLatest 1 dirs [] (list_entries 1 none false two_days)
list_entries-IsLatest_example = list_entries-IsLatest 1 two_days

abbrev parse_day : Text → Option ℕ
parse_day name = if text_eq name today then some 20455 else none

prune_lem_example :
    ((day : Text)
      → (is_before 20456 (parse_day day) ≡ true → get day (prune parse_day 20456 held).1 ≡ none)
        × (is_before 20456 (parse_day day) ≡ false
            → get day (prune parse_day 20456 held).1 ≡ get day held))
    × (entry_count held
        ≡ (prune parse_day 20456 held).0 + entry_count (prune parse_day 20456 held).1)
prune_lem_example = prune_lem parse_day 20456 held
