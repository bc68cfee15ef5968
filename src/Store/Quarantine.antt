-- ===== src/Store/Quarantine.antt =====
-- The quarantine (spamallam/app/store/quarantine.py): day directories that hold, for each entry,
-- a metadata file and an encrypted message.
pub mod Lifecycle
pub mod Listing
pub mod Paging
pub mod Retention
mod Tests
use spamallam.Prelude.{
  ℕ, ◌+◌, Bool, true, false, not, ◌&&◌, ◌||◌, Option, none, some, List, [], ◌∷◌, ◌++◌, leb, ltb,
  if◌then◌else◌, is_empty, length, take, keep, Text, Bytes, text_eq, text_le, Map, get, put, remove,
}

pub data Status : Type 0 where
  quarantined released deleted : Status

abbrev pub is_live : Status → Bool
is_live quarantined = true
is_live _ = false

-- A file's metadata: what the pipeline knew of the message, of type Info, and the stamps.
pub record Meta (Info : Type 0) : Type 0 where
  pub info : Info
  pub id : Text
  pub day : Text
  pub ts : Text
  pub size : ℕ
  pub status : Status
  pub acted : Option (Text × Text)

-- The key's encryption, which draws a nonce on each call, and decryption, which may fail.
pub record Box : Type 0 where
  pub encrypt : Bytes → Text
  pub decrypt : Text → Option Bytes

-- Which of the writes of a call fail.
pub record Faults : Type 0 where
  pub blob_write : Bool
  pub meta_write : Bool
  pub blob_unlink : Bool

-- A metadata file that does not parse is `none`.
pub record Dir (Info : Type 0) : Type 0 where
  pub metas : Map (Option (Meta Info))
  pub blobs : Map Text

abbrev pub Days : Type 0 → Type 0
Days Info = Map (Dir Info)

abbrev pub decrypted : Box → Option Text → Option Bytes
decrypted box none = none
decrypted box (some text) = box.decrypt text

-- A directory whose name is a day before the cutoff; `strptime` is an argument.
abbrev pub is_before : ℕ → Option ℕ → Bool
is_before cutoff none = false
is_before cutoff (some at) = ltb at cutoff

module _ {Info : Type 0} where
  abbrev pub or_new : Option (Dir Info) → Dir Info
  or_new none = record { metas = []; blobs = [] }
  or_new (some d) = d

  abbrev pub dir_of : Text → Days Info → Dir Info
  dir_of day store = or_new (get day store)

  abbrev pub put_blob : Text → Text → Text → Days Info → Days Info
  put_blob day id blob store =
      let d = dir_of day store in put day (record d { blobs = put id blob d.blobs }) store

  abbrev pub put_meta : Text → Text → Meta Info → Days Info → Days Info
  put_meta day id rec store =
      let d = dir_of day store in put day (record d { metas = put id (some rec) d.metas }) store

  abbrev pub unlink_blob : Text → Text → Days Info → Days Info
  unlink_blob day id store =
      let d = dir_of day store in put day (record d { blobs = remove id d.blobs }) store

  abbrev pub stamped : Text → Text → Text → Info → Bytes → Meta Info
  stamped now id day info original = record {
    info = info;
    id = id;
    day = day;
    ts = now;
    size = length original;
    status = quarantined;
    acted = none;
  }

  -- save(entry_id, day, meta, original); `false` where it raises.
  unfoldable pub save :
      Box → Faults → Text → Text → Text → Info → Bytes → Days Info → Bool × Days Info
  save box faults now id day info original store =
      if faults.blob_write
      then (false, store)
      else (let written = put_blob day id (box.encrypt original) store in
          if faults.meta_write
          then (false, written)
          else (true, put_meta day id (stamped now id day info original) written))

  abbrev pub parsed : Option (Option (Meta Info)) → Option (Meta Info)
  parsed none = none
  parsed (some o) = o

  -- get_meta(entry_id, day)
  unfoldable pub get_meta : Text → Text → Days Info → Option (Meta Info)
  get_meta id day store = parsed (get id (dir_of day store).metas)

  -- get_original(entry_id, day)
  unfoldable pub get_original : Box → Text → Text → Days Info → Option Bytes
  get_original box id day store = decrypted box (get id (dir_of day store).blobs)

  abbrev pub acted_on : Status → Text → Text → Meta Info → Meta Info
  acted_on status actor now rec = record rec { status = status; acted = some (actor, now) }

  abbrev pub mark_found :
      Faults
      → Text
      → Text
      → Text
      → Status
      → Text
      → Days Info
      → Option (Meta Info)
      → Option Bool × Days Info
  mark_found faults now id day status actor store none = (some false, store)
  mark_found faults now id day status actor store (some rec) =
      if faults.meta_write
      then (none, store)
      else (let written = put_meta day id (acted_on status actor now rec) store in
          if faults.blob_unlink then (none, written) else (some true, unlink_blob day id written))

  -- mark(entry_id, day, status, actor); `none` where it raises.
  unfoldable pub mark :
      Faults → Text → Text → Text → Status → Text → Days Info → Option Bool × Days Info
  unfolding get_meta
  mark faults now id day status actor store =
      mark_found faults now id day status actor store (get_meta id day store)

  -- The records of a directory that the listing takes.
  abbrev pub taken : Bool → Option (Meta Info) → List (Meta Info) → List (Meta Info)
  taken tombstones none rest = rest
  taken tombstones (some rec) rest = if tombstones || is_live rec.status then rec ∷ rest else rest

  unfoldable pub records_of : Bool → Map (Option (Meta Info)) → List (Meta Info)
  records_of tombstones [] = []
  records_of tombstones ((id, o) ∷ metas) = taken tombstones o (records_of tombstones metas)

  -- `sort(key=ts, reverse=True)`, by insertion; it keeps the order of equals.
  abbrev pub insert_newest : Meta Info → List (Meta Info) → List (Meta Info)
  insert_newest r [] = r ∷ []
  insert_newest r (q ∷ rest) =
      let later = q ∷ insert_newest r rest in if text_le q.ts r.ts then r ∷ q ∷ rest else later

  abbrev pub newest_first : List (Meta Info) → List (Meta Info)
  newest_first [] = []
  newest_first (r ∷ rest) = insert_newest r (newest_first rest)

  -- The loop over the day directories, which stops once there are enough.
  unfoldable pub collect : ℕ → Bool → List (Meta Info) → List (Text × Dir Info) → List (Meta Info)
  unfolding records_of
  collect limit tombstones out [] = take limit out
  collect limit tombstones out ((day, d) ∷ dirs) =
      let more = newest_first (out ++ records_of tombstones d.metas) in
      let rest = collect limit tombstones more dirs in
      if leb limit (length more) then take limit more else rest

  -- `sorted(..., reverse=True)` of the directories, by their names.
  abbrev pub insert_day : Text × Dir Info → List (Text × Dir Info) → List (Text × Dir Info)
  insert_day (day, d) [] = (day, d) ∷ []
  insert_day (day, d) ((e, f) ∷ rest) =
      let later = (e, f) ∷ insert_day (day, d) rest in
      if text_le e day then (day, d) ∷ (e, f) ∷ rest else later

  abbrev pub latest_day_first : Days Info → List (Text × Dir Info)
  latest_day_first [] = []
  latest_day_first (x ∷ rest) = insert_day x (latest_day_first rest)

  abbrev pub only_day : Text → Option (Dir Info) → List (Text × Dir Info)
  only_day day none = []
  only_day day (some d) = (day, d) ∷ []

  abbrev pub day_dirs : Option Text → Days Info → List (Text × Dir Info)
  day_dirs none store = latest_day_first store
  day_dirs (some day) store = only_day day (get day store)

  -- list_entries(limit, day, include_tombstones)
  unfoldable pub list_entries : ℕ → Option Text → Bool → Days Info → List (Meta Info)
  unfolding collect
  list_entries limit day tombstones store = collect limit tombstones [] (day_dirs day store)

  -- prune(retention_days), at the cutoff; it counts the metadata files that it removes.
  unfoldable pub prune : (Text → Option ℕ) → ℕ → Days Info → ℕ × Days Info
  prune parse_day cutoff [] = (0, [])
  prune parse_day cutoff ((day, d) ∷ dirs) =
      let (removed, left) = prune parse_day cutoff dirs in
      if is_before cutoff (parse_day day)
      then (length d.metas + removed, left)
      else (removed, (day, d) ∷ left)
