-- ===== src/Store/Quarantine/Lifecycle.antt =====
-- The life of an entry (spamallam/app/store/quarantine.py, `save`, `get_original` and `mark`).
use spamallam.Prelude.{
  ◌≡◌, refl, ap, ◌∙◌, inl, inr, Bool-cases, Bool, true, false, Option, none, some, Text, Bytes, get,
  get-put, get-remove,
}
use spamallam.Store.Quarantine.{
  Status, Meta, Box, Faults, Days, dir_of, put_blob, put_meta, unlink_blob, stamped, save, get_meta,
  get_original, decrypted, parsed, acted_on, mark_found, mark,
}

module _ {Info : Type 0} (day id : Text) (store : Days Info) where
  blob-put_blob : (blob : Text) → get id (dir_of day (put_blob day id blob store)).blobs ≡ some blob
  blob-put_blob blob = simp (get-put day _ store) (get-put id blob _)

  blob-put_meta :
      (rec : Meta Info)
      → get id (dir_of day (put_meta day id rec store)).blobs ≡ get id (dir_of day store).blobs
  blob-put_meta rec = simp (get-put day _ store)

  meta-put_meta :
      (rec : Meta Info) → get id (dir_of day (put_meta day id rec store)).metas ≡ some (some rec)
  meta-put_meta rec = simp (get-put day _ store) (get-put id _ _)

  blob-unlink_blob : get id (dir_of day (unlink_blob day id store)).blobs ≡ none
  blob-unlink_blob = simp (get-put day _ store) (get-remove id _)

  meta-unlink_blob :
      get id (dir_of day (unlink_blob day id store)).metas ≡ get id (dir_of day store).metas
  meta-unlink_blob = simp (get-put day _ store)

-- The box gives back what it encrypted.
abbrev pub IsFaithful : Box → Type 0
IsFaithful box = (b : Bytes) → box.decrypt (box.encrypt b) ≡ some b

module _ {Info : Type 0} (box : Box) (now id day : Text) (info : Info) (original : Bytes)
    (store : Days Info) where
  abbrev saved : Days Info
  saved =
      (save box (record { blob_write = false; meta_write = false; blob_unlink = false }) now id day
        info original store).1

  -- If no write fails and decryption undoes encryption, what was saved comes back: the message byte
  -- for byte, and its metadata, live, with its size.
  pub get_original-save :
      IsFaithful box
      → (get_original box id day saved ≡ some original)
        × (get_meta id day saved ≡ some (stamped now id day info original))
  unfolding save get_original get_meta
  get_original-save faithful =
      let written = put_blob day id (box.encrypt original) store in
      let rec = stamped now id day info original in
      (
        ap (decrypted box)
              (blob-put_meta day id written rec ∙ blob-put_blob day id store (box.encrypt original))
            ∙ faithful original,
        ap parsed (meta-put_meta day id written rec),
      )

module _ {Info : Type 0} (box : Box) (faults : Faults) (now id day : Text) (status : Status)
    (actor : Text) (store : Days Info) where
  abbrev marked : Option Bool × Days Info
  marked = mark faults now id day status actor store

  mark_found_lem :
      (o : Option (Meta Info))
      → (mark_found faults now id day status actor store o).0 ≡ some true
      → (rec : Meta Info) × (o ≡ some rec)
        × ((mark_found faults now id day status actor store o).1
            ≡ unlink_blob day id (put_meta day id (acted_on status actor now rec) store))
  mark_found_lem none e = cc
  mark_found_lem (some rec) e = elim (Bool-cases faults.meta_write) [
    | inl f ↦ cc (simp f at e)
    | inr f ↦ elim (Bool-cases faults.blob_unlink) [
      | inl g ↦ cc (simp (f, g) at e)
      | inr g ↦ (rec, refl, simp (f, g))
    ]
  ]

  -- An entry that was acted on: its message is gone for good, and its metadata stays, with the new
  -- status and with who acted and when.
  pub mark_lem :
      marked.0 ≡ some true
      → (get_original box id day marked.1 ≡ none)
        × ((rec : Meta Info) × (get_meta id day store ≡ some rec)
            × (get_meta id day marked.1 ≡ some (acted_on status actor now rec)))
  unfolding mark
  mark_lem e =
      let (rec, is, end) = mark_found_lem (get_meta id day store) e in
      let written = put_meta day id (acted_on status actor now rec) store in
      unfold get_original get_meta in
      (
        ap (λ (s : Days Info). decrypted box (get id (dir_of day s).blobs)) end
            ∙ ap (decrypted box) (blob-unlink_blob day id written),
        (
          rec,
          is,
          ap (λ (s : Days Info). parsed (get id (dir_of day s).metas)) end
              ∙ ap parsed (
                  meta-unlink_blob day id written
                  ∙ meta-put_meta day id store (acted_on status actor now rec)),
        ),
      )
