-- ===== src/Admin/Desk/Acting.antt =====
-- The routes that act on an entry of the quarantine (spamallam/app/admin/app.py): preview, release
-- and deletion.
use spamallam.Prelude.{
  Bool, ◌&&◌, ◌||◌, Option, none, some, List, [], ◌∷◌, ◌++◌, map, if◌then◌else◌, is_empty, Text,
  Bytes, codes, strip, lower, get,
}
use spamallam.Pipeline.Headers.Verdict.{prepend_headers}
use spamallam.Pipeline.Overrides.{domain_of}
use spamallam.Pipeline.Sanitize.Preview.{preview_document}
use spamallam.Store.Quarantine.{released, deleted, Meta, Days, get_original, mark}
use spamallam.Store.Users.{Users, owned_recipients}
use spamallam.Admin.Sessions.{Guarded, granted, denied, check_csrf}
use spamallam.Admin.Requests.{AdminRequest, csrf_passed}
use spamallam.Admin.Desk.{
  Held, previewed, deleted_entry, released_entry, whitelist_changed, Desk, Station, sorted_set,
  sorted_texts, same_texts, noted, release_note, is_admin, load_entry,
}

module _ (station : Station) (users : Users) where
  abbrev pub shown_preview : Text → Text → Text → Held → Option Bytes → Desk → Guarded Text × Desk
  shown_preview username day id held none s = (denied 404, s)
  shown_preview username day id held (some raw) s = (
    granted (preview_document station.reader raw),
    noted username (previewed id day held.envelope_from) s,
  )

  abbrev pub preview_of : Text → Text → Guarded (Text × Meta Held) → Desk → Guarded Text × Desk
  preview_of day id (denied status) s = (denied status, s)
  preview_of day id (granted (username, rec)) s =
      shown_preview username day id rec.info (get_original station.box id day s.days) s

  -- GET /quarantine/{day}/{entry_id}/preview
  unfoldable pub quarantine_preview : AdminRequest → Text → Text → Desk → Guarded Text × Desk
  quarantine_preview request day id s =
      preview_of day id (load_entry station users request.cookie day id s.days) s

  -- The recipients that a release by the user goes to.
  unfoldable pub release_rcpts : Text → Held → List Text
  release_rcpts username held =
      if is_admin station users username
      then held.rcpt_tos
      else owned_recipients station.keys.parse_address (get username users) held.rcpt_tos

  abbrev pub or_domain : Text → Text → Text
  or_domain a b = if is_empty a then b else a

  -- The domain that is whitelisted with a release, or nothing.
  abbrev pub release_domain : Text → Bool → Held → Text
  release_domain username wanted held =
      if wanted && is_admin station users username
      then or_domain (domain_of station.keys.parse_address held.envelope_from)
          (domain_of station.keys.parse_address held.from_header)
      else []

  abbrev pub whitelist_domain : Text → Text → Desk → Desk
  whitelist_domain username dom s =
      let merged = sorted_set (dom ∷ map (λ d. strip (lower d)) s.whitelist) in
      if is_empty dom || same_texts merged (sorted_texts s.whitelist)
      then s
      else noted username (whitelist_changed s.whitelist merged) (record s { whitelist = merged })

  -- After the entry is marked; an exception of the store leaves the message sent.
  abbrev pub finish_release :
      Text
      → Text
      → Text
      → Bool
      → Held
      → List Text
      → Option Bool × Days Held
      → Desk
      → Guarded Text × Desk
  finish_release username day id wanted held rcpts (none, days) s =
      (denied 500, record s { days = days })
  finish_release username day id wanted held rcpts (some made, days) s =
      let dom = release_domain username wanted held in
      (
        granted dom,
        noted username (released_entry id day held.envelope_from rcpts dom)
            (whitelist_domain username dom (record s { days = days })),
      )

  abbrev pub hand_over :
      Text → Text → Text → Bool → Held → List Text → Option Bytes → Desk → Guarded Text × Desk
  hand_over username day id wanted held rcpts none s = (denied 500, s)
  hand_over username day id wanted held rcpts (some message) s =
      let sent = record s {
        sent =
            s.sent
            ++ record { mail_from = held.envelope_from; rcpts = rcpts; message = message } ∷ [];
      } in
      if station.reinject held.envelope_from rcpts message
      then finish_release username day id wanted held rcpts
          (mark station.faults station.now id day released username s.days) sent
      else (denied 502, s)

  abbrev pub release_to :
      Text → Text → Text → Bool → Held → List Text → Option Bytes → Desk → Guarded Text × Desk
  release_to username day id wanted held rcpts none s = (denied 404, s)
  release_to username day id wanted held rcpts (some raw) s =
      if is_empty rcpts
      then (denied 400, s)
      else hand_over username day id wanted held rcpts
          (prepend_headers raw ((codes "X-SpamAllam-Released", release_note username held) ∷ [])) s

  abbrev pub release_as : Text → Text → Bool → Meta Held → Guarded Text → Desk → Guarded Text × Desk
  release_as day id wanted rec (denied status) s = (denied status, s)
  release_as day id wanted rec (granted username) s =
      release_to username day id wanted rec.info (release_rcpts username rec.info)
        (get_original station.box id day s.days) s

  abbrev pub release_loaded :
      Text → Text → Text → Bool → Guarded (Text × Meta Held) → Desk → Guarded Text × Desk
  release_loaded token day id wanted (denied status) s = (denied status, s)
  release_loaded token day id wanted (granted (username, rec)) s =
      release_as day id wanted rec
        (csrf_passed username (check_csrf station.keys.csrf username token)) s

  -- POST /quarantine/release: the whitelisted domain, or nothing.
  unfoldable pub quarantine_release : AdminRequest → Text → Text → Bool → Desk → Guarded Text × Desk
  quarantine_release request day id wanted s =
      release_loaded request.csrf day id wanted
        (load_entry station users request.cookie day id s.days) s

  abbrev pub finish_delete :
      Text → Text → Text → Held → Option Bool × Days Held → Desk → Guarded Text × Desk
  finish_delete username day id held (none, days) s = (denied 500, record s { days = days })
  finish_delete username day id held (some made, days) s = (
    granted [],
    noted username (deleted_entry id day held.envelope_from) (record s { days = days }),
  )

  abbrev pub delete_as : Text → Text → Meta Held → Guarded Text → Desk → Guarded Text × Desk
  delete_as day id rec (denied status) s = (denied status, s)
  delete_as day id rec (granted username) s =
      finish_delete username day id rec.info
        (mark station.faults station.now id day deleted username s.days) s

  abbrev pub delete_loaded :
      Text → Text → Text → Guarded (Text × Meta Held) → Desk → Guarded Text × Desk
  delete_loaded token day id (denied status) s = (denied status, s)
  delete_loaded token day id (granted (username, rec)) s =
      delete_as day id rec (csrf_passed username (check_csrf station.keys.csrf username token)) s

  -- POST /quarantine/delete
  unfoldable pub quarantine_delete : AdminRequest → Text → Text → Desk → Guarded Text × Desk
  quarantine_delete request day id s =
      delete_loaded request.csrf day id (load_entry station users request.cookie day id s.days) s
