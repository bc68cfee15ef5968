-- ===== src/Admin/Requests.antt =====
-- What the routes of the admin application share (spamallam/app/admin/app.py): the request, the
-- guards that they start with, and forms.
use spamallam.Prelude.{
  ℕ, Bool, not, ◌&&◌, ◌||◌, Option, List, [], ◌∷◌, map, leb, ◌==◌, if◌then◌else◌, keep, is_empty,
  Text, Bytes, strip,
}
use spamallam.Store.Users.{Users}
use spamallam.Admin.Sessions.{
  Serializer, Guarded, granted, denied, require_user, require_admin, check_csrf, check_csrf_header,
}

-- The serializers of security.py, and the library functions that the routes and the stores call.
pub record Keys : Type 0 where
  pub sessions : Serializer
  pub csrf : Serializer
  pub challenges : Serializer
  pub b64url : Bytes → Text
  pub unb64url : Text → Option Bytes
  pub hash_of : Text → Text
  pub parse_address : Text → Text

-- The session cookie, the CSRF token of the form, and that of the header.
pub record AdminRequest : Type 0 where
  pub cookie : Option Text
  pub csrf : Text
  pub csrf_header : Option Text

abbrev pub csrf_passed : Text → Guarded (Unit {0}) → Guarded Text
csrf_passed username (denied status) = denied status
csrf_passed username (granted ok) = granted username

module _ (keys : Keys) where
  abbrev pub with_form_token : Text → Guarded Text → Guarded Text
  with_form_token token (denied status) = denied status
  with_form_token token (granted username) =
      csrf_passed username (check_csrf keys.csrf username token)

  abbrev pub with_header_token : Option Text → Guarded Text → Guarded Text
  with_header_token header (denied status) = denied status
  with_header_token header (granted username) =
      csrf_passed username (check_csrf_header keys.csrf username header)

  -- require_user, then check_csrf
  unfoldable pub user_form : Users → AdminRequest → Guarded Text
  user_form users request =
      with_form_token request.csrf (require_user keys.sessions users request.cookie)

  -- require_admin, then check_csrf
  unfoldable pub admin_form : Users → AdminRequest → Guarded Text
  admin_form users request =
      with_form_token request.csrf (require_admin keys.sessions users request.cookie)

  -- require_user, then check_csrf_header
  unfoldable pub user_call : Users → AdminRequest → Guarded Text
  user_call users request =
      with_header_token request.csrf_header (require_user keys.sessions users request.cookie)

-- A route: what it does for the user that its guard lets through.
abbrev pub run_as : {S : Type 0} → Guarded Text → (Text → Guarded Text × S) → S → Guarded Text × S
run_as (denied status) body s = (denied status, s)
run_as (granted username) body s = body username

-- The characters at which str.splitlines() splits.
abbrev pub is_line_break : ℕ → Bool
is_line_break c = leb 10 c && leb c 13 || leb 28 c && leb c 30 || c == 133 || c == 8232 || c == 8233

abbrev pub line_step : ℕ → List Text → List Text
line_step c [] = (c ∷ []) ∷ []
line_step c (w ∷ ws) = if is_line_break c then [] ∷ w ∷ ws else (c ∷ w) ∷ ws

-- splitlines(), with an empty line more inside CR LF and at the end.
unfoldable pub lines_of : Text → List Text
lines_of [] = [] ∷ []
lines_of (c ∷ s) = line_step c (lines_of s)

-- [a.strip() for a in addresses.splitlines() if a.strip()]
unfoldable pub address_lines : Text → List Text
address_lines addresses = keep (λ a. not (is_empty a)) (map strip (lines_of addresses))
