-- ===== src/Admin/Sessions/Tests.antt =====
-- Runs of the guards (spamallam/app/admin/security.py).
use spamallam.Prelude.{
  ◌≡◌, refl, ◌↔◌, true, none, some, [], ◌∷◌, Text, codes, Map, get, text_eq, partition,
}
use spamallam.Store.Users.{User, Users}
use spamallam.Admin.Sessions.{
  Serializer, granted, denied, read_session, require_user, require_admin, seal_challenge,
  open_challenge, csrf_token, check_csrf, rp_id, expected_origin,
}
use spamallam.Admin.Sessions.Granting.{IsSession, require_admin_lem, open_challenge-seal_challenge}

guards : Unit {0}
unfolding read_session require_user require_admin seal_challenge open_challenge csrf_token
    check_csrf get text_eq partition rp_id expected_origin
guards = tt

-- A serializer whose one token carries the given payload.
abbrev one_token : Map Text → Serializer
one_token m = record { dumps = λ p. codes "x"; loads = λ token age. some m }

abbrev root : User
root = record {
  display = codes "Root";
  is_admin = true;
  created = [];
  timezone = codes "UTC";
  credentials = [];
  addresses = [];
}

abbrev users : Users
users = (codes "root", root) ∷ []

abbrev sessions : Serializer
sessions = one_token ((codes "u", codes "root") ∷ [])

admin_tests :
    (require_admin sessions users (some (codes "x")) ≡ granted (codes "root"))
    × (require_admin sessions users none ≡ denied 401)
    × (require_admin sessions [] (some (codes "x")) ≡ denied 401)
unfolding guards
admin_tests = (refl, refl, refl)

require_admin_lem_example :
    IsSession sessions users (some (codes "x")) (codes "root")
    × ((user : User) × (get (codes "root") users ≡ some user) × (user.is_admin ≡ true))
require_admin_lem_example =
    require_admin_lem sessions users (some (codes "x")) (codes "root") admin_tests.0

abbrev challenges : Serializer
challenges = one_token ((codes "c", codes "123") ∷ (codes "ctx", codes "login") ∷ [])

open_challenge-seal_challenge_example :
    (open_challenge challenges
        (λ b. b)
        (λ t. some t)
        (seal_challenge challenges (λ b. b) (λ t. some t) (codes "123") (codes "login"))
        (codes "enroll")
      ≡ granted (codes "123"))
    ↔ (codes "login" ≡ codes "enroll")
open_challenge-seal_challenge_example =
    open_challenge-seal_challenge challenges (λ b. b) (λ t. some t) (codes "123") (codes "login")
      (codes "enroll") refl (λ b. refl)

origin_tests :
    (rp_id (codes "mail.x.org:8443") ≡ codes "mail.x.org")
    × (expected_origin
          (λ url. (codes "http", some (codes "mail.x.org")))
          (codes "mail.x.org:8443")
          (some (codes "http://mail.x.org"))
        ≡ codes "https://mail.x.org:8443")
unfolding guards
origin_tests = (refl, refl)
