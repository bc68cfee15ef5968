-- ===== src/Tools/Zones.antt =====
-- The time zones that a user may choose (spamallam/app/tools/timezones.py).
use spamallam.Prelude.{
  Bool, ◌&&◌, not, Option, none, some, List, [], ◌∷◌, map, elem, is_empty, if◌then◌else◌, Text,
  codes,
}

-- TIMEZONES: the name and the label of each.
abbrev pub timezones : List (Text × Text)
timezones =
    (codes "Pacific/Honolulu", codes "Hawaii-Aleutian Standard Time (HST) UTC-10")
    ∷ (codes "America/Anchorage", codes "Alaska Standard Time (AKST) UTC-9")
    ∷ (codes "America/Los_Angeles", codes "Pacific Standard Time (PST) UTC-8")
    ∷ (codes "America/Phoenix", codes "Mountain Standard Time - Arizona, no DST (MST) UTC-7")
    ∷ (codes "America/Denver", codes "Mountain Standard Time (MST) UTC-7")
    ∷ (codes "America/Chicago", codes "Central Standard Time (CST) UTC-6")
    ∷ (codes "America/New_York", codes "Eastern Standard Time (EST) UTC-5")
    ∷ (codes "America/Halifax", codes "Atlantic Standard Time (AST) UTC-4")
    ∷ (codes "America/Sao_Paulo", codes "Brasilia Time (BRT) UTC-3")
    ∷ (codes "UTC", codes "Coordinated Universal Time (UTC) UTC+0")
    ∷ (codes "Europe/London", codes "Greenwich Mean Time (GMT) UTC+0")
    ∷ (codes "Europe/Paris", codes "Central European Time (CET) UTC+1")
    ∷ (codes "Europe/Berlin", codes "Central European Time (CET) UTC+1")
    ∷ (codes "Europe/Athens", codes "Eastern European Time (EET) UTC+2")
    ∷ (codes "Europe/Moscow", codes "Moscow Standard Time (MSK) UTC+3")
    ∷ (codes "Asia/Dubai", codes "Gulf Standard Time (GST) UTC+4")
    ∷ (codes "Asia/Karachi", codes "Pakistan Standard Time (PKT) UTC+5")
    ∷ (codes "Asia/Kolkata", codes "India Standard Time (IST) UTC+5:30")
    ∷ (codes "Asia/Dhaka", codes "Bangladesh Standard Time (BST) UTC+6")
    ∷ (codes "Asia/Bangkok", codes "Indochina Time (ICT) UTC+7")
    ∷ (codes "Asia/Shanghai", codes "China Standard Time (CST) UTC+8")
    ∷ (codes "Asia/Singapore", codes "Singapore Standard Time (SGT) UTC+8")
    ∷ (codes "Asia/Tokyo", codes "Japan Standard Time (JST) UTC+9")
    ∷ (codes "Australia/Sydney", codes "Australian Eastern Standard Time (AEST) UTC+10")
    ∷ (codes "Pacific/Auckland", codes "New Zealand Standard Time (NZST) UTC+12")
    ∷ []

-- DEFAULT_TZ
abbrev pub default_tz : Text
default_tz = codes "UTC"

abbrev pub zone_name : Text × Text → Text
zone_name (name, label) = name

-- is_valid(name)
unfoldable pub is_valid_zone : Text → Bool
is_valid_zone name = elem name (map zone_name timezones)

-- normalize(name), where the name may be missing.
unfoldable pub normalize_zone : Option Text → Text
unfolding is_valid_zone
normalize_zone none = default_tz
normalize_zone (some name) = if not (is_empty name) && is_valid_zone name then name else default_tz
