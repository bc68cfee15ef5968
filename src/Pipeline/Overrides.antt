-- ===== src/Pipeline/Overrides.antt =====
-- Whitelist and blocklist overrides (spamallam/app/pipeline/overrides.py).
pub mod Matching
pub mod Addressing
mod Tests
use spamallam.Prelude.{
  ℕ, Bool, true, false, not, ◌&&◌, ◌||◌, Option, none, some, List, [], ◌∷◌, ◌++◌, ◌==◌,
  if◌then◌else◌, is_some, is_empty, elem, map, Text, codes, text_eq, ends_with, lower, strip,
  strip_left,
}

pub record Overrides : Type 0 where
  pub whitelist_domains : List Text
  pub whitelist_recipients : List Text
  pub blocklist_domains : List Text
  -- cfg["overrides"].get("require_auth_for_whitelist", True)
  pub require_auth : Bool

abbrev pub has_at : Text → Bool
has_at [] = false
has_at (c ∷ s) = c == 64 || has_at s

-- The text behind the last `@`, or the whole.
abbrev pub after_last_at : Text → Text
after_last_at [] = []
after_last_at (c ∷ s) =
    let rest = after_last_at s in if has_at s then rest else if c == 64 then s else c ∷ s

-- Whether the code is dropped: a `+` begins a run that ends before the next `@`, if there is one.
abbrev pub in_tag : Bool → ℕ → Text → Bool
in_tag inside c s = if inside then not (c == 64) else c == 43 && has_at s

-- `re.sub(r"\+[^@]*@", "@", addr)`; `inside` holds within a match.
unfoldable pub drop_tags : Bool → Text → Text
drop_tags inside [] = []
drop_tags inside (c ∷ s) =
    let tagged = in_tag inside c s in
    let rest = drop_tags tagged s in if tagged then rest else c ∷ rest

-- `(pat or "").lower().strip().lstrip("@")`
unfoldable pub clean_pattern : Text → Text
clean_pattern pat = strip_left (λ c. c == 64) (strip (lower pat))

abbrev pub domain_hit : Text → Text → Bool
domain_hit domain p = text_eq domain p || ends_with (46 ∷ p) domain

-- _domain_matches(domain, patterns)
unfoldable pub domain_matches : Text → List Text → Option Text
unfolding clean_pattern
domain_matches domain [] = none
domain_matches domain (pat ∷ pats) =
    let p = clean_pattern pat in
    let rest = domain_matches domain pats in
    if is_empty p then rest else if domain_hit domain p then some p else rest

pub data Source : Type 0 where
  envelope header recipient no_source : Source

abbrev pub spf_confirms : Source → Bool
spf_confirms envelope = true
spf_confirms _ = false

abbrev pub is_recipient : Source → Bool
is_recipient recipient = true
is_recipient _ = false

abbrev pub domain_rule : Option Text → Option Text
domain_rule none = none
domain_rule (some p) = some (codes "domain:" ++ p)

-- `parseaddr(address or "")[1]` of the standard library's email.utils.
module _ (parse_address : Text → Text) where
  -- _domain_of(address)
  unfoldable pub domain_of : Text → Text
  domain_of address =
      let addr = parse_address address in
      if has_at addr then strip (lower (after_last_at addr)) else []

  -- _base_recipient(address)
  unfoldable pub base_recipient : Text → Text
  unfolding drop_tags
  base_recipient address = drop_tags false (strip (lower (parse_address address)))

  -- One round of the loops over the senders.
  unfoldable pub sender_rule : List Text → Text → Option Text
  unfolding domain_of domain_matches
  sender_rule patterns sender =
      let dom = domain_of sender in
      if is_empty dom then none else domain_rule (domain_matches dom patterns)

  unfoldable pub recipient_rule : List Text → List Text → Option Text
  unfolding base_recipient
  recipient_rule wanted [] = none
  recipient_rule wanted (r ∷ rcpts) =
      let rest = recipient_rule wanted rcpts in
      let base = base_recipient r in
      if elem base wanted then some (codes "recipient:" ++ base) else rest

  abbrev pub first_rule : Option Text → Option Text → Option Text → Option Text × Source
  first_rule (some r) q o = (some r, envelope)
  first_rule none (some r) o = (some r, header)
  first_rule none none (some r) = (some r, recipient)
  first_rule none none none = (none, no_source)

  -- match_whitelist(overrides, envelope_from, from_header, rcpt_tos)
  unfoldable pub match_whitelist : Overrides → Text → Text → List Text → Option Text × Source
  unfolding sender_rule recipient_rule
  match_whitelist o envelope_from from_header rcpt_tos =
      first_rule (sender_rule o.whitelist_domains envelope_from)
        (sender_rule o.whitelist_domains from_header)
        (recipient_rule (map base_recipient o.whitelist_recipients) rcpt_tos)

  abbrev pub or_rule : Option Text → Option Text → Option Text
  or_rule (some r) q = some r
  or_rule none q = q

  -- check_blocklist(overrides, envelope_from, from_header)
  unfoldable pub check_blocklist : Overrides → Text → Text → Option Text
  unfolding sender_rule
  check_blocklist o envelope_from from_header =
      or_rule (sender_rule o.blocklist_domains envelope_from)
        (sender_rule o.blocklist_domains from_header)

-- whitelist_is_authenticated(rule, source, symbols); the symbols by their names.
unfoldable pub whitelist_is_authenticated : Text → Source → List Text → Bool
whitelist_is_authenticated rule source symbols =
    is_recipient source
    || is_empty rule
    || elem (codes "DMARC_POLICY_ALLOW") symbols
    || spf_confirms source && elem (codes "R_SPF_ALLOW") symbols
