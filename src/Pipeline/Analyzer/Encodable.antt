-- ===== src/Pipeline/Analyzer/Encodable.antt =====
-- The texts that the pipeline puts into headers (spamallam/app/pipeline/analyzer.py), and when they
-- can be encoded.
use spamallam.Prelude.{
  refl, Bool, true, false, Option, none, some, List, [], ◌∷◌, ◌++◌, map, All, All-append, All-take,
  All-strip, if◌then◌else◌, is_empty, elem, Text, codes, lower, All-strip_left, HasNoSurrogate,
}
use spamallam.Pipeline.Headers.Verdict.{skipped}
use spamallam.Pipeline.Headers.Encoding.{IsEncodable}
use spamallam.Pipeline.Headers.Surrogates.{
  HasNoSurrogate-of_test, HasNoSurrogate-lower, HasNoSurrogate-if,
}
use spamallam.Pipeline.Overrides.{
  Overrides, clean_pattern, domain_hit, domain_matches, domain_rule, domain_of, drop_tags, in_tag,
  base_recipient, sender_rule, recipient_rule, first_rule, match_whitelist, or_rule,
  check_blocklist,
}
use spamallam.Pipeline.Analyzer.Scoring.{
  whitelisted_verdict, blocklisted_verdict, disabled_verdict, error_verdict, bypass_verdict,
}

-- A rule, where there is one, can be encoded.
abbrev pub IsRule : Option Text → Type 0
IsRule none = Unit
IsRule (some rule) = HasNoSurrogate rule

HasNoSurrogate-clean_pattern :
    (pat : Text) → HasNoSurrogate pat → HasNoSurrogate (clean_pattern pat)
unfolding clean_pattern
HasNoSurrogate-clean_pattern pat h =
    All-strip_left _ _ _ (All-strip _ (lower pat) (HasNoSurrogate-lower pat h))

IsRule-if : (b : Bool) (o p : Option Text) → IsRule o → IsRule p → IsRule (if b then o else p)
IsRule-if true o p h k = h
IsRule-if false o p h k = k

IsRule-domain_matches :
    (domain : Text) (pats : List Text)
    → All HasNoSurrogate pats
    → IsRule (domain_matches domain pats)
unfolding domain_matches
IsRule-domain_matches domain [] h = tt
IsRule-domain_matches domain (pat ∷ pats) (p, h) =
    let k = IsRule-domain_matches domain pats h in
    IsRule-if (is_empty (clean_pattern pat)) _ _ k (
      IsRule-if (domain_hit domain (clean_pattern pat)) (some (clean_pattern pat)) _
        (HasNoSurrogate-clean_pattern pat p) k)

IsRule-domain_rule : (o : Option Text) → IsRule o → IsRule (domain_rule o)
IsRule-domain_rule none h = tt
IsRule-domain_rule (some p) h =
    All-append _ (codes "domain:") p (HasNoSurrogate-of_test (codes "domain:") refl) h

HasNoSurrogate-drop_tags :
    (inside : Bool) (s : Text) → HasNoSurrogate s → HasNoSurrogate (drop_tags inside s)
unfolding drop_tags
HasNoSurrogate-drop_tags inside [] h = tt
HasNoSurrogate-drop_tags inside (c ∷ s) (p, h) =
    let k = HasNoSurrogate-drop_tags (in_tag inside c s) s h in
    HasNoSurrogate-if (in_tag inside c s) _ _ k (p, k)

module _ (parse_address : Text → Text) where
  IsRule-sender_rule :
      (patterns : List Text) (sender : Text)
      → All HasNoSurrogate patterns
      → IsRule (sender_rule parse_address patterns sender)
  unfolding sender_rule
  IsRule-sender_rule patterns sender h =
      let dom = domain_of parse_address sender in
      IsRule-if (is_empty dom) none _ tt
        (IsRule-domain_rule (domain_matches dom patterns) (IsRule-domain_matches dom patterns h))

  abbrev pub HasCleanAddresses : List Text → Type 0
  HasCleanAddresses = All (λ r. HasNoSurrogate (parse_address r))

  IsRule-recipient_rule :
      (wanted rcpts : List Text)
      → HasCleanAddresses rcpts
      → IsRule (recipient_rule parse_address wanted rcpts)
  unfolding recipient_rule base_recipient
  IsRule-recipient_rule wanted [] h = tt
  IsRule-recipient_rule wanted (r ∷ rcpts) (p, h) =
      let base = base_recipient parse_address r in
      IsRule-if (elem base wanted) (some (codes "recipient:" ++ base)) _
        (All-append _ (codes "recipient:") base (HasNoSurrogate-of_test (codes "recipient:") refl) (
          HasNoSurrogate-drop_tags false _
            (All-strip _ _ (HasNoSurrogate-lower (parse_address r) p))))
        (IsRule-recipient_rule wanted rcpts h)

  IsRule-first_rule :
      (a b c : Option Text)
      → IsRule a
      → IsRule b
      → IsRule c
      → IsRule (first_rule parse_address a b c).0
  IsRule-first_rule (some r) b c h k l = h
  IsRule-first_rule none (some r) c h k l = k
  IsRule-first_rule none none (some r) h k l = l
  IsRule-first_rule none none none h k l = tt

  pub IsRule-match_whitelist :
      (o : Overrides) (sender from_header : Text) (rcpts : List Text)
      → All HasNoSurrogate o.whitelist_domains
      → HasCleanAddresses rcpts
      → IsRule (match_whitelist parse_address o sender from_header rcpts).0
  unfolding match_whitelist
  IsRule-match_whitelist o sender from_header rcpts h k =
      IsRule-first_rule _ _ _ (IsRule-sender_rule o.whitelist_domains sender h)
        (IsRule-sender_rule o.whitelist_domains from_header h)
        (IsRule-recipient_rule (map (base_recipient parse_address) o.whitelist_recipients) rcpts k)

  IsRule-or_rule : (a b : Option Text) → IsRule a → IsRule b → IsRule (or_rule parse_address a b)
  IsRule-or_rule none b h k = k
  IsRule-or_rule (some r) b h k = h

  pub IsRule-check_blocklist :
      (o : Overrides) (sender from_header : Text)
      → All HasNoSurrogate o.blocklist_domains
      → IsRule (check_blocklist parse_address o sender from_header)
  unfolding check_blocklist
  IsRule-check_blocklist o sender from_header h =
      IsRule-or_rule _ _ (IsRule-sender_rule o.blocklist_domains sender h)
        (IsRule-sender_rule o.blocklist_domains from_header h)

-- The verdicts that the pipeline sets itself can be encoded.
pub IsEncodable-skipped : IsEncodable skipped
IsEncodable-skipped = record {
  verdict = HasNoSurrogate-of_test (codes "SKIPPED") refl;
  category = tt;
  reason = tt;
  model = tt;
  tools_used = tt;
  whitelisted = tt;
  labels = tt;
}

pub IsEncodable-whitelisted_verdict :
    (rule : Text) → HasNoSurrogate rule → IsEncodable (whitelisted_verdict rule)
IsEncodable-whitelisted_verdict rule h = record {
  verdict = HasNoSurrogate-of_test (codes "HAM") refl;
  category = HasNoSurrogate-of_test (codes "whitelisted") refl;
  reason =
      All-append _ (codes "admin whitelist override (" ++ rule) _
        (All-append _ (codes "admin whitelist override (") rule
          (HasNoSurrogate-of_test (codes "admin whitelist override (") refl) h)
        (refl, tt);
  model = tt;
  tools_used = tt;
  whitelisted =
      All-append _ (codes "yes; rule=") rule (HasNoSurrogate-of_test (codes "yes; rule=") refl) h;
  labels = tt;
}

pub IsEncodable-blocklisted_verdict :
    (rule : Text) → HasNoSurrogate rule → IsEncodable (blocklisted_verdict rule)
IsEncodable-blocklisted_verdict rule h = record {
  verdict = HasNoSurrogate-of_test (codes "SPAM") refl;
  category = HasNoSurrogate-of_test (codes "blocklisted") refl;
  reason =
      All-append _ (codes "admin blocklist override (" ++ rule) _
        (All-append _ (codes "admin blocklist override (") rule
          (HasNoSurrogate-of_test (codes "admin blocklist override (") refl) h)
        (refl, tt);
  model = tt;
  tools_used = tt;
  whitelisted = tt;
  labels = tt;
}

pub IsEncodable-disabled_verdict : IsEncodable disabled_verdict
IsEncodable-disabled_verdict = record {
  verdict = HasNoSurrogate-of_test (codes "SKIPPED") refl;
  category = tt;
  reason = HasNoSurrogate-of_test (codes "AI analysis disabled") refl;
  model = tt;
  tools_used = tt;
  whitelisted = tt;
  labels = tt;
}

pub IsEncodable-error_verdict :
    (text : Text) → HasNoSurrogate text → IsEncodable (error_verdict text)
IsEncodable-error_verdict text h = record {
  verdict = HasNoSurrogate-of_test (codes "ERROR") refl;
  category = tt;
  reason = All-take _ 300 text h;
  model = tt;
  tools_used = tt;
  whitelisted = tt;
  labels = tt;
}

pub IsEncodable-bypass_verdict : IsEncodable bypass_verdict
IsEncodable-bypass_verdict = record {
  verdict = HasNoSurrogate-of_test (codes "SKIPPED") refl;
  category = HasNoSurrogate-of_test (codes "rspamd_bypass") refl;
  reason =
      HasNoSurrogate-of_test (codes "AI analysis skipped: rspamd already rejected (bypass enabled)")
        refl;
  model = tt;
  tools_used = tt;
  whitelisted = tt;
  labels = tt;
}
