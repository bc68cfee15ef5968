-- ===== src/Admin/Forms/Tools.antt =====
-- The form of the tools (spamallam/app/admin/app.py, `tools_save`).
use spamallam.Prelude.{
  Option, none, some, [], ◌∷◌, ◌++◌, if◌then◌else◌, is_empty, or_else, Text, Map, codes, text_eq,
  strip, get,
}
use spamallam.Admin.Sessions.{Guarded, granted, denied}
use spamallam.Admin.Forms.{Whole, Setting, whole, text, secret, Values, FormTools, clamp, on}

-- form.get(name, default)
abbrev pub field_or : Map Text → Text → Text → Text
field_or form name default = or_else (get name form) default

-- on(name)
abbrev pub box_on : Map Text → Text → Setting
box_on form name = on (field_or form name [])

abbrev pub or_default_text : Text → Text → Text
or_default_text value default = if is_empty value then default else value

module _ (tools : FormTools) (form : Map Text) where
  -- int(form.get(name, default) or default), with the default printed; `none` where it raises.
  abbrev pub int_field : Text → Text → Option Whole
  int_field name default = tools.parse_int (or_default_text (field_or form name default) default)

  abbrev pub policy_value : Setting
  policy_value = text (
      if text_eq (field_or form (codes "unifi_policy") []) (codes "auto")
      then codes "auto"
      else codes "suggest")

  abbrev pub key_value : Text → Text → Values
  key_value path name =
      let key = strip (field_or form name []) in
      if is_empty key then [] else (path, secret (tools.encrypt_text key)) ∷ []

  abbrev pub tools_fixed : Whole → Whole → Whole → Values
  tools_fixed max_ips young_days max_prefix =
      (codes "tools.ip_lookup.enabled", box_on form (codes "ip_lookup_enabled"))
      ∷ (codes "tools.ip_lookup.non_us_note", box_on form (codes "ip_lookup_non_us"))
      ∷ (codes "tools.ip_ownership.enabled", box_on form (codes "ip_ownership_enabled"))
      ∷ (codes "tools.ip_ownership.max_ips", whole max_ips)
      ∷ (codes "tools.domain_age.enabled", box_on form (codes "domain_age_enabled"))
      ∷ (codes "tools.domain_age.young_domain_days", whole young_days)
      ∷ (codes "tools.dns_verify.enabled", box_on form (codes "dns_verify_enabled"))
      ∷ (codes "tools.web_search.enabled", box_on form (codes "web_search_enabled"))
      ∷ (
        codes "tools.web_search.backend",
        text (field_or form (codes "web_search_backend") (codes "brave")),
      )
      ∷ (
        codes "tools.web_search.endpoint",
        text (strip (field_or form (codes "web_search_endpoint") [])),
      )
      ∷ (codes "tools.web_fetch.enabled", box_on form (codes "web_fetch_enabled"))
      ∷ (
        codes "tools.web_fetch.backend",
        text (field_or form (codes "web_fetch_backend") (codes "curl")),
      )
      ∷ (
        codes "tools.web_fetch.endpoint",
        text (strip (field_or form (codes "web_fetch_endpoint") [])),
      )
      ∷ (codes "tools.shared_provider_check.enabled", box_on form (codes "shared_provider_enabled"))
      ∷ (codes "tools.unifi_block.enabled", box_on form (codes "unifi_enabled"))
      ∷ (codes "tools.unifi_block.policy", policy_value)
      ∷ (codes "tools.unifi_block.url", text (strip (field_or form (codes "unifi_url") [])))
      ∷ (
        codes "tools.unifi_block.network_list",
        text (strip (field_or form (codes "unifi_network_list") (codes "spamallam-blocked"))),
      )
      ∷ (
        codes "tools.unifi_block.site",
        text (
            or_default_text (strip (field_or form (codes "unifi_site") (codes "default")))
              (codes "default")),
      )
      ∷ (codes "tools.unifi_block.max_prefix", whole (clamp 16 32 max_prefix))
      ∷ (codes "tools.unifi_block.skip_verify", box_on form (codes "unifi_skip_verify"))
      ∷ []

  abbrev pub tools_with : Whole → Whole → Whole → Values
  tools_with max_ips young_days max_prefix =
      tools_fixed max_ips young_days max_prefix
      ++ (key_value (codes "tools.web_search.api_key") (codes "web_search_api_key")
          ++ key_value (codes "tools.unifi_block.api_key") (codes "unifi_api_key"))

  abbrev pub with_numbers : Option Whole → Option Whole → Option Whole → Guarded Values
  with_numbers (some a) (some b) (some c) = granted (tools_with a b c)
  with_numbers none b c = denied 500
  with_numbers (some a) none c = denied 500
  with_numbers (some a) (some b) none = denied 500

  -- tools_save; status 500 is a ValueError that nothing catches.
  unfoldable pub tools_values : Guarded Values
  tools_values =
      with_numbers (int_field (codes "ip_ownership_max_ips") (codes "4"))
        (int_field (codes "young_domain_days") (codes "90"))
        (int_field (codes "unifi_max_prefix") (codes "24"))
