-- ===== src/Admin/Forms.antt =====
-- The settings forms of the admin application (spamallam/app/admin/app.py): what each of them writes.
-- The cipher, the parsing of numbers and the built-in prompt are arguments.
pub mod Tools
pub mod Posted
pub mod Schema
pub mod Listed
pub mod Saving
mod Tests
use spamallam.Prelude.{
  ℕ, Bool, true, false, not, ◌&&◌, ◌||◌, Option, none, some, List, [], ◌∷◌, ◌++◌, leb, ltb, ◌*◌,
  ◌/◌, ◌==◌, if◌then◌else◌, keep, elem, is_empty, length, map, Text, Bytes, codes, text_eq, strip,
  lower, Float, fin, scale, float_max, float_min, one_float, replace_crlf,
}
use spamallam.Pipeline.Failure.{policy_of}
use spamallam.Admin.Desk.{sorted_set}
use spamallam.Admin.Requests.{address_lines}
use spamallam.Admin.Sessions.{Guarded, granted, denied}
use spamallam.Prelude.{is_some}

-- A whole number; `minus` is below zero, by its absolute value.
pub data Whole : Type 0 where
  plus minus : ℕ → Whole

-- A value that a form writes.
pub data Setting : Type 0 where
  null : Setting
  flag : Bool → Setting
  whole : Whole → Setting
  real : Float → Setting
  text : Text → Setting
  texts : List Text → Setting
  -- What the secrets box makes: a mapping of one key, which the forms never look into.
  secret : Text → Setting

abbrev pub Values : Type 0
Values = List (Text × Setting)

-- The secrets box, on bytes and on str, the parsers of numbers, and DEFAULT_SYSTEM_PROMPT.
pub record FormTools : Type 0 where
  pub encrypt : Bytes → Text
  pub encrypt_text : Text → Text
  pub parse_int : Text → Option Whole
  pub parse_float : Text → Option Float
  pub default_prompt : Text

-- max(low, min(high, n)), for a low bound that is no negative number.
abbrev pub clamp : ℕ → ℕ → Whole → Whole
clamp low high (plus n) = plus (if ltb n low then low else if ltb high n then high else n)
clamp low high (minus n) = plus low

-- value == "on"
abbrev pub on : Text → Setting
on value = flag (text_eq value (codes "on"))

-- The value if it is one of the choices, the first choice otherwise.
abbrev pub choice : Text → List Text → Text → Setting
choice default others value = text (if elem value (default ∷ others) then value else default)

-- 0.5 and 5.0
abbrev pub half_float : Float
half_float = fin false (scale / 2)

abbrev pub five_float : Float
five_float = fin false (scale * 5)

pub record AiForm : Type 0 where
  pub enabled : Text
  pub drop_threshold : Float
  pub timeout_seconds : Text
  pub system_prompt : Text
  pub pipeline_order : Text
  pub rspamd_bypass_on_reject : Text

-- The form of the provider; `pfx` is the certificate's file, where one is uploaded.
pub record ProviderForm : Type 0 where
  pub ptype : Text
  pub model : Text
  pub base_url : Text
  pub api_key : Text
  pub api_key_changed : Text
  pub timeout_seconds : Whole
  pub max_tokens : Whole
  pub mtls_enabled : Text
  pub pfx : Option Bytes
  pub pfx_password : Text
  pub pfx_password_changed : Text
  pub skip_verify : Text
  pub mtls_clear : Text

pub record FailureForm : Type 0 where
  pub ai : Text
  pub rspamd : Text
  pub antivirus : Text
  pub all_down : Text

pub record OverridesForm : Type 0 where
  pub whitelist_domains : Text
  pub whitelist_recipients : Text
  pub blocklist_domains : Text
  pub require_auth_for_whitelist : Text

pub record MarkingForm : Type 0 where
  pub enabled : Text
  pub trigger_spam : Text
  pub trigger_phishing : Text
  pub trigger_malicious : Text
  pub banner_template : Text
  pub convert_plaintext_to_html : Text
  pub break_images_scope : Text
  pub footer_template : Text
  pub trigger_on_rspamd_spam : Text

abbrev pub denied_unless : {A : Type 0} → Bool → ℕ → Guarded A → Guarded A
denied_unless true status g = g
denied_unless false status g = denied status

module _ (tools : FormTools) where
  abbrev pub timeout_of : Option Float → Guarded Setting
  timeout_of none = denied 400
  timeout_of (some t) = granted (real (float_max five_float t))

  -- Blank is null: the default of the environment.
  abbrev pub timeout_value : Text → Guarded Setting
  timeout_value raw = if is_empty raw then granted null else timeout_of (tools.parse_float raw)

  abbrev pub prompt_value : Text → Setting
  prompt_value prompt = text (if text_eq prompt (strip tools.default_prompt) then [] else prompt)

  abbrev pub ai_with : AiForm → Guarded Setting → Guarded Values
  ai_with form (denied status) = denied status
  ai_with form (granted timeout) = granted (
      (codes "ai.enabled", on form.enabled)
      ∷ (
        codes "ai.drop_threshold",
        real (float_max half_float (float_min one_float form.drop_threshold)),
      )
      ∷ (codes "ai.timeout_seconds", timeout)
      ∷ (codes "ai.system_prompt", prompt_value (strip (replace_crlf form.system_prompt)))
      ∷ (
        codes "ai.pipeline_order",
        choice (codes "ai_first") (codes "rspamd_first" ∷ []) form.pipeline_order,
      )
      ∷ (codes "ai.rspamd_bypass_on_reject", on form.rspamd_bypass_on_reject)
      ∷ [])

  -- ai_save
  unfoldable pub ai_values : AiForm → Guarded Values
  ai_values form = ai_with form (timeout_value (strip form.timeout_seconds))

  abbrev pub secret_or_null : Text → Setting
  secret_or_null value = if is_empty value then null else secret (tools.encrypt_text value)

  abbrev pub provider_types : List Text
  provider_types = codes "openai" ∷ codes "anthropic" ∷ codes "custom" ∷ []

  -- Clearing the certificate turns it off, too.
  abbrev pub is_clearing : ProviderForm → Bool
  is_clearing form = text_eq form.mtls_clear (codes "on")

  abbrev pub common_values : ProviderForm → Values
  common_values form =
      (codes "provider.type", text form.ptype)
      ∷ (codes "provider.model", text (strip form.model))
      ∷ (codes "provider.base_url", text (strip form.base_url))
      ∷ (codes "provider.timeout_seconds", whole (clamp 5 600 form.timeout_seconds))
      ∷ (codes "provider.max_tokens", whole (clamp 64 32768 form.max_tokens))
      ∷ (
        codes "provider.mtls.enabled",
        (if is_clearing form then flag false else on form.mtls_enabled),
      )
      ∷ (codes "provider.mtls.skip_verify", on form.skip_verify)
      ∷ []

  abbrev pub key_values : ProviderForm → Values
  key_values form =
      if text_eq form.api_key_changed (codes "1")
      then (codes "provider.api_key", secret_or_null (strip form.api_key)) ∷ []
      else []

  abbrev pub password_values : ProviderForm → Values
  password_values form =
      if text_eq form.pfx_password_changed (codes "1")
      then (codes "provider.mtls.pfx_password", secret_or_null form.pfx_password) ∷ []
      else []

  -- A file above 512 KiB is refused.
  abbrev pub pfx_values : Option Bytes → Guarded Values
  pfx_values none = granted []
  pfx_values (some file) =
      if ltb 524288 (length file)
      then denied 400
      else granted ((codes "provider.mtls.pfx", secret (tools.encrypt file)) ∷ [])

  abbrev pub kept_certificate : ProviderForm → Guarded Values → Guarded Values
  kept_certificate form (denied status) = denied status
  kept_certificate form (granted pfx) = granted (pfx ++ password_values form)

  abbrev pub cleared_certificate : Values
  cleared_certificate =
      (codes "provider.mtls.pfx", null) ∷ (codes "provider.mtls.pfx_password", null) ∷ []

  abbrev pub certificate_values : ProviderForm → Guarded Values
  certificate_values form =
      if is_clearing form
      then granted cleared_certificate
      else kept_certificate form (pfx_values form.pfx)

  abbrev pub provider_with : ProviderForm → Guarded Values → Guarded Values
  provider_with form (denied status) = denied status
  provider_with form (granted certificate) =
      granted (common_values form ++ (key_values form ++ certificate))

  -- provider_save
  unfoldable pub provider_values : ProviderForm → Guarded Values
  provider_values form =
      denied_unless (elem form.ptype provider_types) 400
        (provider_with form (certificate_values form))

  abbrev pub is_policy : Text → Bool
  is_policy value = is_some (policy_of (some value))

  abbrev pub policy_values : FailureForm → Values
  policy_values form =
      (codes "failure_policy.ai", text form.ai)
      ∷ (codes "failure_policy.rspamd", text form.rspamd)
      ∷ (codes "failure_policy.antivirus", text form.antivirus)
      ∷ (codes "failure_policy.all_down", text form.all_down)
      ∷ []

  abbrev pub are_policies : FailureForm → Bool
  are_policies form =
      is_policy form.ai
      && is_policy form.rspamd
      && is_policy form.antivirus
      && is_policy form.all_down

  -- failure_save
  unfoldable pub failure_values : FailureForm → Guarded Values
  failure_values form = denied_unless (are_policies form) 400 (granted (policy_values form))

  -- context_save
  unfoldable pub context_values : Text → Text → Values
  context_values organization expected_mail =
      (codes "context.organization", text (strip organization))
      ∷ (codes "context.expected_mail", text (strip expected_mail))
      ∷ []

  -- sorted({l.strip().lower() for l in text.splitlines() if l.strip()})
  abbrev pub list_value : Text → Setting
  list_value value = texts (sorted_set (map lower (address_lines value)))

  -- overrides_save
  unfoldable pub overrides_values : OverridesForm → Values
  overrides_values form =
      (codes "overrides.whitelist_domains", list_value form.whitelist_domains)
      ∷ (codes "overrides.whitelist_recipients", list_value form.whitelist_recipients)
      ∷ (codes "overrides.blocklist_domains", list_value form.blocklist_domains)
      ∷ (codes "overrides.require_auth_for_whitelist", on form.require_auth_for_whitelist)
      ∷ []

  abbrev pub trigger : Text → Text → List Text → List Text
  trigger value verdict rest = if text_eq value (codes "on") then verdict ∷ rest else rest

  -- marking_save
  unfoldable pub marking_values : MarkingForm → Values
  marking_values form =
      (codes "marking.enabled", on form.enabled)
      ∷ (
        codes "marking.trigger_verdicts",
        texts (
            trigger form.trigger_spam (codes "SPAM") (
              trigger form.trigger_phishing (codes "PHISHING")
                (trigger form.trigger_malicious (codes "MALICIOUS") []))),
      )
      ∷ (codes "marking.banner_template", text form.banner_template)
      ∷ (codes "marking.convert_plaintext_to_html", on form.convert_plaintext_to_html)
      ∷ (
        codes "marking.break_images.scope",
        choice (codes "off") (codes "spam_only" ∷ codes "all_mail" ∷ []) form.break_images_scope,
      )
      ∷ (codes "marking.footer_template", text form.footer_template)
      ∷ (codes "marking.trigger_on_rspamd_spam", on form.trigger_on_rspamd_spam)
      ∷ []

  -- classification_save
  unfoldable pub classification_values : Text → Text → Values
  classification_values enabled placement =
      (codes "classification.enabled", on enabled)
      ∷ (
        codes "classification.placement",
        choice (codes "header") (codes "footer" ∷ codes "both" ∷ []) placement,
      )
      ∷ []

  -- logging_save
  unfoldable pub logging_values : Whole → Text → Values
  logging_values retention_days log_prompts =
      (codes "logging.retention_days", whole (clamp 1 3650 retention_days))
      ∷ (codes "logging.log_prompts", on log_prompts)
      ∷ []

  -- quarantine_settings_save
  unfoldable pub quarantine_values : Text → Whole → Values
  quarantine_values enabled retention_days =
      (codes "quarantine.enabled", on enabled)
      ∷ (codes "quarantine.retention_days", whole (clamp 1 3650 retention_days))
      ∷ []
