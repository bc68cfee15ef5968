-- ===== src/Admin/Forms/Schema.antt =====
-- The kinds of the settings that the forms write (spamallam/app/admin/app.py), and that every form
-- keeps to them.
use spamallam.Prelude.{
  ℕ, ◌≡◌, refl, Bool, true, false, ◌&&◌, some, List, [], ◌∷◌, leb, if◌then◌else◌, elem, All, Text,
  Map, codes, text_eq, text_eq_refl, get, Float, float_ge, float_lt, float_max, float_min,
  one_float, fin, nan, neg_inf, pos_inf, arith,
}
use spamallam.Admin.Sessions.{Guarded, granted, denied}
use spamallam.Admin.Forms.{
  Whole, plus, minus, Setting, null, flag, whole, real, text, texts, secret, Values, FormTools,
  clamp, choice, AiForm, ai_with, half_float, five_float,
}

-- What a setting may be.
pub data Kind : Type 0 where
  a_flag a_text some_texts a_secret any_number : Kind
  between : ℕ → ℕ → Kind
  fraction timeout : Kind
  one_of : List Text → Kind

abbrev pub fits : Kind → Setting → Bool
fits a_flag (flag b) = true
fits a_text (text t) = true
fits some_texts (texts ts) = true
fits a_secret (secret t) = true
fits a_secret null = true
fits any_number (whole n) = true
fits (between low high) (whole (plus n)) = leb low n && leb n high
fits fraction (real x) = float_ge x half_float && float_ge one_float x
fits timeout (real x) = float_ge x five_float
fits timeout null = true
fits (one_of choices) (text t) = elem t choices
fits _ _ = false

pub fits-clamp :
    (low high : ℕ) (n : Whole)
    → leb low high ≡ true
    → fits (between low high) (whole (clamp low high n)) ≡ true
fits-clamp low high (plus n) h = ground arith
fits-clamp low high (minus n) h = ground arith

elem-choice :
    (default : Text) (others : List Text) (value : Text) (b : Bool)
    → elem value (default ∷ others) ≡ b
    → elem (if b then value else default) (default ∷ others) ≡ true
elem-choice default others value true e = e
elem-choice default others value false e = simp (text_eq_refl default)

pub fits-choice :
    (default : Text) (others : List Text) (value : Text)
    → fits (one_of (default ∷ others)) (choice default others value) ≡ true
fits-choice default others value =
    elem-choice default others value (elem value (default ∷ others)) refl

-- Half of a number is below it, by the order of floats.
fits-fraction :
    (x : Float) → fits fraction (real (float_max half_float (float_min one_float x))) ≡ true
unfolding float_ge float_lt float_max float_min one_float
fits-fraction nan = ground arith
fits-fraction neg_inf = ground arith
fits-fraction pos_inf = ground arith
fits-fraction (fin true m) = ground arith
fits-fraction (fin false m) = ground arith

pub fits-timeout : (x : Float) → fits timeout (real (float_max five_float x)) ≡ true
unfolding float_ge float_lt float_max
fits-timeout nan = ground arith
fits-timeout neg_inf = ground arith
fits-timeout pos_inf = ground arith
fits-timeout (fin true m) = ground arith
fits-timeout (fin false m) = ground arith

-- The values of a failure policy.
abbrev pub policy : Kind
policy = one_of (codes "deliver_tagged" ∷ codes "defer" ∷ codes "quarantine" ∷ [])

-- The kind of each setting.
abbrev pub schema : Map Kind
schema =
    (codes "ai.enabled", a_flag)
    ∷ (codes "ai.drop_threshold", fraction)
    ∷ (codes "ai.timeout_seconds", timeout)
    ∷ (codes "ai.system_prompt", a_text)
    ∷ (codes "ai.pipeline_order", one_of (codes "ai_first" ∷ codes "rspamd_first" ∷ []))
    ∷ (codes "ai.rspamd_bypass_on_reject", a_flag)
    ∷ (codes "provider.type", one_of (codes "openai" ∷ codes "anthropic" ∷ codes "custom" ∷ []))
    ∷ (codes "provider.model", a_text)
    ∷ (codes "provider.base_url", a_text)
    ∷ (codes "provider.timeout_seconds", between 5 600)
    ∷ (codes "provider.max_tokens", between 64 32768)
    ∷ (codes "provider.mtls.enabled", a_flag)
    ∷ (codes "provider.mtls.skip_verify", a_flag)
    ∷ (codes "provider.api_key", a_secret)
    ∷ (codes "provider.mtls.pfx", a_secret)
    ∷ (codes "provider.mtls.pfx_password", a_secret)
    ∷ (codes "failure_policy.ai", policy)
    ∷ (codes "failure_policy.rspamd", policy)
    ∷ (codes "failure_policy.antivirus", policy)
    ∷ (codes "failure_policy.all_down", policy)
    ∷ (codes "context.organization", a_text)
    ∷ (codes "context.expected_mail", a_text)
    ∷ (codes "overrides.whitelist_domains", some_texts)
    ∷ (codes "overrides.whitelist_recipients", some_texts)
    ∷ (codes "overrides.blocklist_domains", some_texts)
    ∷ (codes "overrides.require_auth_for_whitelist", a_flag)
    ∷ (codes "marking.enabled", a_flag)
    ∷ (codes "marking.trigger_verdicts", some_texts)
    ∷ (codes "marking.banner_template", a_text)
    ∷ (codes "marking.convert_plaintext_to_html", a_flag)
    ∷ (
      codes "marking.break_images.scope",
      one_of (codes "off" ∷ codes "spam_only" ∷ codes "all_mail" ∷ []),
    )
    ∷ (codes "marking.footer_template", a_text)
    ∷ (codes "marking.trigger_on_rspamd_spam", a_flag)
    ∷ (codes "classification.enabled", a_flag)
    ∷ (
      codes "classification.placement",
      one_of (codes "header" ∷ codes "footer" ∷ codes "both" ∷ []),
    )
    ∷ (codes "logging.retention_days", between 1 3650)
    ∷ (codes "logging.log_prompts", a_flag)
    ∷ (codes "quarantine.enabled", a_flag)
    ∷ (codes "quarantine.retention_days", between 1 3650)
    ∷ (codes "tools.ip_lookup.enabled", a_flag)
    ∷ (codes "tools.ip_lookup.non_us_note", a_flag)
    ∷ (codes "tools.ip_ownership.enabled", a_flag)
    ∷ (codes "tools.ip_ownership.max_ips", any_number)
    ∷ (codes "tools.domain_age.enabled", a_flag)
    ∷ (codes "tools.domain_age.young_domain_days", any_number)
    ∷ (codes "tools.dns_verify.enabled", a_flag)
    ∷ (codes "tools.web_search.enabled", a_flag)
    ∷ (codes "tools.web_search.backend", a_text)
    ∷ (codes "tools.web_search.endpoint", a_text)
    ∷ (codes "tools.web_fetch.enabled", a_flag)
    ∷ (codes "tools.web_fetch.backend", a_text)
    ∷ (codes "tools.web_fetch.endpoint", a_text)
    ∷ (codes "tools.shared_provider_check.enabled", a_flag)
    ∷ (codes "tools.unifi_block.enabled", a_flag)
    ∷ (codes "tools.unifi_block.policy", one_of (codes "suggest" ∷ codes "auto" ∷ []))
    ∷ (codes "tools.unifi_block.url", a_text)
    ∷ (codes "tools.unifi_block.network_list", a_text)
    ∷ (codes "tools.unifi_block.site", a_text)
    ∷ (codes "tools.unifi_block.max_prefix", between 16 32)
    ∷ (codes "tools.unifi_block.skip_verify", a_flag)
    ∷ (codes "tools.web_search.api_key", a_secret)
    ∷ (codes "tools.unifi_block.api_key", a_secret)
    ∷ []

abbrev pub IsListed : Text × Setting → Type 0
IsListed (path, v) = (k : Kind) × (get path schema ≡ some k) × (fits k v ≡ true)

abbrev pub AreListed : Guarded Values → Type 0
AreListed (denied status) = Unit
AreListed (granted values) = All IsListed values

module _ (tools : FormTools) where
  pub ai_with-AreListed :
      (form : AiForm) (timeout_setting : Setting)
      → fits timeout timeout_setting ≡ true
      → AreListed (ai_with tools form (granted timeout_setting))
  unfolding get text_eq
  ai_with-AreListed form timeout_setting h = (
    (a_flag, refl, refl),
    (
      (fraction, refl, fits-fraction form.drop_threshold),
      (
        (timeout, refl, h),
        (
          (a_text, refl, refl),
          (
            (
              _,
              refl,
              fits-choice (codes "ai_first") (codes "rspamd_first" ∷ []) form.pipeline_order,
            ),
            ((a_flag, refl, refl), tt),
          ),
        ),
      ),
    ),
  )
