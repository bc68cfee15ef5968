-- ===== src/Admin/Forms/Listed.antt =====
-- Every form keeps to the kinds of the settings (spamallam/app/admin/app.py).
use spamallam.Prelude.{
  ℕ, ◌≡◌, refl, inl, inr, Bool-cases, Bool, true, false, Option, none, some, [], ◌∷◌, ◌++◌, ltb,
  if◌then◌else◌, elem, is_empty, length, All, All-append, Text, Bytes, Map, codes, text_eq, get,
  strip, Float, arith,
}
use spamallam.Admin.Sessions.{Guarded, granted, denied}
use spamallam.Admin.Forms.{
  Whole, null, flag, Values, FormTools, on, AiForm, ProviderForm, FailureForm, OverridesForm,
  MarkingForm, denied_unless, timeout_of, ai_with, ai_values, secret_or_null, provider_types,
  is_clearing, common_values, key_values, password_values, pfx_values, kept_certificate,
  certificate_values, provider_with, provider_values, is_policy, are_policies, policy_values,
  failure_values, context_values, overrides_values, marking_values, classification_values,
  logging_values, quarantine_values,
}
use spamallam.Admin.Forms.Posted.{
  Form, ai_form, provider_form, failure_form, context_form, overrides_form, marking_form,
  classification_form, logging_form, quarantine_form, values_of, tools_form,
}
use spamallam.Admin.Forms.Tools.{
  field_or, tools_fixed, key_value, tools_with, with_numbers, int_field, policy_value, tools_values,
}
use spamallam.Admin.Forms.Schema.{
  any_number, a_flag, a_text, some_texts, a_secret, between, one_of, policy, fits, fits-clamp,
  fits-choice, fits-timeout, schema, IsListed, AreListed, ai_with-AreListed,
}

module _ (tools : FormTools) where
  timeout_of-AreListed :
      (form : AiForm) (o : Option Float) → AreListed (ai_with tools form (timeout_of tools o))
  timeout_of-AreListed form none = tt
  timeout_of-AreListed form (some t) = ai_with-AreListed tools form _ (fits-timeout t)

  ai_values-AreListed : (form : AiForm) → AreListed (ai_values tools form)
  unfolding ai_values
  ai_values-AreListed form =
      let raw = strip form.timeout_seconds in
      elim (Bool-cases (is_empty raw)) [
        | inl e ↦ simp e (ai_with-AreListed tools form null refl)
        | inr e ↦ simp e (timeout_of-AreListed form (tools.parse_float raw))
      ]

  fits-secret_or_null : (value : Text) → fits a_secret (secret_or_null tools value) ≡ true
  fits-secret_or_null value = elim (Bool-cases (is_empty value)) [ inl e ↦ simp e | inr e ↦ simp e ]

  fits-cleared :
      (form : ProviderForm)
      → fits a_flag (if is_clearing tools form then flag false else on form.mtls_enabled) ≡ true
  fits-cleared form = elim (Bool-cases (is_clearing tools form)) [ inl e ↦ simp e | inr e ↦ simp e ]

  All-common_values :
      (form : ProviderForm)
      → elem form.ptype (provider_types tools) ≡ true
      → All IsListed (common_values tools form)
  unfolding get text_eq
  All-common_values form h = (
    (_, refl, h),
    (
      (a_text, refl, refl),
      (
        (a_text, refl, refl),
        (
          (between 5 600, refl, fits-clamp 5 600 form.timeout_seconds refl),
          (
            (between 64 32768, refl, fits-clamp 64 32768 form.max_tokens refl),
            ((a_flag, refl, fits-cleared form), ((a_flag, refl, refl), tt)),
          ),
        ),
      ),
    ),
  )

  secret_paths :
      (get (codes "provider.api_key") schema ≡ some a_secret)
      × (get (codes "provider.mtls.pfx") schema ≡ some a_secret)
      × (get (codes "provider.mtls.pfx_password") schema ≡ some a_secret)
  unfolding get text_eq
  secret_paths = (refl, refl, refl)

  All-key_values : (form : ProviderForm) → All IsListed (key_values tools form)
  All-key_values form = elim (Bool-cases (text_eq form.api_key_changed (codes "1"))) [
    | inl e ↦ simp e ((a_secret, secret_paths.0, fits-secret_or_null (strip form.api_key)), tt)
    | inr e ↦ simp e tt
  ]

  All-password_values : (form : ProviderForm) → All IsListed (password_values tools form)
  All-password_values form = elim (Bool-cases (text_eq form.pfx_password_changed (codes "1"))) [
    | inl e ↦ simp e ((a_secret, secret_paths.2, fits-secret_or_null form.pfx_password), tt)
    | inr e ↦ simp e tt
  ]

  pfx_values-AreListed : (file : Option Bytes) → AreListed (pfx_values tools file)
  pfx_values-AreListed none = tt
  pfx_values-AreListed (some file) = elim (Bool-cases (ltb 524288 (length file))) [
    | inl e ↦ simp e tt
    | inr e ↦ simp e ((a_secret, secret_paths.1, refl), tt)
  ]

  kept_certificate-AreListed :
      (form : ProviderForm) (g : Guarded Values)
      → AreListed g
      → AreListed (kept_certificate tools form g)
  kept_certificate-AreListed form (denied status) h = tt
  kept_certificate-AreListed form (granted pfx) h =
      All-append IsListed pfx (password_values tools form) h (All-password_values form)

  certificate_values-AreListed : (form : ProviderForm) → AreListed (certificate_values tools form)
  certificate_values-AreListed form = elim (Bool-cases (is_clearing tools form)) [
    | inl e ↦ simp e ((a_secret, secret_paths.1, refl), ((a_secret, secret_paths.2, refl), tt))
    | inr e ↦ simp e (
        kept_certificate-AreListed form (pfx_values tools form.pfx) (pfx_values-AreListed form.pfx))
  ]

  provider_with-AreListed :
      (form : ProviderForm) (g : Guarded Values)
      → elem form.ptype (provider_types tools) ≡ true
      → AreListed g
      → AreListed (provider_with tools form g)
  provider_with-AreListed form (denied status) h k = tt
  provider_with-AreListed form (granted certificate) h k =
      All-append IsListed (common_values tools form) (key_values tools form ++ certificate)
        (All-common_values form h)
        (All-append IsListed (key_values tools form) certificate (All-key_values form) k)

  denied_unless-AreListed :
      (b : Bool) (status : ℕ) (g : Guarded Values)
      → (b ≡ true → AreListed g)
      → AreListed (denied_unless b status g)
  denied_unless-AreListed true status g h = h refl
  denied_unless-AreListed false status g h = tt

  provider_values-AreListed : (form : ProviderForm) → AreListed (provider_values tools form)
  unfolding provider_values
  provider_values-AreListed form =
      denied_unless-AreListed (elem form.ptype (provider_types tools)) 400
        (provider_with tools form (certificate_values tools form))
        (λ h.
          provider_with-AreListed form (certificate_values tools form) h
            (certificate_values-AreListed form))

  is_policy-fits :
      (value : Text)
      → is_policy tools value ≡ true
      → elem value (codes "deliver_tagged" ∷ codes "defer" ∷ codes "quarantine" ∷ []) ≡ true
  is_policy-fits value h = elim (Bool-cases (text_eq value (codes "deliver_tagged"))) [
    | inl e ↦ simp e
    | inr e ↦ elim (Bool-cases (text_eq value (codes "defer"))) [
      | inl f ↦ simp (e, f)
      | inr f ↦ elim (Bool-cases (text_eq value (codes "quarantine"))) [
        | inl g ↦ simp (e, f, g)
        | inr g ↦ cc (simp (e, f, g) at h)
      ]
    ]
  ]

  policy_paths :
      (get (codes "failure_policy.ai") schema ≡ some policy)
      × (get (codes "failure_policy.rspamd") schema ≡ some policy)
      × (get (codes "failure_policy.antivirus") schema ≡ some policy)
      × (get (codes "failure_policy.all_down") schema ≡ some policy)
  unfolding get text_eq
  policy_paths = (refl, refl, refl, refl)

  failure_values-AreListed : (form : FailureForm) → AreListed (failure_values tools form)
  unfolding failure_values
  failure_values-AreListed form =
      denied_unless-AreListed (are_policies tools form) 400 (granted (policy_values tools form))
        (λ h. (
          (policy, policy_paths.0, is_policy-fits form.ai (ground arith)),
          (
            (policy, policy_paths.1, is_policy-fits form.rspamd (ground arith)),
            (
              (policy, policy_paths.2, is_policy-fits form.antivirus (ground arith)),
              ((policy, policy_paths.3, is_policy-fits form.all_down (ground arith)), tt),
            ),
          ),
        ))

  overrides_values-All : (form : OverridesForm) → All IsListed (overrides_values tools form)
  unfolding overrides_values get text_eq
  overrides_values-All form = (
    (some_texts, refl, refl),
    ((some_texts, refl, refl), ((some_texts, refl, refl), ((a_flag, refl, refl), tt))),
  )

  marking_values-All : (form : MarkingForm) → All IsListed (marking_values tools form)
  unfolding marking_values get text_eq
  marking_values-All form = (
    (a_flag, refl, refl),
    (
      (some_texts, refl, refl),
      (
        (a_text, refl, refl),
        (
          (a_flag, refl, refl),
          (
            (
              _,
              refl,
              fits-choice (codes "off") (codes "spam_only" ∷ codes "all_mail" ∷ [])
                  form.break_images_scope,
            ),
            ((a_text, refl, refl), ((a_flag, refl, refl), tt)),
          ),
        ),
      ),
    ),
  )

  fits-policy_value :
      (form : Map Text)
      → fits (one_of (codes "suggest" ∷ codes "auto" ∷ [])) (policy_value tools form) ≡ true
  unfolding text_eq
  fits-policy_value form =
      elim (Bool-cases (text_eq (field_or form (codes "unifi_policy") []) (codes "auto"))) [
        | inl e ↦ simp e
        | inr e ↦ simp e
      ]

  All-key_value :
      (form : Map Text) (path name : Text)
      → get path schema ≡ some a_secret
      → All IsListed (key_value tools form path name)
  All-key_value form path name h = elim (Bool-cases (is_empty (strip (field_or form name [])))) [
    | inl e ↦ simp e tt
    | inr e ↦ simp e ((a_secret, h, refl), tt)
  ]

  tools_with-All :
      (form : Map Text) (max_ips young_days max_prefix : Whole)
      → All IsListed (tools_with tools form max_ips young_days max_prefix)
  unfolding get text_eq
  tools_with-All form max_ips young_days max_prefix =
      let search =
        key_value tools form (codes "tools.web_search.api_key") (codes "web_search_api_key") in
      let unifi =
        key_value tools form (codes "tools.unifi_block.api_key") (codes "unifi_api_key") in
      All-append IsListed (tools_fixed tools form max_ips young_days max_prefix) (search ++ unifi)
        (
          (a_flag, refl, refl),
          (
            (a_flag, refl, refl),
            (
              (a_flag, refl, refl),
              (
                (any_number, refl, refl),
                (
                  (a_flag, refl, refl),
                  (
                    (any_number, refl, refl),
                    (
                      (a_flag, refl, refl),
                      (
                        (a_flag, refl, refl),
                        (
                          (a_text, refl, refl),
                          (
                            (a_text, refl, refl),
                            (
                              (a_flag, refl, refl),
                              (
                                (a_text, refl, refl),
                                (
                                  (a_text, refl, refl),
                                  (
                                    (a_flag, refl, refl),
                                    (
                                      (a_flag, refl, refl),
                                      (
                                        (_, refl, fits-policy_value form),
                                        (
                                          (a_text, refl, refl),
                                          (
                                            (a_text, refl, refl),
                                            (
                                              (a_text, refl, refl),
                                              (
                                                (
                                                  between 16 32,
                                                  refl,
                                                  fits-clamp 16 32 max_prefix refl,
                                                ),
                                                ((a_flag, refl, refl), tt),
                                              ),
                                            ),
                                          ),
                                        ),
                                      ),
                                    ),
                                  ),
                                ),
                              ),
                            ),
                          ),
                        ),
                      ),
                    ),
                  ),
                ),
              ),
            ),
          ),
        )
        (All-append IsListed search unifi
          (All-key_value form (codes "tools.web_search.api_key") (codes "web_search_api_key") refl)
          (All-key_value form (codes "tools.unifi_block.api_key") (codes "unifi_api_key") refl))

  with_numbers-AreListed :
      (form : Map Text) (a b c : Option Whole) → AreListed (with_numbers tools form a b c)
  with_numbers-AreListed form (some a) (some b) (some c) = tools_with-All form a b c
  with_numbers-AreListed form none b c = tt
  with_numbers-AreListed form (some a) none c = tt
  with_numbers-AreListed form (some a) (some b) none = tt

  tools_values-AreListed : (form : Map Text) → AreListed (tools_values tools form)
  unfolding tools_values
  tools_values-AreListed form =
      with_numbers-AreListed form (int_field tools form (codes "ip_ownership_max_ips") (codes "4"))
        (int_field tools form (codes "young_domain_days") (codes "90"))
        (int_field tools form (codes "unifi_max_prefix") (codes "24"))

  -- Whatever is typed into a form, it is denied, or every value that it writes has a known path and is
  -- of the kind of that path: in its range, one of its choices, a flag, a text, or an encrypted secret.
  pub values_of-AreListed : (form : Form) → AreListed (values_of tools form)
  unfolding context_values classification_values logging_values quarantine_values get text_eq
  values_of-AreListed (ai_form form) = ai_values-AreListed form
  values_of-AreListed (provider_form form) = provider_values-AreListed form
  values_of-AreListed (failure_form form) = failure_values-AreListed form
  values_of-AreListed (context_form organization expected_mail) =
      ((a_text, refl, refl), ((a_text, refl, refl), tt))
  values_of-AreListed (overrides_form form) = overrides_values-All form
  values_of-AreListed (marking_form form) = marking_values-All form
  values_of-AreListed (classification_form enabled placement) = (
    (a_flag, refl, refl),
    ((_, refl, fits-choice (codes "header") (codes "footer" ∷ codes "both" ∷ []) placement), tt),
  )
  values_of-AreListed (logging_form retention_days log_prompts) =
      ((between 1 3650, refl, fits-clamp 1 3650 retention_days refl), ((a_flag, refl, refl), tt))
  values_of-AreListed (quarantine_form enabled retention_days) =
      ((a_flag, refl, refl), ((between 1 3650, refl, fits-clamp 1 3650 retention_days refl), tt))
  values_of-AreListed (tools_form form) = tools_values-AreListed form
