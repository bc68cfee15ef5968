-- ===== src/Admin/Forms/Posted.antt =====
-- The settings forms as one type (spamallam/app/admin/app.py).
use spamallam.Prelude.{Text, Map}
use spamallam.Admin.Sessions.{Guarded, granted}
use spamallam.Admin.Forms.{
  Whole, Values, FormTools, AiForm, ProviderForm, FailureForm, OverridesForm, MarkingForm,
  ai_values, provider_values, failure_values, context_values, overrides_values, marking_values,
  classification_values, logging_values, quarantine_values,
}
use spamallam.Admin.Forms.Tools.{tools_values}

-- The forms with their fields; that of the tools is a map of fields.
pub data Form : Type 0 where
  ai_form : AiForm → Form
  provider_form : ProviderForm → Form
  failure_form : FailureForm → Form
  context_form : Text → Text → Form
  overrides_form : OverridesForm → Form
  marking_form : MarkingForm → Form
  classification_form : Text → Text → Form
  logging_form : Whole → Text → Form
  quarantine_form : Text → Whole → Form
  tools_form : Map Text → Form

-- What a form writes, or the status that it is denied with.
abbrev pub values_of : FormTools → Form → Guarded Values
values_of tools (ai_form form) = ai_values tools form
values_of tools (provider_form form) = provider_values tools form
values_of tools (failure_form form) = failure_values tools form
values_of tools (context_form organization expected_mail) =
    granted (context_values tools organization expected_mail)
values_of tools (overrides_form form) = granted (overrides_values tools form)
values_of tools (marking_form form) = granted (marking_values tools form)
values_of tools (classification_form enabled placement) =
    granted (classification_values tools enabled placement)
values_of tools (logging_form retention_days log_prompts) =
    granted (logging_values tools retention_days log_prompts)
values_of tools (quarantine_form enabled retention_days) =
    granted (quarantine_values tools enabled retention_days)
values_of tools (tools_form form) = tools_values tools form
