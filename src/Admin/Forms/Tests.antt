-- ===== src/Admin/Forms/Tests.antt =====
-- Runs of the settings forms (spamallam/app/admin/app.py).
use spamallam.Prelude.{
  ◌≡◌, refl, ◌⊎◌, Bool, true, false, none, some, [], ◌∷◌, Text, if◌then◌else◌, codes, text_eq, get,
  put, nan, float_ge, float_lt, float_min, float_max, one_float, scale, replace_crlf, split_on,
}
use spamallam.Store.Users.{User, Users}
use spamallam.Store.Config.{
  end, get_field, put_field, deep_merge, field_count, same_value, get_path, set_path, all_settings,
  get_setting, set_setting, update_settings,
}
use spamallam.Admin.Sessions.{
  Serializer, granted, denied, read_session, require_user, require_admin, check_csrf,
}
use spamallam.Admin.Requests.{Keys, AdminRequest, admin_form, lines_of, address_lines}
use spamallam.Admin.Desk.{sorted_set}
use spamallam.Admin.Forms.{
  plus, minus, null, flag, real, texts, text, FormTools, ai_values, provider_values, failure_values,
  overrides_values, quarantine_values,
}
use spamallam.Admin.Forms.Posted.{quarantine_form, values_of}
use spamallam.Admin.Forms.Tools.{tools_values}
use spamallam.Admin.Forms.Schema.{AreListed}
use spamallam.Admin.Forms.Listed.{values_of-AreListed}
use spamallam.Admin.Forms.Saving.{SettingsDesk, SettingsRoom, save_form, IsSaved, save_form-IsSaved}

forms : Unit {0}
unfolding text_eq get put replace_crlf split_on get_field put_field deep_merge field_count
    same_value get_path set_path all_settings get_setting set_setting update_settings read_session
    require_user require_admin check_csrf admin_form lines_of address_lines scale sorted_set
    float_ge float_lt float_min float_max one_float ai_values provider_values failure_values
    overrides_values quarantine_values tools_values save_form
forms = tt

abbrev tools : FormTools
tools = record {
  encrypt = λ b. b;
  encrypt_text = λ t. t;
  parse_int = λ t. if text_eq t (codes "4") then some (plus 4) else some (minus 7);
  parse_float = λ t. none;
  default_prompt = codes "P ";
}

overrides_test :
    overrides_values tools (record {
      whitelist_domains = codes " B.org\r\n\na.org\nb.org";
      whitelist_recipients = [];
      blocklist_domains = [];
      require_auth_for_whitelist = codes "on";
    })
    ≡ (codes "overrides.whitelist_domains", texts (codes "a.org" ∷ codes "b.org" ∷ []))
      ∷ (codes "overrides.whitelist_recipients", texts [])
      ∷ (codes "overrides.blocklist_domains", texts [])
      ∷ (codes "overrides.require_auth_for_whitelist", flag true)
      ∷ []
unfolding forms
overrides_test = refl

-- A threshold that is no number is stored as 1.0, and the built-in prompt as nothing.
ai_test :
    ai_values tools (record {
      enabled = codes "on";
      drop_threshold = nan;
      timeout_seconds = codes " ";
      system_prompt = codes "P\r\n";
      pipeline_order = codes "x";
      rspamd_bypass_on_reject = [];
    })
    ≡ granted (
        (codes "ai.enabled", flag true)
        ∷ (codes "ai.drop_threshold", real one_float)
        ∷ (codes "ai.timeout_seconds", null)
        ∷ (codes "ai.system_prompt", text [])
        ∷ (codes "ai.pipeline_order", text (codes "ai_first"))
        ∷ (codes "ai.rspamd_bypass_on_reject", flag false)
        ∷ [])
unfolding forms
ai_test = refl

abbrev signer : Serializer
signer = record { dumps = λ m. []; loads = λ raw ttl. some ((codes "u", raw) ∷ []) }

abbrev keys : Keys
keys = record {
  sessions = signer;
  csrf = signer;
  challenges = signer;
  b64url = λ b. b;
  unb64url = λ t. some t;
  hash_of = λ t. t;
  parse_address = λ a. a;
}

abbrev room : SettingsRoom
room = record {
  keys = keys;
  tools = tools;
  atoms = record { null = null; is_true = λ a. true; same = λ a b. false };
  defaults = end;
  can_write = λ i. true;
}

abbrev user_of : Bool → User
user_of admin = record {
  display = [];
  is_admin = admin;
  created = [];
  timezone = [];
  credentials = [];
  addresses = [];
}

abbrev users : Users
users = (codes "root", user_of true) ∷ (codes "bob", user_of false) ∷ []

abbrev from : Text → AdminRequest
from name = record { cookie = some name; csrf = name; csrf_header = none }

abbrev empty_desk : SettingsDesk
empty_desk = record { file = none; audits = [] }

save_test :
    ((save_form room users (from (codes "root")) (quarantine_form [] (minus 3)) empty_desk).0
      ≡ granted (codes "Saved."))
    × (save_form room users (from (codes "bob")) (quarantine_form [] (minus 3)) empty_desk
        ≡ (denied 403, empty_desk))
unfolding forms
save_test = (refl, refl)

values_of-AreListed_example : AreListed (values_of tools (quarantine_form (codes "on") (plus 9000)))
values_of-AreListed_example = values_of-AreListed tools (quarantine_form (codes "on") (plus 9000))

save_form-IsSaved_example :
    ((save_form room users (from (codes "root")) (quarantine_form [] (minus 3)) empty_desk).1
      ≡ empty_desk)
    ⊎ IsSaved room users
        (from (codes "root"))
        (quarantine_form [] (minus 3))
        empty_desk
        (save_form room users (from (codes "root")) (quarantine_form [] (minus 3)) empty_desk).1
save_form-IsSaved_example =
    save_form-IsSaved room users (from (codes "root")) (quarantine_form [] (minus 3)) empty_desk
