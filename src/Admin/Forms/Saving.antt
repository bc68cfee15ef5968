-- ===== src/Admin/Forms/Saving.antt =====
-- Saving a settings form (spamallam/app/admin/app.py): the guard, the write and the audit entries.
use spamallam.Prelude.{ℕ, ◌≡◌, refl, ◌⊎◌, inl, inr, Bool, Option, List, ◌++◌, map, All, Text, codes}
use spamallam.Store.Users.{Users}
use spamallam.Store.Config.{
  Value, atom, Fields, Atoms, Edit, Outcome, raised, returned, update_settings,
}
use spamallam.Admin.Sessions.{Guarded, granted, denied}
use spamallam.Admin.Sessions.Granting.{IsSession}
use spamallam.Admin.Requests.{Keys, AdminRequest, admin_form}
use spamallam.Admin.Accounts.Authority.{IsToken, IsAdmin, admin_form_lem}
use spamallam.Admin.Forms.{Setting, Values, FormTools}
use spamallam.Admin.Forms.Posted.{Form, values_of}
use spamallam.Admin.Forms.Schema.{IsListed, AreListed}
use spamallam.Admin.Forms.Listed.{values_of-AreListed}

-- The settings file as YAML loads it, and the audit entries of the changes.
pub record SettingsDesk : Type 0 where
  pub file : Option (Value Setting)
  pub audits : List (Text × Edit Setting)

-- The guards' keys, the form's library functions, the defaults, equality of settings, and which of
-- the writes succeed.
pub record SettingsRoom : Type 0 where
  pub keys : Keys
  pub tools : FormTools
  pub atoms : Atoms Setting
  pub defaults : Fields Setting
  pub can_write : ℕ → Bool

abbrev pub atom_of : Text × Setting → Text × Value Setting
atom_of (path, v) = (path, atom v)

abbrev pub by_user : Text → Edit Setting → Text × Edit Setting
by_user username e = (username, e)

module _ (room : SettingsRoom) (users : Users) where
  -- SETTINGS.update of the values of a form.
  abbrev pub update_of :
      Values → Option (Value Setting) → Outcome (List (Edit Setting)) × Option (Value Setting)
  update_of values file =
      update_settings room.atoms room.defaults room.can_write (map atom_of values) file

  -- An exception leaves the writes before it.
  abbrev pub finish_save :
      Text
      → Outcome (List (Edit Setting)) × Option (Value Setting)
      → SettingsDesk
      → Guarded Text × SettingsDesk
  finish_save username (raised e, file) s = (denied 500, record s { file = file })
  finish_save username (returned edits, file) s = (
    granted (codes "Saved."),
    record { file = file; audits = s.audits ++ map (by_user username) edits },
  )

  abbrev pub save_values : Text → Guarded Values → SettingsDesk → Guarded Text × SettingsDesk
  save_values username (denied status) s = (denied status, s)
  save_values username (granted values) s = finish_save username (update_of values s.file) s

  abbrev pub save_as : Guarded Text → Form → SettingsDesk → Guarded Text × SettingsDesk
  save_as (denied status) form s = (denied status, s)
  save_as (granted username) form s = save_values username (values_of room.tools form) s

  -- POST of a settings form.
  unfoldable pub save_form : AdminRequest → Form → SettingsDesk → Guarded Text × SettingsDesk
  save_form request form s = save_as (admin_form room.keys users request) form s

  -- What a change of the settings has to be: an admin who is signed in, with a token made for the same
  -- user, and values that all are of their kinds.
  pub record IsSaved (request : AdminRequest) (form : Form) (before after : SettingsDesk)
      : Type 0 where
    pub username : Text
    pub session : IsSession room.keys.sessions users request.cookie username
    pub token : IsToken room.keys.csrf request.csrf username
    pub admin : IsAdmin room.keys users username
    pub values : Values
    pub given : values_of room.tools form ≡ granted values
    pub listed : All IsListed values
    pub file : after.file ≡ (update_of values before.file).1

  file-finish_save :
      (username : Text) (r : Outcome (List (Edit Setting)) × Option (Value Setting))
      (s : SettingsDesk)
      → (finish_save username r s).1.file ≡ r.1
  file-finish_save username (raised e, file) s = refl
  file-finish_save username (returned edits, file) s = refl

  IsSaved-save_values :
      (request : AdminRequest) (form : Form) (username : Text) (g : Guarded Values)
      (s : SettingsDesk)
      → IsSession room.keys.sessions users request.cookie username
        × IsToken room.keys.csrf request.csrf username
        × IsAdmin room.keys users username
      → values_of room.tools form ≡ g
      → AreListed g
      → ((save_values username g s).1 ≡ s) ⊎ IsSaved request form s (save_values username g s).1
  IsSaved-save_values request form username (denied status) s h e l = inl refl
  IsSaved-save_values request form username (granted values) s (session, token, admin) e l =
      inr (record {
        username = username;
        session = session;
        token = token;
        admin = admin;
        values = values;
        given = e;
        listed = l;
        file = file-finish_save username (update_of values s.file) s;
      })

  IsSaved-save_as :
      (request : AdminRequest) (form : Form) (g : Guarded Text) (s : SettingsDesk)
      → admin_form room.keys users request ≡ g
      → ((save_as g form s).1 ≡ s) ⊎ IsSaved request form s (save_as g form s).1
  IsSaved-save_as request form (denied status) s e = inl refl
  IsSaved-save_as request form (granted username) s e =
      IsSaved-save_values request form username (values_of room.tools form) s
        (admin_form_lem room.keys users request username e) refl
        (values_of-AreListed room.tools form)

  -- A settings form changes nothing, or it is an admin's, signed in and with a token made for the same
  -- user; then the file is updated by values that all are of the kinds of their paths.
  pub save_form-IsSaved :
      (request : AdminRequest) (form : Form) (s : SettingsDesk)
      → ((save_form request form s).1 ≡ s) ⊎ IsSaved request form s (save_form request form s).1
  unfolding save_form
  save_form-IsSaved request form s =
      IsSaved-save_as request form (admin_form room.keys users request) s refl
