-- ===== src/Settings/Store.antt =====
-- src/state/settings.store.ts: the settings in memory over the table of settings. `sentry` is the
-- option `enabled` of the client of Sentry, `none` if there is no client.
pub mod Commits
pub mod Restarted
pub mod Synced
use d_hub.Settings.Service
use d_hub.Base.{
  ℕ, String, Bool, true, ◌&&◌, Option, none, some, str_eq, ◌==◌, if◌then◌else◌, type_error,
  internal_server_exception, ok, throw, Prog, ◌>>=◌, ◌>>◌, pure, fail, modify, gets,
}
use d_hub.Orm.{Repository}
use d_hub.Settings.{
  ServerSettings, WizardSettings, FileCleanSettings, FrontendSettings, TimeoutSettings, Settings,
  ServerPatch, no_server_patch, CredentialPatch, no_credential_patch, FileCleanPatch,
}

pub record SharedServer : Type 0 where
  pub login_required : Bool
  pub registration : Bool
  pub sentry_diagnostics_enabled : Bool
  pub experimental_moonraker_support : Bool
  pub experimental_typeorm_support : Bool
  pub experimental_client_support : Bool
  pub experimental_thumbnail_support : Option Bool

-- What the client may see.
pub record SharedSettings : Type 0 where
  pub server : SharedServer
  pub wizard : Option WizardSettings
  pub frontend : Option FrontendSettings
  pub printer_file_clean : Option FileCleanSettings
  pub timeout : Option TimeoutSettings

pub record WizardState : Type 0 where
  pub wizard_completed : Bool
  pub wizard_version : ℕ
  pub latest_wizard_version : ℕ

abbrev pub current_wizard_version : ℕ
current_wizard_version = 1

abbrev pub completed_wizard : ℕ → ℕ → WizardSettings
completed_wizard now version = record {
  wizard_completed = true;
  wizard_completed_at = some now;
  wizard_version = version;
}

-- The settings that `getSettings` makes of those in memory and of their section `server`.
abbrev pub shared_of : Bool → Settings → ServerSettings → SharedSettings
shared_of is_typeorm_mode e v = record {
  server = record {
    login_required = v.login_required;
    registration = v.registration;
    sentry_diagnostics_enabled = v.sentry_diagnostics_enabled;
    experimental_moonraker_support = v.experimental_moonraker_support;
    experimental_typeorm_support = is_typeorm_mode;
    experimental_client_support = v.experimental_client_support;
    experimental_thumbnail_support = v.experimental_thumbnail_support;
  };
  wizard = e.wizard;
  frontend = e.frontend;
  printer_file_clean = e.printer_file_clean;
  timeout = e.timeout;
}

module _ (repo : Repository Settings) where
  open repo use {Table}

  pub record Store : Type 0 where
    pub table : Table
    pub settings : Option Settings
    pub sentry : Option Bool

  -- A property read of the section, which fails if the section is not there.
  abbrev property_of : {A : Type 0} → Option A → Prog Store A
  property_of none = fail type_error
  property_of (some a) = pure a

  unfoldable pub get_settings : Bool → Prog Store SharedSettings
  get_settings is_typeorm_mode s = elim s.settings [
    | none ↦ (throw internal_server_exception, s)
    | some e ↦ elim e.server [
      | none ↦ (throw type_error, s)
      | some v ↦ (ok (shared_of is_typeorm_mode e v), s)
    ]
  ]

  -- `this.settings = await ...` on a method of the service.
  unfoldable pub assign_settings : Prog Table Settings → Prog Store (Unit {0})
  assign_settings m s =
      let (r, t) = m s.table in
      elim r [
        | ok e ↦ (ok tt, record s { table = t; settings = some e })
        | throw x ↦ (throw x, record s { table = t })
      ]

  unfoldable pub get_anonymous_diagnostics_enabled : Prog Store Bool
  get_anonymous_diagnostics_enabled s = elim s.settings [
    | none ↦ (throw type_error, s)
    | some e ↦ elim e.server [
      | none ↦ (throw type_error, s)
      | some v ↦ (ok v.sentry_diagnostics_enabled, s)
    ]
  ]

  -- Nothing is set in the test environment.
  unfoldable pub process_sentry_enabled : Bool → Prog Store (Unit {0})
  unfolding get_anonymous_diagnostics_enabled
  process_sentry_enabled is_test = do
    sentry_enabled ← get_anonymous_diagnostics_enabled
    modify (λ s. elim s.sentry [
      | none ↦ s
      | some was ↦ if is_test then s else record s { sentry = some sentry_enabled }
    ])

  unfoldable pub load_settings : Bool → String → Prog Store (Unit {0})
  unfolding process_sentry_enabled assign_settings Service.get_or_create
  load_settings is_test uuid = do
    assign_settings (Service.get_or_create repo uuid)
    process_sentry_enabled is_test

  unfoldable pub update_server_settings : Bool → String → ServerPatch → Prog Store SharedSettings
  unfolding get_settings assign_settings Service.patch_server_settings
  update_server_settings mode uuid p = do
    assign_settings (Service.patch_server_settings repo uuid p)
    get_settings mode

  unfoldable pub set_registration_enabled : Bool → String → Bool → Prog Store SharedSettings
  unfolding update_server_settings
  set_registration_enabled mode uuid b =
      update_server_settings mode uuid (record no_server_patch { registration = some b })

  unfoldable pub set_login_required : Bool → String → Bool → Prog Store SharedSettings
  unfolding update_server_settings
  set_login_required mode uuid b =
      update_server_settings mode uuid (record no_server_patch { login_required = some b })

  unfoldable pub set_experimental_moonraker_support :
      Bool → String → Bool → Prog Store SharedSettings
  unfolding update_server_settings
  set_experimental_moonraker_support mode uuid b =
      update_server_settings mode uuid
        (record no_server_patch { experimental_moonraker_support = some b })

  unfoldable pub set_experimental_thumbnail_support :
      Bool → String → Bool → Prog Store SharedSettings
  unfolding update_server_settings
  set_experimental_thumbnail_support mode uuid b =
      update_server_settings mode uuid
        (record no_server_patch { experimental_thumbnail_support = some b })

  unfoldable pub set_experimental_client_support : Bool → String → Bool → Prog Store SharedSettings
  unfolding update_server_settings
  set_experimental_client_support mode uuid b =
      update_server_settings mode uuid
        (record no_server_patch { experimental_client_support = some b })

  unfoldable pub set_sentry_diagnostics_enabled :
      Bool → Bool → String → Bool → Prog Store SharedSettings
  unfolding get_settings assign_settings process_sentry_enabled Service.patch_server_settings
  set_sentry_diagnostics_enabled is_test mode uuid b = do
    assign_settings (
        Service.patch_server_settings repo uuid
          (record no_server_patch { sentry_diagnostics_enabled = some b }))
    process_sentry_enabled is_test
    get_settings mode

  unfoldable pub set_wizard_completed : Bool → String → ℕ → ℕ → Prog Store SharedSettings
  unfolding get_settings assign_settings Service.patch_wizard_settings
  set_wizard_completed mode uuid now version = do
    assign_settings (Service.patch_wizard_settings repo uuid (completed_wizard now version))
    get_settings mode

  unfoldable pub update_timeout_settings :
      Bool → String → TimeoutSettings → Prog Store SharedSettings
  unfolding get_settings assign_settings Service.update_timeout_settings
  update_timeout_settings mode uuid x = do
    assign_settings (Service.update_timeout_settings repo uuid x)
    get_settings mode

  unfoldable pub update_frontend_settings :
      Bool → String → FrontendSettings → Prog Store SharedSettings
  unfolding get_settings assign_settings Service.update_frontend_settings
  update_frontend_settings mode uuid x = do
    assign_settings (Service.update_frontend_settings repo uuid x)
    get_settings mode

  unfoldable pub patch_file_clean_settings :
      Bool → String → FileCleanPatch → Prog Store SharedSettings
  unfolding get_settings assign_settings Service.patch_file_clean_settings
  patch_file_clean_settings mode uuid p = do
    assign_settings (Service.patch_file_clean_settings repo uuid p)
    get_settings mode

  unfoldable pub update_credential_settings :
      Bool → String → CredentialPatch → Prog Store SharedSettings
  unfolding get_settings assign_settings Service.patch_credential_settings
  update_credential_settings mode uuid p = do
    assign_settings (Service.patch_credential_settings repo uuid p)
    get_settings mode

  -- An empty text is no override; `parse_int` is the runtime's `parseInt`.
  unfoldable pub persist_optional_credential_settings :
      Bool → String → (String → ℕ) → String → String → Prog Store (Unit {0})
  unfolding update_credential_settings
  persist_optional_credential_settings mode uuid parse_int secret expires_in = do
    if str_eq secret "" then pure tt else do
      update_credential_settings mode uuid (record no_credential_patch { jwt_secret = some secret })
      pure tt
    if str_eq expires_in "" then pure tt else do
      update_credential_settings mode uuid
          (record no_credential_patch { jwt_expires_in = some (parse_int expires_in) })
      pure tt

  unfoldable pub get_wizard_state : Prog Store WizardState
  get_wizard_state = do
    s ← gets (λ s. s.settings)
    e ← property_of s
    w ← property_of e.wizard
    pure (record {
      wizard_completed = w.wizard_completed;
      wizard_version = w.wizard_version;
      latest_wizard_version = current_wizard_version;
    })

  unfoldable pub is_wizard_completed : Prog Store Bool
  is_wizard_completed = do
    s ← gets (λ s. s.settings)
    e ← property_of s
    w ← property_of e.wizard
    pure (w.wizard_completed && (w.wizard_version == current_wizard_version))

  unfoldable pub get_login_required : Bool → Prog Store Bool
  unfolding get_settings
  get_login_required mode = do shared ← get_settings mode; pure shared.server.login_required
