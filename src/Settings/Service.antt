-- ===== src/Settings/Service.antt =====
-- src/services/orm/settings.service.ts: reading, creating and changing the row of settings. The
-- inherited `update` reads the entity by the overridden `get`, which knows no id.
use d_hub.Orm
use d_hub.Base.{
  String, Bool, true, Option, none, some, ◌==◌, error, type_error, ok, throw, Prog, ◌>>=◌, ◌>>◌,
  pure, fail,
}
use d_hub.Orm.{Repository}
use d_hub.Settings.{
  ServerSettings, Credentials, WizardSettings, FileCleanSettings, FrontendSettings, TimeoutSettings,
  Settings, default_settings, migrate_settings_runtime, ServerPatch, patch_server, CredentialPatch,
  patch_credentials, FileCleanPatch, patch_file_clean,
}

module _ (repo : Repository Settings) where
  open repo use {Table}

  -- `find({ take: 1 })`
  unfoldable pub read_settings : Table → Option Settings
  read_settings t = repo.find_one_by (λ s. true) t

  unfoldable pub get_or_create : String → Prog Table Settings
  unfolding read_settings Orm.create migrate_settings_runtime
  get_or_create uuid t = elim (read_settings t) [
    | none ↦ Orm.create repo (default_settings uuid) t
    | some s ↦ (ok (migrate_settings_runtime uuid s), t)
  ]

  -- `update(entity.id, entity)` of the base service.
  unfoldable pub write_settings : Settings → Prog Table (Unit {0})
  unfolding read_settings
  write_settings dto t = elim (read_settings t) [
    | none ↦ (throw type_error, t)
    | some s ↦ (ok tt, repo.update (λ r. repo.id r == repo.id s) (λ r. dto) t)
  ]

  -- The five methods that set one section.
  unfoldable pub update_section : String → (Settings → Settings) → Prog Table Settings
  unfolding get_or_create write_settings
  update_section uuid f = do entity ← get_or_create uuid; write_settings (f entity); pure (f entity)

  unfoldable pub update_server_settings : String → ServerSettings → Prog Table Settings
  unfolding update_section
  update_server_settings uuid s = update_section uuid (λ e. record e { server = some s })

  unfoldable pub update_credential_settings : String → Credentials → Prog Table Settings
  unfolding update_section
  update_credential_settings uuid s = update_section uuid (λ e. record e { credentials = some s })

  unfoldable pub update_file_clean_settings : String → FileCleanSettings → Prog Table Settings
  unfolding update_section
  update_file_clean_settings uuid s =
      update_section uuid (λ e. record e { printer_file_clean = some s })

  unfoldable pub update_frontend_settings : String → FrontendSettings → Prog Table Settings
  unfolding update_section
  update_frontend_settings uuid s = update_section uuid (λ e. record e { frontend = some s })

  unfoldable pub update_timeout_settings : String → TimeoutSettings → Prog Table Settings
  unfolding update_section
  update_timeout_settings uuid s = update_section uuid (λ e. record e { timeout = some s })

  unfoldable pub update_wizard_settings : String → WizardSettings → Prog Table Settings
  unfolding update_section
  update_wizard_settings uuid s = update_section uuid (λ e. record e { wizard = some s })

  -- A section of the settings, which the `patch` methods want to be there.
  abbrev section_of : {A : Type 0} → Option A → Prog Table A
  section_of none = fail error
  section_of (some a) = pure a

  unfoldable pub patch_server_settings : String → ServerPatch → Prog Table Settings
  unfolding get_or_create update_server_settings patch_server
  patch_server_settings uuid p = do
    entity ← get_or_create uuid
    s ← section_of entity.server
    update_server_settings uuid (patch_server p s)

  -- The partial object of the store's one call has all fields.
  unfoldable pub patch_wizard_settings : String → WizardSettings → Prog Table Settings
  unfolding get_or_create update_wizard_settings
  patch_wizard_settings uuid w = do
    entity ← get_or_create uuid
    _ ← section_of entity.wizard
    update_wizard_settings uuid w

  unfoldable pub patch_credential_settings : String → CredentialPatch → Prog Table Settings
  unfolding get_or_create update_credential_settings patch_credentials
  patch_credential_settings uuid p = do
    entity ← get_or_create uuid
    c ← section_of entity.credentials
    update_credential_settings uuid (patch_credentials p c)

  unfoldable pub patch_file_clean_settings : String → FileCleanPatch → Prog Table Settings
  unfolding get_or_create update_file_clean_settings patch_file_clean
  patch_file_clean_settings uuid p = do
    entity ← get_or_create uuid
    c ← section_of entity.printer_file_clean
    update_file_clean_settings uuid (patch_file_clean p c)

  -- `entity[serverSettingsKey].loginRequired = enabled` and its like, on the entity read.
  unfoldable pub set_in_server : String → (ServerSettings → ServerSettings) → Prog Table Settings
  unfolding get_or_create write_settings
  set_in_server uuid f = do
    entity ← get_or_create uuid
    elim entity.server [
      | none ↦ fail type_error
      | some s ↦ do let e = record entity { server = some (f s) }; write_settings e; pure e
    ]

  unfoldable pub set_login_required : String → Bool → Prog Table Settings
  unfolding set_in_server
  set_login_required uuid b = set_in_server uuid (λ s. record s { login_required = b })

  unfoldable pub set_registration_enabled : String → Bool → Prog Table Settings
  unfolding set_in_server
  set_registration_enabled uuid b = set_in_server uuid (λ s. record s { registration = b })

  unfoldable pub set_sentry_diagnostics_enabled : String → Bool → Prog Table Settings
  unfolding set_in_server
  set_sentry_diagnostics_enabled uuid b =
      set_in_server uuid (λ s. record s { sentry_diagnostics_enabled = b })
