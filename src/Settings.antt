-- ===== src/Settings.antt =====
-- src/entities/settings.entity.ts and src/services/orm/settings.service.ts over the table of settings.
-- A section that a stored row lacks is `none`; `uuid` is the secret that `uuidv4` draws.
pub mod Service
pub mod Store
pub mod Stored
mod Tests
use mathlib.Core.Option
use d_hub.Orm
use d_hub.Base.{ℕ, ◌*◌, String, Bool, true, false, Option, none, some}

pub record DebugSettings : Type 0 where
  pub debug_socket_io_events : Bool
  pub debug_socket_reconnect : Bool
  pub debug_socket_retries : Bool
  pub debug_socket_setup : Bool
  pub debug_socket_messages : Bool
  pub debug_socket_io_bandwidth : Bool

pub record ServerSettings : Type 0 where
  pub debug_settings : DebugSettings
  pub login_required : Bool
  pub registration : Bool
  pub sentry_diagnostics_enabled : Bool
  pub experimental_moonraker_support : Bool
  pub experimental_typeorm_support : Option Bool
  pub experimental_client_support : Bool
  pub experimental_thumbnail_support : Option Bool

-- `refreshTokenAttempts` is -1, here `none`, or a cap.
pub record Credentials : Type 0 where
  pub jwt_secret : String
  pub jwt_expires_in : ℕ
  pub refresh_token_attempts : Option ℕ
  pub refresh_token_expiry : ℕ

pub record WizardSettings : Type 0 where
  pub wizard_completed : Bool
  pub wizard_completed_at : Option ℕ
  pub wizard_version : ℕ

pub record FileCleanSettings : Type 0 where
  pub auto_remove_old_files_before_upload : Bool
  pub auto_remove_old_files_at_boot : Bool
  pub auto_remove_old_files_criterium_days : ℕ

pub record FrontendSettings : Type 0 where
  pub grid_cols : ℕ
  pub grid_rows : ℕ
  pub large_tiles : Bool
  pub tile_prefer_cancel_over_quick_stop : Bool

pub record TimeoutSettings : Type 0 where
  pub api_timeout : ℕ

pub record Settings : Type 0 where
  pub id : ℕ
  pub server : Option ServerSettings
  pub credentials : Option Credentials
  pub wizard : Option WizardSettings
  pub printer_file_clean : Option FileCleanSettings
  pub frontend : Option FrontendSettings
  pub timeout : Option TimeoutSettings

abbrev pub default_debug_settings : DebugSettings
default_debug_settings = record {
  debug_socket_io_events = false;
  debug_socket_reconnect = false;
  debug_socket_retries = false;
  debug_socket_setup = false;
  debug_socket_messages = false;
  debug_socket_io_bandwidth = false;
}

abbrev pub get_default_server_settings : ServerSettings
get_default_server_settings = record {
  debug_settings = default_debug_settings;
  login_required = true;
  registration = false;
  sentry_diagnostics_enabled = false;
  experimental_moonraker_support = false;
  experimental_typeorm_support = some false;
  experimental_client_support = false;
  experimental_thumbnail_support = some false;
}

abbrev pub get_default_credential_settings : String → Credentials
get_default_credential_settings uuid = record {
  jwt_secret = uuid;
  jwt_expires_in = 60 * 60;
  refresh_token_attempts = none;
  refresh_token_expiry = 60 * 60 * 24 * 14;
}

abbrev pub get_default_wizard_settings : WizardSettings
get_default_wizard_settings = record {
  wizard_completed = false;
  wizard_completed_at = none;
  wizard_version = 0;
}

abbrev pub get_default_file_clean_settings : FileCleanSettings
get_default_file_clean_settings = record {
  auto_remove_old_files_before_upload = false;
  auto_remove_old_files_at_boot = false;
  auto_remove_old_files_criterium_days = 7;
}

abbrev pub get_default_frontend_settings : FrontendSettings
get_default_frontend_settings = record {
  grid_cols = 8;
  grid_rows = 8;
  large_tiles = false;
  tile_prefer_cancel_over_quick_stop = false;
}

abbrev pub get_default_timeout : TimeoutSettings
get_default_timeout = record { api_timeout = 10000 }

abbrev pub default_settings : String → ℕ → Settings
default_settings uuid k = record {
  id = k;
  server = some get_default_server_settings;
  credentials = some (get_default_credential_settings uuid);
  wizard = some get_default_wizard_settings;
  printer_file_clean = some get_default_file_clean_settings;
  frontend = some get_default_frontend_settings;
  timeout = some get_default_timeout;
}

-- "Remove superfluous settings": `autoRemoveOldFilesAtBoot` is read from the field before it.
unfoldable pub migrate_file_clean : Option FileCleanSettings → FileCleanSettings
migrate_file_clean none = get_default_file_clean_settings
migrate_file_clean (some c) = record c {
  auto_remove_old_files_at_boot = c.auto_remove_old_files_before_upload;
}

unfoldable pub migrate_server : Option ServerSettings → ServerSettings
migrate_server none = get_default_server_settings
migrate_server (some s) = record s {
  experimental_typeorm_support = none;
  experimental_thumbnail_support = some (Option.get_or s.experimental_thumbnail_support false);
}

unfoldable pub migrate_settings_runtime : String → Settings → Settings
unfolding migrate_file_clean migrate_server
migrate_settings_runtime uuid s = record s {
  printer_file_clean = some (migrate_file_clean s.printer_file_clean);
  wizard = some (Option.get_or s.wizard get_default_wizard_settings);
  timeout = some (Option.get_or s.timeout get_default_timeout);
  server = some (migrate_server s.server);
  credentials = some (Option.get_or s.credentials (get_default_credential_settings uuid));
  frontend = some (Option.get_or s.frontend get_default_frontend_settings);
}

-- A partial object: a field that it lacks is `none`.
pub record ServerPatch : Type 0 where
  pub login_required : Option Bool
  pub registration : Option Bool
  pub sentry_diagnostics_enabled : Option Bool
  pub experimental_moonraker_support : Option Bool
  pub experimental_client_support : Option Bool
  pub experimental_thumbnail_support : Option Bool

abbrev pub no_server_patch : ServerPatch
no_server_patch = record {
  login_required = none;
  registration = none;
  sentry_diagnostics_enabled = none;
  experimental_moonraker_support = none;
  experimental_client_support = none;
  experimental_thumbnail_support = none;
}

unfoldable pub patch_server : ServerPatch → ServerSettings → ServerSettings
patch_server p s = record s {
  login_required = Option.get_or p.login_required s.login_required;
  registration = Option.get_or p.registration s.registration;
  sentry_diagnostics_enabled =
      Option.get_or p.sentry_diagnostics_enabled s.sentry_diagnostics_enabled;
  experimental_moonraker_support =
      Option.get_or p.experimental_moonraker_support s.experimental_moonraker_support;
  experimental_client_support =
      Option.get_or p.experimental_client_support s.experimental_client_support;
  experimental_thumbnail_support = elim p.experimental_thumbnail_support [
    | none ↦ s.experimental_thumbnail_support
    | some b ↦ some b
  ];
}

pub record CredentialPatch : Type 0 where
  pub jwt_secret : Option String
  pub jwt_expires_in : Option ℕ
  pub refresh_token_attempts : Option (Option ℕ)
  pub refresh_token_expiry : Option ℕ

abbrev pub no_credential_patch : CredentialPatch
no_credential_patch = record {
  jwt_secret = none;
  jwt_expires_in = none;
  refresh_token_attempts = none;
  refresh_token_expiry = none;
}

unfoldable pub patch_credentials : CredentialPatch → Credentials → Credentials
patch_credentials p c = record {
  jwt_secret = Option.get_or p.jwt_secret c.jwt_secret;
  jwt_expires_in = Option.get_or p.jwt_expires_in c.jwt_expires_in;
  refresh_token_attempts = Option.get_or p.refresh_token_attempts c.refresh_token_attempts;
  refresh_token_expiry = Option.get_or p.refresh_token_expiry c.refresh_token_expiry;
}

pub record FileCleanPatch : Type 0 where
  pub auto_remove_old_files_before_upload : Option Bool
  pub auto_remove_old_files_at_boot : Option Bool
  pub auto_remove_old_files_criterium_days : Option ℕ

unfoldable pub patch_file_clean : FileCleanPatch → FileCleanSettings → FileCleanSettings
patch_file_clean p c = record {
  auto_remove_old_files_before_upload =
      Option.get_or p.auto_remove_old_files_before_upload c.auto_remove_old_files_before_upload;
  auto_remove_old_files_at_boot =
      Option.get_or p.auto_remove_old_files_at_boot c.auto_remove_old_files_at_boot;
  auto_remove_old_files_criterium_days =
      Option.get_or p.auto_remove_old_files_criterium_days c.auto_remove_old_files_criterium_days;
}
