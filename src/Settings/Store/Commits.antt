-- ===== src/Settings/Store/Commits.antt =====
-- src/services/orm/settings.service.ts: the changes that src/state/settings.store.ts makes by it.
use d_hub.Settings.Service
use d_hub.Settings.Service.{read_settings}
use mathlib.Core.Option
use d_hub.Base.{
  ℕ, String, ◌≡◌, refl, ◌∙◌, inl, inr, Bool, false, Option, none, some, arith, Option-cases, ok,
  Prog,
}
use d_hub.Settings.Stored.{write_lem, get_or_create-read}
use d_hub.Orm.{Repository}
use d_hub.Settings.{
  ServerSettings, Credentials, WizardSettings, FileCleanSettings, FrontendSettings, TimeoutSettings,
  Settings, get_default_server_settings, get_default_credential_settings,
  get_default_wizard_settings, get_default_file_clean_settings, get_default_frontend_settings,
  get_default_timeout, default_settings, migrate_file_clean, migrate_server,
  migrate_settings_runtime, ServerPatch, patch_server, CredentialPatch, patch_credentials,
  FileCleanPatch, patch_file_clean,
}

-- The settings have all sections but, perhaps, the credentials.
pub record IsComplete (e : Settings) : Type 0 where
  pub some_server : ServerSettings
  pub some_thumbnail : Bool
  pub some_wizard : WizardSettings
  pub some_file_clean : FileCleanSettings
  pub some_frontend : FrontendSettings
  pub some_timeout : TimeoutSettings
  pub has_server : e.server ≡ some some_server
  pub has_thumbnail : some_server.experimental_thumbnail_support ≡ some some_thumbnail
  pub has_wizard : e.wizard ≡ some some_wizard
  pub has_file_clean : e.printer_file_clean ≡ some some_file_clean
  pub has_frontend : e.frontend ≡ some some_frontend
  pub has_timeout : e.timeout ≡ some some_timeout

thumbnail-patch :
    (p : ServerPatch) (v : ServerSettings) {b : Bool}
    → v.experimental_thumbnail_support ≡ some b
    → (c : Bool) × ((patch_server p v).experimental_thumbnail_support ≡ some c)
unfolding patch_server
thumbnail-patch p v {b} h = elim (Option-cases p.experimental_thumbnail_support) [
  | inl e ↦ (b, ground (arith, e, h))
  | inr (c, e) ↦ (c, ground (arith, e))
]

thumbnail-migrate :
    (o : Option ServerSettings)
    → (c : Bool) × ((migrate_server o).experimental_thumbnail_support ≡ some c)
unfolding migrate_server
thumbnail-migrate none = (false, refl)
thumbnail-migrate (some s) = (Option.get_or s.experimental_thumbnail_support false, refl)

complete :
    (k : ℕ) (v : ServerSettings) {b : Bool} (c : Option Credentials) (w : WizardSettings)
    (f : FileCleanSettings) (g : FrontendSettings) (t : TimeoutSettings)
    → v.experimental_thumbnail_support ≡ some b
    → IsComplete (record {
      id = k;
      server = some v;
      credentials = c;
      wizard = some w;
      printer_file_clean = some f;
      frontend = some g;
      timeout = some t;
    })
complete k v {b} c w f g t h = record {
  some_server = v;
  some_thumbnail = b;
  some_wizard = w;
  some_file_clean = f;
  some_frontend = g;
  some_timeout = t;
  has_server = refl;
  has_thumbnail = h;
  has_wizard = refl;
  has_file_clean = refl;
  has_frontend = refl;
  has_timeout = refl;
}

-- All sections of the row `r` once migrated, but those given.
migrated-IsComplete :
    (uuid : String) (r : Settings) (c : Option Credentials) (w : WizardSettings)
    (f : FileCleanSettings) (g : FrontendSettings) (t : TimeoutSettings)
    → IsComplete (record (migrate_settings_runtime uuid r) {
      credentials = c;
      wizard = some w;
      printer_file_clean = some f;
      frontend = some g;
      timeout = some t;
    })
unfolding migrate_settings_runtime
migrated-IsComplete uuid r c w f g t =
    let (b, h) = thumbnail-migrate r.server in complete r.id (migrate_server r.server) c w f g t h

abbrev wizard_of : Settings → WizardSettings
wizard_of r = Option.get_or r.wizard get_default_wizard_settings

abbrev frontend_of : Settings → FrontendSettings
frontend_of r = Option.get_or r.frontend get_default_frontend_settings

abbrev timeout_of : Settings → TimeoutSettings
timeout_of r = Option.get_or r.timeout get_default_timeout

abbrev credentials_of : String → Settings → Credentials
credentials_of uuid r = Option.get_or r.credentials (get_default_credential_settings uuid)

abbrev file_clean_of : Settings → FileCleanSettings
unfolding migrate_file_clean
file_clean_of r = migrate_file_clean r.printer_file_clean

pub migrate-IsComplete :
    (uuid : String) (r : Settings) → IsComplete (migrate_settings_runtime uuid r)
unfolding migrate_settings_runtime
migrate-IsComplete uuid r =
    migrated-IsComplete uuid r (some (credentials_of uuid r)) (wizard_of r) (file_clean_of r)
      (frontend_of r) (timeout_of r)

module _ (repo : Repository Settings) where
  open repo use {Table}

  -- A change of the row that is there: the complete settings that it returns are then in the row.
  unfoldable pub IsCommit : Prog Table Settings → Type 0
  IsCommit m =
      (t : Table) (r : Settings)
      → read_settings repo t ≡ some r
      → (e : Settings) × (t' : Table) × (m t ≡ (ok e, t'))
        × (read_settings repo t' ≡ some e)
        × IsComplete e

  pub section-IsCommit :
      (uuid : String) (f : Settings → Settings)
      → ((r : Settings) → IsComplete (f (migrate_settings_runtime uuid r)))
      → IsCommit (Service.update_section repo uuid f)
  unfolding IsCommit Service.update_section
  section-IsCommit uuid f c t r h =
      let (t', w, x) = write_lem repo (f (migrate_settings_runtime uuid r)) t h in
      (
        f (migrate_settings_runtime uuid r),
        t',
        ground (arith, get_or_create-read repo uuid t h, w),
        x,
        c r,
      )

  pub timeout-IsCommit :
      (uuid : String) (x : TimeoutSettings) → IsCommit (Service.update_timeout_settings repo uuid x)
  unfolding Service.update_timeout_settings migrate_settings_runtime
  timeout-IsCommit uuid x =
      section-IsCommit uuid (λ e. record e { timeout = some x })
        (λ r.
          migrated-IsComplete uuid r (some (credentials_of uuid r)) (wizard_of r) (file_clean_of r)
            (frontend_of r) (x))

  pub frontend-IsCommit :
      (uuid : String) (x : FrontendSettings)
      → IsCommit (Service.update_frontend_settings repo uuid x)
  unfolding Service.update_frontend_settings migrate_settings_runtime
  frontend-IsCommit uuid x =
      section-IsCommit uuid (λ e. record e { frontend = some x })
        (λ r.
          migrated-IsComplete uuid r (some (credentials_of uuid r)) (wizard_of r) (file_clean_of r)
            (x) (timeout_of r))

  pub patched-IsCommit :
      (m : Prog Table Settings) (uuid : String) (f : Settings → Settings → Settings)
      → ((t : Table) (r : Settings)
          → read_settings repo t ≡ some r
          → m t ≡ Service.update_section repo uuid (f r) t)
      → ((r r' : Settings) → IsComplete (f r (migrate_settings_runtime uuid r')))
      → IsCommit m
  unfolding IsCommit
  patched-IsCommit m uuid f h c t r k =
      let (e, t', u, w, x) = section-IsCommit uuid (f r) (c r) t r k in (e, t', h t r k ∙ u, w, x)

  pub wizard-IsCommit :
      (uuid : String) (x : WizardSettings) → IsCommit (Service.patch_wizard_settings repo uuid x)
  unfolding Service.patch_wizard_settings Service.update_wizard_settings migrate_settings_runtime
  wizard-IsCommit uuid x =
      patched-IsCommit (Service.patch_wizard_settings repo uuid x) uuid
        (λ r e. record e { wizard = some x })
        (λ t r h. ground (arith, get_or_create-read repo uuid t h))
        (λ r r'.
          migrated-IsComplete uuid r' (some (credentials_of uuid r')) (x) (file_clean_of r')
            (frontend_of r') (timeout_of r'))

  pub file_clean-IsCommit :
      (uuid : String) (p : FileCleanPatch)
      → IsCommit (Service.patch_file_clean_settings repo uuid p)
  unfolding Service.patch_file_clean_settings Service.update_file_clean_settings
      migrate_settings_runtime
  file_clean-IsCommit uuid p =
      patched-IsCommit (Service.patch_file_clean_settings repo uuid p) uuid
        (λ r e. record e { printer_file_clean = some (patch_file_clean p (file_clean_of r)) })
        (λ t r h. ground (arith, get_or_create-read repo uuid t h))
        (λ r r'.
          migrated-IsComplete uuid r' (some (credentials_of uuid r')) (wizard_of r')
            (patch_file_clean p (file_clean_of r)) (frontend_of r') (timeout_of r'))

  pub credentials-IsCommit :
      (uuid : String) (p : CredentialPatch)
      → IsCommit (Service.patch_credential_settings repo uuid p)
  unfolding Service.patch_credential_settings Service.update_credential_settings
      migrate_settings_runtime
  credentials-IsCommit uuid p =
      patched-IsCommit (Service.patch_credential_settings repo uuid p) uuid
        (λ r e. record e { credentials = some (patch_credentials p (credentials_of uuid r)) })
        (λ t r h. ground (arith, get_or_create-read repo uuid t h))
        (λ r r'.
          migrated-IsComplete uuid r' (some (patch_credentials p (credentials_of uuid r)))
            (wizard_of r') (file_clean_of r') (frontend_of r') (timeout_of r'))

  pub server-IsCommit :
      (uuid : String) (p : ServerPatch) → IsCommit (Service.patch_server_settings repo uuid p)
  unfolding Service.patch_server_settings Service.update_server_settings migrate_settings_runtime
  server-IsCommit uuid p =
      patched-IsCommit (Service.patch_server_settings repo uuid p) uuid
        (λ r e. record e { server = some (patch_server p (migrate_server r.server)) })
        (λ t r h. ground (arith, get_or_create-read repo uuid t h))
        (λ r r'.
          let (c, h) = thumbnail-migrate r.server in
          let (d, k) = thumbnail-patch p (migrate_server r.server) h in
          complete r'.id (patch_server p (migrate_server r.server)) (some (credentials_of uuid r'))
            (wizard_of r') (file_clean_of r') (frontend_of r') (timeout_of r') k)

pub default-IsComplete : (uuid : String) (k : ℕ) → IsComplete (default_settings uuid k)
default-IsComplete uuid k =
    complete k get_default_server_settings (some (get_default_credential_settings uuid))
      get_default_wizard_settings get_default_file_clean_settings get_default_frontend_settings
      get_default_timeout refl
