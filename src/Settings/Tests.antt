-- ===== src/Settings/Tests.antt =====
-- Settings that are made, changed and read again.
use d_hub.Base.{◌≡◌, refl, true, false, none, some, List, [], ◌∷◌, ok, ◌>>◌}
use d_hub.Settings.Store.Restarted.{
  StoreOp, login, sentry_diagnostics, wizard_completed, file_clean_op, run_op, run_ops, restart,
  restart-run_ops,
}
use d_hub.Settings.Store.Synced.{as_read}
use d_hub.Settings.Store.{SharedSettings, Store, get_settings, load_settings}
use d_hub.Orm.{Repository}
use d_hub.Orm.Table.{in_memory}
use d_hub.Settings.{
  Settings, get_default_file_clean_settings, migrate_settings_runtime, FileCleanPatch,
  patch_file_clean,
}

abbrev settings_repo : Repository Settings
settings_repo = in_memory (λ s. s.id)

abbrev started : Store settings_repo
started = record { table = []; settings = none; sentry = some false }

abbrev boot_patch : FileCleanPatch
boot_patch = record {
  auto_remove_old_files_before_upload = none;
  auto_remove_old_files_at_boot = some true;
  auto_remove_old_files_criterium_days = some 3;
}

abbrev some_ops : List (StoreOp settings_repo)
some_ops =
    login "b" false
    ∷ file_clean_op "c" boot_patch
    ∷ sentry_diagnostics "d" true
    ∷ wizard_completed "e" 1000 1
    ∷ []

restart-run_ops_example :
    (shared : SharedSettings) × (s' s'' : Store settings_repo) × ((load_settings settings_repo false
            "a"
          >> run_ops settings_repo false true some_ops)
        started
      ≡ (ok tt, s'))
    × (get_settings settings_repo true s' ≡ (ok shared, s'))
    × ((load_settings settings_repo false "z" >> get_settings settings_repo true)
          (restart settings_repo false true s')
        ≡ (ok (as_read shared), s''))
restart-run_ops_example = restart-run_ops settings_repo false true "a" "z" some_ops started

-- The option of Sentry's client follows the settings.
sentry_follows :
    ((load_settings settings_repo false "a" >> run_ops settings_repo false true some_ops)
      started).1.sentry
    ≡ some true
unfolding load_settings run_ops run_op d_hub.Settings.Store.set_login_required
    d_hub.Settings.Store.patch_file_clean_settings
    d_hub.Settings.Store.set_sentry_diagnostics_enabled d_hub.Settings.Store.set_wizard_completed
sentry_follows = refl
