-- ===== src/Settings/Store/Restarted.antt =====
-- src/state/settings.store.ts: any calls of its methods, and the start of the next process.
use d_hub.Settings.Service
use d_hub.Settings.Service.{read_settings}
use d_hub.Base.{
  ℕ, String, ◌≡◌, refl, ◌∙◌, inl, inr, Bool, none, some, List, [], ◌∷◌, arith, ok, Prog, ◌>>◌, pure,
  bind-eq_ok,
}
use d_hub.Settings.Store.Synced.{
  IsSynced, as_read, kept_view, migrated_view, KeepsSync, then-KeepsSync, assign-KeepsSync,
  get-KeepsSync, sentry-KeepsSync, loaded-IsSynced,
}
use d_hub.Settings.Store.Commits.{
  IsCommit, timeout-IsCommit, frontend-IsCommit, wizard-IsCommit, file_clean-IsCommit,
  credentials-IsCommit, server-IsCommit,
}
use d_hub.Settings.Store.{
  SharedSettings, completed_wizard, shared_of, Store, get_settings, assign_settings,
  get_anonymous_diagnostics_enabled, process_sentry_enabled, load_settings, update_server_settings,
  set_registration_enabled, set_login_required, set_experimental_moonraker_support,
  set_experimental_thumbnail_support, set_experimental_client_support,
  set_sentry_diagnostics_enabled, set_wizard_completed, update_timeout_settings,
  update_frontend_settings, patch_file_clean_settings, update_credential_settings,
}
use d_hub.Orm.{Repository}
use d_hub.Settings.{
  FrontendSettings, TimeoutSettings, Settings, migrate_server, migrate_settings_runtime,
  ServerPatch, no_server_patch, CredentialPatch, FileCleanPatch,
}

module _ (repo : Repository Settings) where
  open repo use {Table}

  -- The methods of the store that change the settings, with the secret that a missing section of credentials
  -- would get.
  pub data StoreOp : Type 0 where
    update_server : String → ServerPatch → StoreOp
    registration login moonraker thumbnails client sentry_diagnostics : String → Bool → StoreOp
    wizard_completed : String → ℕ → ℕ → StoreOp
    timeout_op : String → TimeoutSettings → StoreOp
    frontend_op : String → FrontendSettings → StoreOp
    file_clean_op : String → FileCleanPatch → StoreOp
    credential_op : String → CredentialPatch → StoreOp

  module _ (is_test mode : Bool) where
    unfoldable pub run_op : StoreOp → Prog (Store repo) SharedSettings
    run_op (update_server u p) = update_server_settings repo mode u p
    run_op (registration u b) = set_registration_enabled repo mode u b
    run_op (login u b) = set_login_required repo mode u b
    run_op (moonraker u b) = set_experimental_moonraker_support repo mode u b
    run_op (thumbnails u b) = set_experimental_thumbnail_support repo mode u b
    run_op (client u b) = set_experimental_client_support repo mode u b
    run_op (sentry_diagnostics u b) = set_sentry_diagnostics_enabled repo is_test mode u b
    run_op (wizard_completed u now v) = set_wizard_completed repo mode u now v
    run_op (timeout_op u x) = update_timeout_settings repo mode u x
    run_op (frontend_op u x) = update_frontend_settings repo mode u x
    run_op (file_clean_op u p) = patch_file_clean_settings repo mode u p
    run_op (credential_op u p) = update_credential_settings repo mode u p

    unfoldable pub run_ops : List StoreOp → Prog (Store repo) (Unit {0})
    unfolding run_op
    run_ops [] = pure tt
    run_ops (op ∷ ops) = run_op op >> run_ops ops

    assign_then-KeepsSync :
        (m : Prog Table Settings)
        → IsCommit repo m
        → KeepsSync repo (assign_settings repo m >> get_settings repo mode)
    assign_then-KeepsSync m h =
        then-KeepsSync repo (assign_settings repo m) (λ u. get_settings repo mode)
          (assign-KeepsSync repo m h) (λ u. get-KeepsSync repo mode)

    update_server-KeepsSync :
        (u : String) (p : ServerPatch) → KeepsSync repo (update_server_settings repo mode u p)
    unfolding update_server_settings
    update_server-KeepsSync u p =
        assign_then-KeepsSync (Service.patch_server_settings repo u p) (server-IsCommit repo u p)

    run_op-KeepsSync : (op : StoreOp) → KeepsSync repo (run_op op)
    unfolding run_op set_registration_enabled set_login_required set_experimental_moonraker_support
        set_experimental_thumbnail_support set_experimental_client_support
        set_sentry_diagnostics_enabled set_wizard_completed update_timeout_settings
        update_frontend_settings patch_file_clean_settings update_credential_settings
    run_op-KeepsSync (update_server u p) = update_server-KeepsSync u p
    run_op-KeepsSync (registration u b) =
        update_server-KeepsSync u (record no_server_patch { registration = some b })
    run_op-KeepsSync (login u b) =
        update_server-KeepsSync u (record no_server_patch { login_required = some b })
    run_op-KeepsSync (moonraker u b) =
        update_server-KeepsSync u
          (record no_server_patch { experimental_moonraker_support = some b })
    run_op-KeepsSync (thumbnails u b) =
        update_server-KeepsSync u
          (record no_server_patch { experimental_thumbnail_support = some b })
    run_op-KeepsSync (client u b) =
        update_server-KeepsSync u (record no_server_patch { experimental_client_support = some b })
    run_op-KeepsSync (sentry_diagnostics u b) =
        then-KeepsSync repo
          (assign_settings repo (
            Service.patch_server_settings repo u
              (record no_server_patch { sentry_diagnostics_enabled = some b })))
          (λ v. process_sentry_enabled repo is_test >> get_settings repo mode)
          (assign-KeepsSync repo
            (Service.patch_server_settings repo u
              (record no_server_patch { sentry_diagnostics_enabled = some b }))
            (server-IsCommit repo u
              (record no_server_patch { sentry_diagnostics_enabled = some b })))
          (λ v.
            then-KeepsSync repo (process_sentry_enabled repo is_test) (λ w. get_settings repo mode)
              (sentry-KeepsSync repo is_test) (λ w. get-KeepsSync repo mode))
    run_op-KeepsSync (wizard_completed u now v) =
        assign_then-KeepsSync (Service.patch_wizard_settings repo u (completed_wizard now v))
          (wizard-IsCommit repo u (completed_wizard now v))
    run_op-KeepsSync (timeout_op u x) =
        assign_then-KeepsSync (Service.update_timeout_settings repo u x) (timeout-IsCommit repo u x)
    run_op-KeepsSync (frontend_op u x) =
        assign_then-KeepsSync (Service.update_frontend_settings repo u x)
          (frontend-IsCommit repo u x)
    run_op-KeepsSync (file_clean_op u p) =
        assign_then-KeepsSync (Service.patch_file_clean_settings repo u p)
          (file_clean-IsCommit repo u p)
    run_op-KeepsSync (credential_op u p) =
        assign_then-KeepsSync (Service.patch_credential_settings repo u p)
          (credentials-IsCommit repo u p)

    run_ops-KeepsSync : (ops : List StoreOp) → KeepsSync repo (run_ops ops)
    unfolding run_ops KeepsSync
    run_ops-KeepsSync [] s i = (tt, s, refl, i)
    run_ops-KeepsSync (op ∷ ops) s i =
        then-KeepsSync repo (run_op op) (λ a. run_ops ops) (run_op-KeepsSync op)
          (λ a. run_ops-KeepsSync ops) s i

    load-IsSynced :
        (uuid : String) (s : Store repo)
        → (s' : Store repo) × (load_settings repo is_test uuid s ≡ (ok tt, s')) × IsSynced repo s'
    unfolding load_settings KeepsSync
    load-IsSynced uuid s =
        let (s', e, i) = loaded-IsSynced repo uuid s in
        let (u, s'', e', i') = sentry-KeepsSync repo is_test s' i in
        (
          s'',
          bind-eq_ok (assign_settings repo (Service.get_or_create repo uuid))
                (λ v. process_sentry_enabled repo is_test) e
              ∙ e',
          i',
        )

    -- The process ends, and another reads the same tables.
    abbrev pub restart : Store repo → Store repo
    restart s = record s { settings = none }

    shared_of-migrate :
        (s : Store repo) (i : IsSynced repo s) (uuid : String)
        → shared_of mode (migrate_settings_runtime uuid i.stored) (migrate_server i.stored.server)
          ≡ as_read (shared_of mode i.memory i.has_all.some_server)
    unfolding migrate_settings_runtime
    shared_of-migrate s i uuid = elim i.same [
      | inl e ↦ rw (e) (kept_view repo mode i.memory i.has_all uuid)
      | inr (u, e) ↦ migrated_view repo mode u uuid i.stored i.memory i.has_all e
    ]

    reload_lem :
        (s : Store repo) (i : IsSynced repo s) (uuid : String)
        → (s' : Store repo) × ((load_settings repo is_test uuid >> get_settings repo mode)
              (restart s)
            ≡ (ok (as_read (shared_of mode i.memory i.has_all.some_server)), s'))
    unfolding load_settings assign_settings Service.get_or_create process_sentry_enabled
        get_anonymous_diagnostics_enabled get_settings migrate_settings_runtime
    reload_lem s i uuid =
        let u = record s { settings = some (migrate_settings_runtime uuid i.stored) } in
        (
          (process_sentry_enabled repo is_test u).1,
          ground (arith, i.in_row, shared_of-migrate s i uuid),
        )

    -- From any tables, loading the settings and then any calls of the store's methods return, and the client then
    -- sees settings; were the process to restart, it would see the same but for the file clean settings, which
    -- migrate at the reading.
    pub restart-run_ops :
        (uuid uuid' : String) (ops : List StoreOp) (s : Store repo)
        → (shared : SharedSettings) × (s' s'' : Store repo) × ((load_settings repo is_test uuid
                >> run_ops ops)
              s
            ≡ (ok tt, s'))
          × (get_settings repo mode s' ≡ (ok shared, s'))
          × ((load_settings repo is_test uuid' >> get_settings repo mode) (restart s')
              ≡ (ok (as_read shared), s''))
    unfolding get_settings KeepsSync
    restart-run_ops uuid uuid' ops s =
        let (s1, e, i) = load-IsSynced uuid s in
        let (u, s2, e', j) = run_ops-KeepsSync ops s1 i in
        let (s3, r) = reload_lem s2 j uuid' in
        (
          shared_of mode j.memory j.has_all.some_server,
          s2,
          s3,
          bind-eq_ok (load_settings repo is_test uuid) (λ v. run_ops ops) e ∙ e',
          ground (arith, j.in_memory, j.has_all.has_server),
          r,
        )
