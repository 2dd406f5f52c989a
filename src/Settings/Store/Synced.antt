-- ===== src/Settings/Store/Synced.antt =====
-- src/state/settings.store.ts: the settings in memory and the stored row, and the methods that keep
-- them alike.
use d_hub.Orm
use d_hub.Settings.Service
use d_hub.Settings.Service.{read_settings}
use d_hub.Base.{
  String, ◌≡◌, refl, ap, ◌∙◌, ◌⊎◌, inl, inr, Bool, some, arith, Option-cases, ok, Prog, ◌>>=◌,
  bind-eq_ok, Result-cases,
}
use d_hub.Settings.Store.Commits.{IsComplete, migrate-IsComplete, IsCommit, default-IsComplete}
use d_hub.Settings.Store.{
  SharedSettings, shared_of, Store, get_settings, assign_settings,
  get_anonymous_diagnostics_enabled, process_sentry_enabled,
}
use d_hub.Settings.Stored.{read-save}
use d_hub.Orm.{Repository}
use d_hub.Settings.{
  Settings, default_settings, migrate_file_clean, migrate_server, migrate_settings_runtime,
}

-- What a reading makes of the settings that the client sees.
abbrev pub as_read : SharedSettings → SharedSettings
unfolding migrate_file_clean
as_read shared = record shared {
  printer_file_clean = some (migrate_file_clean shared.printer_file_clean);
}

module _ (repo : Repository Settings) where
  open repo use {Table}

  -- The settings in memory are those of the row, or what a reading made of them.
  pub record IsSynced (s : Store repo) : Type 0 where
    pub memory : Settings
    pub stored : Settings
    pub in_memory : s.settings ≡ some memory
    pub in_row : read_settings repo s.table ≡ some stored
    pub has_all : IsComplete memory
    pub same :
        (stored ≡ memory) ⊎ ((uuid : String) × (memory ≡ migrate_settings_runtime uuid stored))

  pub kept_view :
      (mode : Bool) (e : Settings) (c : IsComplete e) (uuid : String)
      → shared_of mode (migrate_settings_runtime uuid e) (migrate_server e.server)
        ≡ as_read (shared_of mode e c.some_server)
  unfolding migrate_settings_runtime migrate_server migrate_file_clean
  kept_view mode e c uuid = ground (
    arith, c.has_server, c.has_thumbnail, c.has_wizard, c.has_frontend, c.has_timeout,
    c.has_file_clean,
  )

  pub migrated_view :
      (mode : Bool) (u uuid : String) (r e : Settings) (c : IsComplete e)
      → e ≡ migrate_settings_runtime u r
      → shared_of mode (migrate_settings_runtime uuid r) (migrate_server r.server)
        ≡ as_read (shared_of mode e c.some_server)
  unfolding migrate_settings_runtime migrate_file_clean
  migrated_view mode u uuid r e c h = ground (arith, h, c.has_server)

  -- A method of the store that throws nothing and keeps them so.
  unfoldable pub KeepsSync : {A : Type 0} → Prog (Store repo) A → Type 0
  KeepsSync {A} m =
      (s : Store repo) → IsSynced s → (a : A) × (s' : Store repo) × (m s ≡ (ok a, s')) × IsSynced s'

  pub then-KeepsSync :
      {A B : Type 0} (m : Prog (Store repo) A) (f : A → Prog (Store repo) B)
      → KeepsSync m
      → ((a : A) → KeepsSync (f a))
      → KeepsSync (m >>= f)
  unfolding KeepsSync
  then-KeepsSync m f h k s i =
      let (a, s', e, j) = h s i in
      let (b, s'', e', j') = k a s' j in (b, s'', bind-eq_ok m f e ∙ e', j')

  pub assign-KeepsSync :
      (m : Prog Table Settings) → IsCommit repo m → KeepsSync (assign_settings repo m)
  unfolding KeepsSync assign_settings IsCommit
  assign-KeepsSync m h s i =
      let (e, t, u, w, c) = h s.table i.stored i.in_row in
      (
        tt,
        record s { table = t; settings = some e },
        ground (arith, u),
        record {
          memory = e;
          stored = e;
          in_memory = refl;
          in_row = w;
          has_all = c;
          same = inl refl;
        },
      )

  pub get-KeepsSync : (mode : Bool) → KeepsSync (get_settings repo mode)
  unfolding KeepsSync get_settings
  get-KeepsSync mode s i = elim (Result-cases (get_settings repo mode s).0) [
    | inl (a, e) ↦ (a, s, ground (arith, e, i.in_memory, i.has_all.has_server), i)
    | inr (x, e) ↦ absurd (ground (arith, e, i.in_memory, i.has_all.has_server))
  ]

  same-IsSynced :
      (s s' : Store repo) → s'.settings ≡ s.settings → s'.table ≡ s.table → IsSynced s → IsSynced s'
  same-IsSynced s s' e f i = record {
    memory = i.memory;
    stored = i.stored;
    in_memory = e ∙ i.in_memory;
    in_row = ap (λ t. read_settings repo t) f ∙ i.in_row;
    has_all = i.has_all;
    same = i.same;
  }

  -- Only the option of the client may change.
  process_sentry_enabled_lem :
      (is_test : Bool) (s : Store repo)
      → let s' = (process_sentry_enabled repo is_test s).1 in
        (s'.settings ≡ s.settings) × (s'.table ≡ s.table)
  unfolding process_sentry_enabled get_anonymous_diagnostics_enabled
  process_sentry_enabled_lem is_test s = ground (arith)

  pub sentry-KeepsSync : (is_test : Bool) → KeepsSync (process_sentry_enabled repo is_test)
  unfolding KeepsSync process_sentry_enabled get_anonymous_diagnostics_enabled
  sentry-KeepsSync is_test s i = (
    tt,
    (process_sentry_enabled repo is_test s).1,
    ground (arith, i.in_memory, i.has_all.has_server),
    same-IsSynced s (process_sentry_enabled repo is_test s).1
        (process_sentry_enabled_lem is_test s).0 (process_sentry_enabled_lem is_test s).1 i,
  )

  pub loaded-IsSynced :
      (uuid : String) (s : Store repo)
      → (s' : Store repo) × (assign_settings repo (Service.get_or_create repo uuid) s ≡ (ok tt, s'))
        × IsSynced s'
  unfolding assign_settings Service.get_or_create Orm.create
  loaded-IsSynced uuid s = elim (Option-cases (read_settings repo s.table)) [
    | inl h ↦
        let e = default_settings uuid (repo.next_id s.table) in
        (
          record s { table = repo.save (default_settings uuid) s.table; settings = some e },
          ground (arith, h),
          record {
            memory = e;
            stored = e;
            in_memory = refl;
            in_row = read-save repo (default_settings uuid) s.table h;
            has_all = default-IsComplete uuid (repo.next_id s.table);
            same = inl refl;
          },
        )
    | inr (r, h) ↦
        let e = migrate_settings_runtime uuid r in
        (
          record s { settings = some e },
          ground (arith, h),
          record {
            memory = e;
            stored = r;
            in_memory = refl;
            in_row = h;
            has_all = migrate-IsComplete uuid r;
            same = inr (uuid, refl);
          },
        )
  ]
