-- ===== src/Settings/Stored.antt =====
-- What src/services/orm/settings.service.ts reads back.
use d_hub.Orm
use d_hub.Base.{
  ℕ, String, ◌≡◌, sym, ◌∙◌, inl, inr, true, none, some, List, [], ◌∷◌, arith, ◌==◌, ==_refl,
  Option-cases, find, ok,
}
use d_hub.Settings.{ServerSettings, Settings, default_settings, migrate_settings_runtime}
use d_hub.Settings.Service.{read_settings, get_or_create, write_settings, update_section}
use d_hub.Orm.{Repository}
use d_hub.Orm.Lists.{find-none, find-append}

-- A second migration changes nothing, whatever secret is drawn, if the server settings were there.
pub migrate_idem :
    (uuid uuid' : String) (s : Settings) {v : ServerSettings}
    → s.server ≡ some v
    → migrate_settings_runtime uuid' (migrate_settings_runtime uuid s)
      ≡ migrate_settings_runtime uuid s
unfolding migrate_settings_runtime
migrate_idem uuid uuid' s h = ground (arith, h)

find_first :
    (rs : List Settings) {s : Settings}
    → find (λ r. true) rs ≡ some s
    → (rest : List Settings) × (rs ≡ s ∷ rest)
find_first [] h = absurd (cc)
find_first (r ∷ rs) h = (rs, ground (arith, h))

module _ (repo : Repository Settings) where
  open repo use {Table}

  -- Writing over the first row.
  read-write :
      (e : Settings) (t : Table) {s : Settings}
      → read_settings repo t ≡ some s
      → read_settings repo (repo.update (λ r. repo.id r == repo.id s) (λ r. e) t) ≡ some e
  unfolding read_settings
  read-write e t {s} h =
      let (rest, p) = find_first (repo.rows t) (sym (repo.find_one_by_lem (λ r. true) t) ∙ h) in
      ground (
        arith,
        p,
        ==_refl (repo.id s),
        repo.rows-update (λ r. repo.id r == repo.id s) (λ r. e) t,
        repo.find_one_by_lem (λ r. true) (repo.update (λ r. repo.id r == repo.id s) (λ r. e) t),
      )

  pub read-save :
      (f : ℕ → Settings) (t : Table)
      → read_settings repo t ≡ none
      → read_settings repo (repo.save f t) ≡ some (f (repo.next_id t))
  unfolding read_settings
  read-save f t h = ground (
    arith,
    repo.rows-save f t,
    repo.find_one_by_lem (λ r. true) t,
    repo.find_one_by_lem (λ r. true) (repo.save f t),
    find-none (λ r. true) (repo.rows t),
    find-append (λ r. true) (repo.rows t) (f (repo.next_id t)),
  )

  -- The settings are read or made.
  pub get_or_create_lem :
      (uuid : String) (t : Table)
      → (e s : Settings) × (t' : Table) × (get_or_create repo uuid t ≡ (ok e, t'))
        × (read_settings repo t' ≡ some s)
  unfolding get_or_create Orm.create
  get_or_create_lem uuid t = elim (Option-cases (read_settings repo t)) [
    | inl h ↦ (
      default_settings uuid (repo.next_id t),
      default_settings uuid (repo.next_id t),
      repo.save (default_settings uuid) t,
      ground (arith, h),
      read-save (default_settings uuid) t h,
    )
    | inr (s, h) ↦ (migrate_settings_runtime uuid s, s, t, ground (arith, h), h)
  ]

  pub write_lem :
      (e : Settings) (t : Table) {s : Settings}
      → read_settings repo t ≡ some s
      → (t' : Table) × (write_settings repo e t ≡ (ok tt, t')) × (read_settings repo t' ≡ some e)
  unfolding write_settings
  write_lem e t {s} h =
      (repo.update (λ r. repo.id r == repo.id s) (λ r. e) t, ground (arith, h), read-write e t h)

  pub get_or_create-read :
      (uuid : String) (t : Table) {s : Settings}
      → read_settings repo t ≡ some s
      → get_or_create repo uuid t ≡ (ok (migrate_settings_runtime uuid s), t)
  unfolding get_or_create
  get_or_create-read uuid t h = ground (arith, h)

  -- A section that is written is read back: the settings are read, changed as asked and written, and a later
  -- reading gives what was written, migrated, and changes nothing. The first reading makes the row if
  -- there is none.
  pub get_or_create-update_section :
      (uuid uuid' : String) (f : Settings → Settings) (t : Table)
      → (e : Settings) × (t' : Table) × ((get_or_create repo uuid t).0 ≡ ok e)
        × (update_section repo uuid f t ≡ (ok (f e), t'))
        × (get_or_create repo uuid' t' ≡ (ok (migrate_settings_runtime uuid' (f e)), t'))
  unfolding update_section
  get_or_create-update_section uuid uuid' f t =
      let (e, s, u, g, r) = get_or_create_lem uuid t in
      let (v, w, x) = write_lem (f e) u r in
      (e, v, ground (arith, g), ground (arith, g, w), get_or_create-read uuid' v x)
