-- ===== src/Roles/Synced.antt =====
-- `syncRoles` and `syncPermissions`: what a synchronisation leaves in the table.
use d_hub.Orm
use d_hub.Base.{
  ℕ, String, ◌≡◌, refl, inl, inr, Bool, Option, none, some, List, [], ◌∷◌, ◌++◌, map, arith, str_eq,
  str_eq_iff, str_eq_refl, Option-cases, find, ok,
}
use d_hub.Orm.{Repository}
use d_hub.Orm.Lists.{find_holds, find-none, find-append}
use d_hub.Roles.{sync_name, sync_names}

module _ {Row : Type 0} (repo : Repository Row) (name : Row → String) (make : String → ℕ → Row)
    (name-make : (s : String) (k : ℕ) → name (make s k) ≡ s) where
  open repo use {Table, rows}

  abbrev pub stored : String → Table → Option Row
  stored s t = find (λ r. str_eq (name r) s) (rows t)

  -- What is found in the first table is found in the second.
  unfoldable Extends : Table → Table → Type 0
  Extends t t' = (s : String) (r : Row) → stored s t ≡ some r → stored s t' ≡ some r

  -- A name that has a row already.
  sync_found :
      (s : String) (t : Table) {r : Row}
      → stored s t ≡ some r
      → sync_name repo name make s t ≡ (ok r, t)
  unfolding sync_name
  sync_found s t h = ground (arith, h, repo.find_one_by_lem (λ r. str_eq (name r) s) t)

  sync_missing :
      (s : String) (t : Table)
      → stored s t ≡ none
      → sync_name repo name make s t ≡ (ok (make s (repo.next_id t)), repo.save (make s) t)
  unfolding sync_name Orm.create
  sync_missing s t h = ground (arith, h, repo.find_one_by_lem (λ r. str_eq (name r) s) t)

  find-more :
      (p : Row → Bool) (xs ys : List Row) {r : Row}
      → find p xs ≡ some r
      → find p (xs ++ ys) ≡ some r
  find-more p [] ys h = absurd (cc)
  find-more p (x ∷ xs) ys {r} h = ground (arith, h, find-more p xs ys {r = r})

  save-Extends : (s : String) (t : Table) → Extends t (repo.save (make s) t)
  unfolding Extends
  save-Extends s t q r h =
      rw (repo.rows-save (make s) t)
        (find-more (λ r. str_eq (name r) q) (rows t) (make s (repo.next_id t) ∷ []) h)

  save-stored :
      (s : String) (t : Table)
      → stored s t ≡ none
      → stored s (repo.save (make s) t) ≡ some (make s (repo.next_id t))
  save-stored s t h =
      let p : Row → Bool = λ r. str_eq (name r) s in
      rw (repo.rows-save (make s) t) (
        find-append p (rows t) (make s (repo.next_id t)) (find-none p (rows t) h)
          (rw (name-make s (repo.next_id t)) (str_eq_refl s)))

  -- One name: its row is in the table afterwards, and so is what was there.
  sync_one :
      (s : String) (t : Table)
      → (r : Row) × (t' : Table) × (sync_name repo name make s t ≡ (ok r, t'))
        × (stored s t' ≡ some r)
        × (name r ≡ s)
        × Extends t t'
  unfolding Extends
  sync_one s t = elim (Option-cases (stored s t)) [
    | inl h ↦ (
      make s (repo.next_id t),
      repo.save (make s) t,
      sync_missing s t h,
      save-stored s t h,
      name-make s (repo.next_id t),
      save-Extends s t,
    )
    | inr (r, h) ↦ (
      r,
      t,
      sync_found s t h,
      h,
      (str_eq_iff (name r) s).0 (find_holds (λ r. str_eq (name r) s) (rows t) h),
      λ q x e. e,
    )
  ]

  -- The synchronisation returns a row for each name, in their order, and a later one, on a table
  -- with at least these rows, returns the same rows and changes nothing.
  sync_all :
      (names : List String) (t : Table)
      → (rs : List Row) × (t' : Table) × (sync_names repo name make names t ≡ (ok rs, t'))
        × (map name rs ≡ names)
        × Extends t t'
        × ((t'' : Table) → Extends t' t'' → sync_names repo name make names t'' ≡ (ok rs, t''))
  unfolding sync_names Extends
  sync_all [] t = ([], t, refl, refl, (λ q x e. e), λ t'' e. refl)
  sync_all (s ∷ names) t =
      let (r, t1, e, f, n, x) = sync_one s t in
      let (rs, t2, e2, n2, x2, again) = sync_all names t1 in
      (
        r ∷ rs,
        t2,
        ground (arith, e, e2),
        ground (arith, n, n2),
        (λ q a h. x2 q a (x q a h)),
        λ t'' y.
            let e3 = sync_found s t'' (y s r (x2 s r f)) in
            let e4 = again t'' y in ground (arith, e3, e4),
      )

  -- `syncRoles` and `syncPermissions` return, and keep in memory, a row for each name in the order of
  -- the names, and a second synchronisation returns the same rows and leaves the table as it is.
  pub sync-idempotent :
      (names : List String) (t : Table)
      → (rs : List Row) × (t' : Table) × (sync_names repo name make names t ≡ (ok rs, t'))
        × (map name rs ≡ names)
        × (sync_names repo name make names t' ≡ (ok rs, t'))
  unfolding Extends
  sync-idempotent names t =
      let (rs, t', e, n, x, again) = sync_all names t in (rs, t', e, n, again t' (λ q a h. h))
