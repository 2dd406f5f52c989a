-- ===== src/Orm/Rows.antt =====
-- The rows after the operations of src/services/orm/base.service.ts.
use d_hub.Orm
use mathlib.Core.Option
use d_hub.Base.{
  ℕ, ◌≡◌, refl, ap, ◌∙◌, inl, inr, Bool, true, false, not, none, some, List, [], ◌∷◌, map, arith,
  ◌==◌, if◌then◌else◌, ==_iff, Option-cases, keep, find, any, entity_not_found_error, ok, throw,
}
use d_hub.Orm.{Repository}
use d_hub.Orm.Lists.{find_holds}

keep-all {ℓ} :
    {A : Type ℓ} (p : A → Bool) (xs : List A) → any p xs ≡ false → keep (λ x. not (p x)) xs ≡ xs
keep-all p [] h = refl
keep-all p (x ∷ xs) h = ground (arith, keep-all p xs)

find-map_keeps {ℓ} :
    {A : Type ℓ} (p : A → Bool) (f : A → A)
    → ((x : A) → p (f x) ≡ p x)
    → (xs : List A) → find p (map f xs) ≡ Option.map f (find p xs)
find-map_keeps p f h [] = refl
find-map_keeps p f h (x ∷ xs) = ground (arith, h x, find-map_keeps p f h xs)

module _ {Row : Type 0} (repo : Repository Row) where
  open repo use {Table, id, rows, find_one_by, find_one_by_lem, rows-delete}

  pub get_found :
      (k : ℕ) (flag : Bool) (t : Table) {r : Row}
      → find (λ r. id r == k) (rows t) ≡ some r
      → Orm.get repo k flag t ≡ (ok r, t)
  unfolding Orm.get
  get_found k flag t {r} e = ground (arith, find_one_by_lem (λ r. id r == k) t)

  pub get_missing :
      (k : ℕ) (flag : Bool) (t : Table)
      → find (λ r. id r == k) (rows t) ≡ none
      → Orm.get repo k flag t ≡ (throw entity_not_found_error, t)
  unfolding Orm.get
  get_missing k flag t e = ground (arith, find_one_by_lem (λ r. id r == k) t)

  -- `delete` by the id of a row that is there.
  pub delete_found :
      (k : ℕ) (t : Table) {r : Row}
      → find (λ r. id r == k) (rows t) ≡ some r
      → Orm.delete repo k t ≡ (ok tt, repo.delete (λ r. id r == k) t)
  unfolding Orm.delete
  delete_found k t {r} e =
      ground (arith, get_found k true t e, find_holds (λ r. id r == k) (rows t) e, ==_iff (id r) k)

  -- `update` by the id of a row that is there.
  pub update_found :
      (k : ℕ) (f : Row → Row) (t : Table) {r : Row}
      → find (λ r. id r == k) (rows t) ≡ some r
      → (Orm.update_row repo k f t).1 ≡ repo.update (λ r. id r == k) f t
  unfolding Orm.update_row Orm.get
  update_found k f t {r} e = ground (
    arith,
    find_one_by_lem (λ r. id r == k) t,
    find_holds (λ r. id r == k) (rows t) e,
    ==_iff (id r) k,
  )

  pub update_missing :
      (k : ℕ) (f : Row → Row) (t : Table)
      → find (λ r. id r == k) (rows t) ≡ none
      → (Orm.update_row repo k f t).1 ≡ t
  unfolding Orm.update_row
  update_missing k f t e = ground (arith, get_missing k true t)

  pub delete_missing :
      (k : ℕ) (t : Table)
      → find (λ r. id r == k) (rows t) ≡ none
      → Orm.delete repo k t ≡ (throw entity_not_found_error, t)
  unfolding Orm.delete
  delete_missing k t e = ground (arith, get_missing k true t)

  abbrev replaced : ℕ → (Row → Row) → Row → Row
  replaced k f x = if id x == k then f x else x

  -- `update` of a row that is there by a change that keeps ids returns the changed row.
  pub update_row_found :
      (k : ℕ) (f : Row → Row)
      → ((r : Row) → id (f r) ≡ id r)
      → (t : Table) {r : Row} → find (λ r. id r == k) (rows t) ≡ some r
      → (Orm.update_row repo k f t ≡ (ok (f r), repo.update (λ x. id x == k) f t))
        × (find (λ r. id r == k) (rows (repo.update (λ x. id x == k) f t)) ≡ some (f r))
  unfolding Orm.update_row Orm.get
  update_row_found k f h t {r} e =
      let i : id r ≡ k = (==_iff (id r) k).0 (find_holds (λ r. id r == k) (rows t) e) in
      let g = ap (λ j. repo.update (λ x. id x == j) f t) i in
      let m = find-map_keeps (λ x. id x == k) (replaced k f) (λ x. ground (arith, h x)) (rows t) in
      let u = repo.rows-update (λ x. id x == k) f t in
      let v : find (λ r. id r == k) (rows (repo.update (λ x. id x == k) f t)) ≡ some (f r) =
        ap (find (λ x. id x == k)) u
        ∙ m
        ∙ ap (Option.map (replaced k f)) e
        ∙ ap some (ground (arith, find_holds (λ r. id r == k) (rows t) e)) in
      (
        ground (
          arith,
          e,
          g,
          v,
          find_one_by_lem (λ r. id r == k) t,
          find_one_by_lem (λ r. id r == k) (repo.update (λ x. id x == k) f t),
        ),
        v,
      )

  -- A change of the rows with another id keeps what an id finds.
  pub find-replaced_other :
      (j k : ℕ) (f : Row → Row)
      → ((r : Row) → id (f r) ≡ id r)
      → (rs : List Row) → (j == k) ≡ false
      → find (λ r. id r == k) (map (λ x. if id x == j then f x else x) rs)
        ≡ find (λ r. id r == k) rs
  find-replaced_other j k f h rs e =
      find-map_keeps (λ x. id x == k) (replaced j f) (λ x. ground (arith, h x)) rs
      ∙ elim (Option-cases (find (λ x. id x == k) rs)) [
        | inl n ↦ ground (arith, n)
        | inr (r, n) ↦ ground (
          arith,
          n,
          find_holds (λ x. id x == k) rs n,
          ==_iff (id r) k,
          ==_iff (id r) j,
          ==_iff j k,
          e,
        )
      ]
