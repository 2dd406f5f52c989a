-- ===== src/Orm.antt =====
-- src/services/orm/base.service.ts over a typeorm repository. The repository is not part of the
-- program: it is a parameter, with the documented behaviour of the calls that the services make.
pub mod Lists
pub mod Table
pub mod Rows
use d_hub.Base.{
  ℕ, ◌≡◌, Bool, true, false, not, Option, none, some, List, [], ◌∷◌, ◌++◌, map, ◌==◌, if◌then◌else◌,
  keep, find, any, entity_not_found_error, ok, throw, Prog, ◌>>=◌, ◌>>◌, modify,
}

-- `Table` is the state of one database table, and `rows` its rows in the order in which `find`
-- returns them. A criterion is a test of a row.
pub record Repository (Row : Type 0) : Type 1 where
  pub Table : Type 0
  pub id : Row → ℕ
  pub rows : Table → List Row
  -- Null, here `none`, if no row fits.
  pub find_one_by : (Row → Bool) → Table → Option Row
  pub find_by : (Row → Bool) → Table → List Row
  pub delete : (Row → Bool) → Table → Table
  pub update : (Row → Bool) → (Row → Row) → Table → Table
  -- The id that the next saved row gets, and `save` of a row with that id filled in, which the constraints
  -- of the database allow; a service that may ask for another one makes the test itself.
  pub next_id : Table → ℕ
  pub save : (ℕ → Row) → Table → Table
  pub find_one_by_lem : (p : Row → Bool) (t : Table) → find_one_by p t ≡ find p (rows t)
  pub find_by_lem : (p : Row → Bool) (t : Table) → find_by p t ≡ keep p (rows t)
  pub rows-delete :
      (p : Row → Bool) (t : Table) → rows (delete p t) ≡ keep (λ r. not (p r)) (rows t)
  pub rows-update :
      (p : Row → Bool) (f : Row → Row) (t : Table)
      → rows (update p f t) ≡ map (λ r. if p r then f r else r) (rows t)
  pub rows-save : (f : ℕ → Row) (t : Table) → rows (save f t) ≡ rows t ++ f (next_id t) ∷ []
  pub next_id_fresh : (t : Table) → any (λ r. id r == next_id t) (rows t) ≡ false

module _ {Row : Type 0} (repo : Repository Row) where
  open repo use {Table, id, rows, find_one_by, next_id}

  -- `get`: the promise of `findOneOrFail` is returned and not awaited, so the `catch` never sees its
  -- rejection, and `throwIfNotFound` has no effect.
  unfoldable pub get : ℕ → Bool → Prog Table Row
  get k throw_if_not_found t = elim (find_one_by (λ r. id r == k) t) [
    | none ↦ (throw entity_not_found_error, t)
    | some r ↦ (ok r, t)
  ]

  unfoldable pub delete : ℕ → Prog Table (Unit {0})
  unfolding get
  delete k = do entity ← get k true; modify (repo.delete (λ r. id r == id entity))

  -- `create`, with the row's id given by the database.
  unfoldable pub create : (ℕ → Row) → Prog Table Row
  create f t = (ok (f (next_id t)), repo.save f t)

  unfoldable pub update_row : ℕ → (Row → Row) → Prog Table Row
  unfolding get
  update_row k f = do
    entity ← get k true
    modify (repo.update (λ r. id r == id entity) f)
    get k true
