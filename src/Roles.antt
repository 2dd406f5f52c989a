-- ===== src/Roles.antt =====
-- src/constants/authorization.constants.ts, src/services/orm/role.service.ts and
-- src/services/orm/permission.service.ts. A role or permission is named by its id or by its name.
pub mod Constants
pub mod Middleware
pub mod Granted
pub mod Synced
mod Tests
use mathlib.Core.Option
use d_hub.Orm
use d_hub.Base.{
  ℕ, String, Bool, true, false, not, ◌&&◌, ◌||◌, Option, none, some, List, [], ◌∷◌, map, str_eq,
  ◌==◌, if◌then◌else◌, find, not_found_exception, type_error, Result, ok, throw, Prog, ◌>>=◌, ◌>>◌,
  pure, gets,
}
use d_hub.Orm.{Repository}

pub record Role : Type 0 where
  pub id : ℕ
  pub name : String

pub record Permission : Type 0 where
  pub id : ℕ
  pub name : String

-- `string | SqliteIdType`
pub data Ref : Type 0 where
  by_id : ℕ → Ref
  by_name : String → Ref

-- JavaScript's truth of a text and of such a reference.
abbrev pub truthy_text : String → Bool
truthy_text s = not (str_eq s "")

abbrev pub truthy : Ref → Bool
truthy (by_id k) = not (k == 0)
truthy (by_name s) = truthy_text s

-- `!!list.find(…)`
abbrev pub truthy_found : Option Ref → Bool
truthy_found none = false
truthy_found (some r) = truthy r

-- `r.id === ref || r.name === ref`
abbrev pub refers : Ref → ℕ → String → Bool
refers (by_id k) id name = id == k
refers (by_name s) id name = str_eq name s

unfoldable pub normalize_role : List Role → Ref → Option String
normalize_role roles ref = Option.map (λ r. r.name) (find (λ r. refers ref r.id r.name) roles)

unfoldable pub get_role : List Role → ℕ → Result Role
get_role roles k = elim (find (λ r. r.id == k) roles) [
  | none ↦ throw not_found_exception
  | some r ↦ ok r
]

unfoldable pub get_role_by_name : List Role → String → Result Role
get_role_by_name roles s = elim (find (λ r. str_eq r.name s) roles) [
  | none ↦ throw not_found_exception
  | some r ↦ ok r
]

abbrev pub is_required : Ref → Option String → Bool
is_required required none = false
is_required (by_id k) (some s) = false
is_required (by_name n) (some s) = truthy_text s && str_eq s n

unfoldable pub authorize_role : List Role → Ref → List Ref → Bool
unfolding normalize_role
authorize_role roles required assigned =
    truthy_found (find (λ ref. is_required required (normalize_role roles ref)) assigned)

-- The `forEach` over the required roles.
pub authorize_each : List Role → Bool → List Ref → List Ref → Bool → Bool
authorize_each roles subset [] assigned is_authorized = is_authorized
authorize_each roles subset (r ∷ rs) assigned is_authorized =
    let result = authorize_role roles r assigned in
    authorize_each roles subset rs assigned
      (if subset then is_authorized || result else is_authorized && result)

unfoldable pub authorize_roles : List Role → List Ref → List Ref → Bool → Bool
unfolding authorize_each
authorize_roles roles [] assigned subset = true
authorize_roles roles (r ∷ rs) assigned subset = authorize_each roles subset (r ∷ rs) assigned false

-- The service has no `logger`: the warning of a permission that is not cached is a call on `undefined`.
unfoldable pub normalize_permission : List Permission → Ref → Result String
normalize_permission perms ref = elim (find (λ p. refers ref p.id p.name) perms) [
  | none ↦ throw type_error
  | some p ↦ ok p.name
]

-- The assigned permissions are tried in their order, up to the first that is the required one.
unfoldable pub authorize_permission : List Permission → String → List String → Result Bool
unfolding normalize_permission
authorize_permission perms required [] = ok false
authorize_permission perms required (s ∷ assigned) = elim (normalize_permission perms (by_name s)) [
  | throw e ↦ throw e
  | ok name ↦
      let rest = authorize_permission perms required assigned in
      if truthy_text name && str_eq name required then ok (truthy_text s) else rest
]

-- `syncRoles` and `syncPermissions`: the table gets a row for each name that it lacks, and the list
-- kept in memory is the rows found or made, in the order of the names.
module _ {Row : Type 0} (repo : Repository Row) (name : Row → String)
    (make : String → ℕ → Row) where
  -- One turn of the loop.
  unfoldable pub sync_name : String → Prog repo.Table Row
  unfolding Orm.create
  sync_name s = do
    stored ← gets (repo.find_one_by (λ r. str_eq (name r) s))
    elim stored [ none ↦ Orm.create repo (make s) | some r ↦ pure r ]

  unfoldable pub sync_names : List String → Prog repo.Table (List Row)
  unfolding sync_name
  sync_names [] = pure []
  sync_names (s ∷ names) = do row ← sync_name s; rows ← sync_names names; pure (row ∷ rows)

unfoldable pub get_many_roles : List Role → List ℕ → Result (List Role)
unfolding get_role
get_many_roles roles [] = ok []
get_many_roles roles (k ∷ ks) = elim (get_role roles k) [
  | throw e ↦ throw e
  | ok r ↦ elim (get_many_roles roles ks) [ throw e ↦ throw e | ok rs ↦ ok (r ∷ rs) ]
]
