-- ===== src/Users.antt =====
-- src/services/orm/user.service.ts and src/services/orm/user-role.service.ts over the tables of users
-- and of their roles. The eager relation `user.roles` is read from the second. What bcrypt, the
-- validator and the cached roles answer are arguments.
pub mod Assigned
pub mod Rows
pub mod Kept
pub mod Rooted
mod Tests
use mathlib.Core.Option
use d_hub.Orm
use d_hub.Base.{
  ℕ, String, Bool, true, false, not, ◌&&◌, Option, none, some, List, [], ◌∷◌, map, str_eq, ◌==◌,
  if◌then◌else◌, keep, any, error, not_found_exception, validation_exception,
  internal_server_exception, ok, throw, Prog, ◌>>=◌, ◌>>◌, pure, fail, modify, gets,
}
use d_hub.Orm.{Repository}
use d_hub.Auth.{User}
use d_hub.Roles.{Role, get_role_by_name}

-- src/entities/user-role.entity.ts
pub record UserRole : Type 0 where
  pub id : ℕ
  pub role_id : ℕ
  pub user_id : ℕ

abbrev pub of_user : ℕ → UserRole → Bool
of_user k r = r.user_id == k

abbrev pub of_role : ℕ → UserRole → Bool
of_role k r = r.role_id == k

-- `ids.includes(k)`, which is also `In(ids)` of a criterion.
abbrev pub among_ids : List ℕ → ℕ → Bool
among_ids ids k = any (λ j. j == k) ids

-- The one row of a list of one.
abbrev pub is_only : ℕ → List User → Bool
is_only k [] = false
is_only k (u ∷ []) = u.id == k
is_only k (u ∷ v ∷ us) = false

abbrev pub is_single : List User → Bool
is_single (u ∷ []) = true
is_single us = false

abbrev pub with_password : String → User → User
with_password hash u = record u { password_hash = hash; needs_password_change = false }

-- The input of `register` but for the roles; the password is its hash.
pub record RegisterUserDto : Type 0 where
  pub username : String
  pub password_hash : String
  pub is_verified : Option Bool
  pub is_demo_user : Option Bool
  pub is_root_user : Option Bool
  pub needs_password_change : Option Bool

abbrev pub new_user : RegisterUserDto → ℕ → User
new_user input k = record {
  id = k;
  username = input.username;
  password_hash = input.password_hash;
  is_verified = Option.get_or input.is_verified false;
  is_demo_user = Option.get_or input.is_demo_user false;
  is_root_user = Option.get_or input.is_root_user false;
  needs_password_change = Option.get_or input.needs_password_change true;
}

module _ (users : Repository User) (roles : Repository UserRole) where
  pub record Db : Type 0 where
    pub user_table : users.Table
    pub role_table : roles.Table
    -- The ids in the table of roles, which the foreign key of an assignment refers to.
    pub role_ids : List ℕ

module _ {users : Repository User} {roles : Repository UserRole} where
  abbrev pub in_users : {A : Type 0} → Prog users.Table A → Prog (Db users roles) A
  in_users m db = let (r, t) = m db.user_table in (r, record db { user_table = t })

  abbrev pub in_roles : {A : Type 0} → Prog roles.Table A → Prog (Db users roles) A
  in_roles m db = let (r, t) = m db.role_table in (r, record db { role_table = t })

  unfoldable pub list_user_roles : ℕ → Db users roles → List UserRole
  list_user_roles k db = roles.find_by (of_user k) db.role_table

  unfoldable pub list_by_role_id : ℕ → Db users roles → List UserRole
  list_by_role_id k db = roles.find_by (of_role k) db.role_table

  unfoldable pub delete_many_user_roles : ℕ → List ℕ → Prog (Db users roles) (Unit {0})
  delete_many_user_roles k role_ids =
      in_roles (modify (roles.delete (λ r. of_user k r && among_ids role_ids r.role_id)))

  -- The foreign keys of an assignment, and the constraint that it is the user's only one of the role.
  abbrev pub may_assign : ℕ → ℕ → Db users roles → Bool
  may_assign k role_id db =
      any (λ u. users.id u == k) (users.rows db.user_table)
      && (among_ids db.role_ids role_id
          && not (any (λ r. of_user k r && of_role role_id r) (roles.rows db.role_table)))

  -- The loop of `setUserRoles`. The database refuses an assignment that breaks a constraint.
  unfoldable pub create_each : ℕ → List ℕ → Prog (Db users roles) (Unit {0})
  unfolding Orm.create
  create_each k [] = pure tt
  create_each k (role_id ∷ role_ids) = do
    allowed ← gets (may_assign k role_id)
    if allowed then pure tt else fail error
    _ ← in_roles (Orm.create roles (λ j. record { id = j; role_id = role_id; user_id = k }))
    create_each k role_ids

  unfoldable pub set_user_roles : ℕ → List ℕ → Prog (Db users roles) (Unit {0})
  unfolding list_user_roles delete_many_user_roles create_each
  set_user_roles k role_ids = do
    previous ← gets (list_user_roles k)
    let previous_ids = map (λ r. r.role_id) previous
    delete_many_user_roles k (keep (λ j. not (among_ids role_ids j)) previous_ids)
    create_each k (keep (λ j. not (among_ids previous_ids j)) role_ids)

  unfoldable pub get_user : ℕ → Prog (Db users roles) User
  unfolding Orm.get
  get_user k = in_users (Orm.get users k true)

  unfoldable pub get_user_role_ids : ℕ → Db users roles → List ℕ
  unfolding list_user_roles
  get_user_role_ids k db = map (λ r. r.role_id) (list_user_roles k db)

  unfoldable pub find_root_users : Db users roles → List User
  find_root_users db = users.find_by (λ u. u.is_root_user) db.user_table

  -- The ids are those of the assignments, `u.id`, not `u.userId`.
  unfoldable pub find_users_by_role_id : ℕ → Db users roles → List User
  unfolding list_by_role_id
  find_users_by_role_id role_id db =
      users.find_by (λ u. among_ids (map (λ r. r.id) (list_by_role_id role_id db)) u.id)
        db.user_table

  unfoldable pub find_verified_users : Db users roles → List User
  find_verified_users db = users.find_by (λ u. u.is_verified) db.user_table

  unfoldable pub is_user_root_user : ℕ → Prog (Db users roles) Bool
  unfolding get_user
  is_user_root_user k = do user ← get_user k; pure user.is_root_user

  -- The inherited `delete`; the assignments go with their user by `onDelete: "CASCADE"`.
  unfoldable pub delete_row : ℕ → Prog (Db users roles) (Unit {0})
  unfolding Orm.delete
  delete_row k db = elim (Orm.delete users k db.user_table).0 [
    | throw e ↦ (throw e, db)
    | ok u ↦ (
      ok tt,
      record db {
        user_table = (Orm.delete users k db.user_table).1;
        role_table = roles.delete (of_user k) db.role_table;
      },
    )
  ]

  -- `cached` is what the role service has in memory.
  unfoldable pub delete_user : List Role → ℕ → Prog (Db users roles) (Unit {0})
  unfolding get_user get_role_by_name list_user_roles find_users_by_role_id delete_row
  delete_user cached k = do
    user ← get_user k
    if user.is_root_user then fail internal_server_exception else pure tt
    role ← λ db. (get_role_by_name cached "ADMIN", db)
    own ← gets (list_user_roles user.id)
    administrators ← gets (find_users_by_role_id role.id)
    if any (of_role role.id) own && is_only k administrators
        then fail internal_server_exception
        else pure tt
    delete_row k

  abbrev pub update_user : ℕ → (User → User) → Prog (Db users roles) User
  update_user k f = in_users (Orm.update_row users k f)

  unfoldable pub set_is_root_user_by_id : ℕ → Bool → Prog (Db users roles) (Unit {0})
  unfolding get_user find_root_users Orm.update_row
  set_is_root_user_by_id k is_root = do
    _ ← get_user k
    root_users ← gets find_root_users
    if not is_root && is_only k root_users then fail internal_server_exception else pure tt
    _ ← update_user k (λ u. record u { is_root_user = is_root })
    pure tt

  unfoldable pub set_user_role_ids : ℕ → List ℕ → Prog (Db users roles) User
  unfolding set_user_roles get_user
  set_user_role_ids k role_ids = do set_user_roles k role_ids; get_user k

  unfoldable pub set_verified_by_id : ℕ → Bool → Prog (Db users roles) (Unit {0})
  unfolding get_user find_verified_users Orm.update_row
  set_verified_by_id k is_verified = do
    user ← get_user k
    if not is_verified && user.is_root_user then fail internal_server_exception else pure tt
    verified_users ← gets find_verified_users
    if not is_verified && is_single verified_users then fail internal_server_exception else pure tt
    _ ← update_user k (λ u. record u { is_verified = is_verified })
    pure tt

  -- `matches` is comparePasswordHash, `valid` the validator, `hash` the new password's hash.
  unfoldable pub update_password_by_id :
      (String → String → Bool) → Bool → String → ℕ → String → Prog (Db users roles) User
  unfolding get_user Orm.update_row
  update_password_by_id matches valid hash k old_password = do
    user ← get_user k
    if matches old_password user.password_hash then pure tt else fail not_found_exception
    if valid then pure tt else fail validation_exception
    update_user k (with_password hash)

  unfoldable pub update_password_unsafe_by_username :
      Bool → String → String → Prog (Db users roles) User
  unfolding Orm.update_row
  update_password_unsafe_by_username valid hash username = do
    if valid then pure tt else fail validation_exception
    found ← gets (λ db. users.find_one_by (λ u. str_eq u.username username) db.user_table)
    elim found [
      | none ↦ fail not_found_exception
      | some user ↦ update_user user.id (with_password hash)
    ]

  unfoldable pub update_username_by_id : ℕ → String → Prog (Db users roles) User
  unfolding Orm.update_row
  update_username_by_id k username = update_user k (λ u. record u { username = username })

  unfoldable pub register : Bool → RegisterUserDto → List ℕ → Prog (Db users roles) User
  unfolding Orm.create set_user_roles get_user
  register valid input role_ids = do
    if valid then pure tt else fail validation_exception
    result ← in_users (Orm.create users (new_user input))
    set_user_roles (users.id result) role_ids
    get_user (users.id result)
