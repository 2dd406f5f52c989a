-- ===== src/Users/Kept.antt =====
-- src/services/orm/user.service.ts: steps that keep a root user among the users.
use d_hub.Orm
use d_hub.Base.{
  ℕ, ◌≡◌, ◌⊎◌, inl, inr, Bool, true, false, ◌&&◌, none, some, List, arith, ◌==◌, if◌then◌else◌,
  Bool-cases, Option-cases, find, any, Exception, entity_not_found_error, ok, throw, Prog, ◌>>=◌,
  ◌>>◌, pure, fail, detached, Result-cases,
}
use d_hub.Orm.{Repository}
use d_hub.Orm.Rows.{delete_found}
use d_hub.Users.Rows.{IsRooted, update-IsRooted, unset-IsRooted, delete-IsRooted}
use d_hub.Users.Assigned.{set_user_roles_table}
use d_hub.Users.{
  UserRole, of_role, is_only, Db, list_user_roles, set_user_roles, get_user, find_root_users,
  find_users_by_role_id, delete_row, delete_user, update_user,
}
use d_hub.Auth.{User}
use d_hub.Roles.{Role, get_role_by_name}

module _ {users : Repository User} {roles : Repository UserRole}
    (id_lem : (u : User) → users.id u ≡ u.id) where
  abbrev pub HasRoot : Db users roles → Type 0
  HasRoot db = IsRooted (users.rows db.user_table)

  -- A call of `get_user` answers the row found, and changes nothing.
  pub get_user_lem :
      (k : ℕ) (db : Db users roles)
      → get_user k db ≡ (
        elim (find (λ u. users.id u == k) (users.rows db.user_table)) [
          | none ↦ throw entity_not_found_error
          | some u ↦ ok u
        ],
        db,
      )
  unfolding get_user Orm.get
  get_user_lem k db = ground (arith, users.find_one_by_lem (λ u. users.id u == k) db.user_table)

  pub HasRoot-same :
      (db db' : Db users roles) → db'.user_table ≡ db.user_table → HasRoot db → HasRoot db'
  HasRoot-same db db' e h = rw e h

  pub bind-HasRoot :
      {A B : Type 0} (m : Prog (Db users roles) A) (f : A → Prog (Db users roles) B)
      (db : Db users roles)
      → ((c : Db users roles) → HasRoot c → HasRoot (m c).1)
      → ((a : A) (c : Db users roles) → HasRoot c → HasRoot (f a c).1)
      → HasRoot db
      → HasRoot ((m >>= f) db).1
  bind-HasRoot m f db p q h = elim (Result-cases (m db).0) [
    | inl (a, e) ↦
        HasRoot-same (f a (m db).1).1 ((m >>= f) db).1 (ground (arith, e)) (q a (m db).1 (p db h))
    | inr (x, e) ↦ HasRoot-same (m db).1 ((m >>= f) db).1 (ground (arith, e)) (p db h)
  ]

  pub get_user-HasRoot : (k : ℕ) (db : Db users roles) → HasRoot db → HasRoot (get_user k db).1
  get_user-HasRoot k db h = rw (get_user_lem k db) h

  -- A check, and what follows it.
  pub require-HasRoot :
      {A : Type 0} (b : Bool) (x : Exception) (m : Prog (Db users roles) A) (db : Db users roles)
      → ((c : Db users roles) → HasRoot c → HasRoot (m c).1)
      → HasRoot db
      → HasRoot (((if b then pure tt else fail x) >> m) db).1
  require-HasRoot true x m db p h = p db h
  require-HasRoot false x m db p h = h

  pub refuse-HasRoot :
      {A : Type 0} (b : Bool) (x : Exception) (m : Prog (Db users roles) A) (db : Db users roles)
      → ((c : Db users roles) → HasRoot c → HasRoot (m c).1)
      → HasRoot db
      → HasRoot (((if b then fail x else pure tt) >> m) db).1
  refuse-HasRoot true x m db p h = h
  refuse-HasRoot false x m db p h = p db h

  pub set_user_roles-HasRoot :
      (k : ℕ) (ids : List ℕ) (db : Db users roles)
      → HasRoot db
      → HasRoot (set_user_roles k ids db).1
  set_user_roles-HasRoot k ids db h = let (t, e) = set_user_roles_table k ids db in rw e h

  pub update-HasRoot :
      (k : ℕ) (f : User → User) (db : Db users roles)
      → ((u : User) → (f u).id ≡ u.id)
      → ((u : User) → u.is_root_user ≡ true → (f u).is_root_user ≡ true)
      → HasRoot db
      → HasRoot (update_user k f db).1
  update-HasRoot k f db i j h = update-IsRooted users id_lem k f db.user_table i j h

  pub delete_user_cases :
      (cached : List Role) (k : ℕ) (db : Db users roles) {u : User}
      → find (λ u. users.id u == k) (users.rows db.user_table) ≡ some u
      → u.is_root_user ≡ false
      → ((detached (delete_user cached k) db).user_table ≡ db.user_table)
        ⊎ ((detached (delete_user cached k) db).user_table
            ≡ users.delete (λ u. users.id u == k) db.user_table)
  unfolding delete_user delete_row
  delete_user_cases cached k db {u} e r = elim (Result-cases (get_role_by_name cached "ADMIN")) [
    | inr (x, g) ↦ inl (ground (arith, get_user_lem k db, e, r, g))
    | inl (role, g) ↦
        elim (Bool-cases (
          any (of_role role.id) (list_user_roles u.id db)
          && is_only k (find_users_by_role_id role.id db))) [
            | inl b ↦ inl (ground (arith, get_user_lem k db, e, r, g, b))
            | inr b ↦ inr (
                ground (arith, get_user_lem k db, e, r, g, b, delete_found users k db.user_table e))
          ]
  ]

  pub delete_user-HasRoot :
      (cached : List Role) (k : ℕ) (db : Db users roles)
      → HasRoot db
      → HasRoot (detached (delete_user cached k) db)
  unfolding delete_user delete_row
  delete_user-HasRoot cached k db h =
      elim (Option-cases (find (λ u. users.id u == k) (users.rows db.user_table))) [
        | inl e ↦
            HasRoot-same db (detached (delete_user cached k) db)
              (ground (arith, get_user_lem k db, e)) h
        | inr (u, e) ↦ elim (Bool-cases u.is_root_user) [
          | inl r ↦
              HasRoot-same db (detached (delete_user cached k) db)
                (ground (arith, get_user_lem k db, e, r)) h
          | inr r ↦ elim (delete_user_cases cached k db e r) [
            | inl s ↦ HasRoot-same db (detached (delete_user cached k) db) s h
            | inr s ↦
                rw (s, users.rows-delete (λ u. users.id u == k) db.user_table)
                  (delete-IsRooted users id_lem k (users.rows db.user_table) e r h)
          ]
        ]
      ]

  pub unset-HasRoot :
      (k : ℕ) (db : Db users roles)
      → is_only k (find_root_users db) ≡ false
      → HasRoot db
      → HasRoot (update_user k (λ u. record u { is_root_user = false }) db).1
  unfolding find_root_users
  unset-HasRoot k db o h =
      unset-IsRooted users id_lem k db.user_table
        (ground (arith, o, users.find_by_lem (λ u. u.is_root_user) db.user_table)) h
