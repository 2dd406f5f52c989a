-- ===== src/Users/Rooted.antt =====
-- The last root user stays, whatever operations of src/services/orm/user.service.ts are called.
use d_hub.Orm
use d_hub.Base.{
  ℕ, String, ◌≡◌, refl, inl, inr, Bool, true, false, not, ◌&&◌, List, [], ◌∷◌, arith, str_eq,
  if◌then◌else◌, Bool-cases, Option-cases, not_found_exception, validation_exception,
  internal_server_exception, Prog, ◌>>=◌, ◌>>◌, pure, fail, gets, detached,
}
use d_hub.Orm.{Repository}
use d_hub.Users.Rows.{save-IsRooted}
use d_hub.Users.Kept.{
  HasRoot, HasRoot-same, bind-HasRoot, get_user-HasRoot, require-HasRoot, refuse-HasRoot,
  set_user_roles-HasRoot, update-HasRoot, delete_user-HasRoot, unset-HasRoot,
}
use d_hub.Users.{
  UserRole, is_only, is_single, with_password, RegisterUserDto, new_user, Db, in_users,
  set_user_roles, get_user, find_root_users, find_verified_users, delete_user, update_user,
  set_is_root_user_by_id, set_user_role_ids, set_verified_by_id, update_password_by_id,
  update_password_unsafe_by_username, update_username_by_id, register,
}
use d_hub.Auth.{User}
use d_hub.Roles.{Role}

pub data Op : Type 0 where
  remove_user : List Role → ℕ → Op
  set_is_root set_verified : ℕ → Bool → Op
  set_roles : ℕ → List ℕ → Op
  update_password : (String → String → Bool) → Bool → String → ℕ → String → Op
  update_password_unsafe : Bool → String → String → Op
  update_username : ℕ → String → Op
  register_op : Bool → RegisterUserDto → List ℕ → Op

unfoldable pub run_op :
    {users : Repository User} {roles : Repository UserRole} → Op → Db users roles → Db users roles
unfolding delete_user set_is_root_user_by_id set_verified_by_id set_user_role_ids
    update_password_by_id update_password_unsafe_by_username update_username_by_id register
run_op (remove_user cached k) db = detached (delete_user cached k) db
run_op (set_is_root k b) db = detached (set_is_root_user_by_id k b) db
run_op (set_verified k b) db = detached (set_verified_by_id k b) db
run_op (set_roles k ids) db = detached (set_user_role_ids k ids) db
run_op (update_password matches valid hash k old) db =
    detached (update_password_by_id matches valid hash k old) db
run_op (update_password_unsafe valid hash username) db =
    detached (update_password_unsafe_by_username valid hash username) db
run_op (update_username k username) db = detached (update_username_by_id k username) db
run_op (register_op valid input ids) db = detached (register valid input ids) db

unfoldable pub run_ops :
    {users : Repository User} {roles : Repository UserRole}
    → List Op
    → Db users roles
    → Db users roles
unfolding run_op
run_ops [] db = db
run_ops (op ∷ ops) db = run_ops ops (run_op op db)

module _ {users : Repository User} {roles : Repository UserRole}
    (id_lem : (u : User) → users.id u ≡ u.id) where
  set_checked :
      (k : ℕ) (b : Bool) (db : Db users roles)
      → HasRoot id_lem db
      → HasRoot id_lem
          (((if not b && is_only k (find_root_users db)
                then fail internal_server_exception
                else pure tt)
              >> (update_user k (λ u. record u { is_root_user = b }) >>= λ v. pure tt))
            db).1
  set_checked k true db h =
      bind-HasRoot id_lem (update_user k (λ u. record u { is_root_user = true })) (λ v. pure tt) db
        (λ c g.
          update-HasRoot id_lem k (λ u. record u { is_root_user = true }) c (λ u. refl)
            (λ u e. refl) g)
        (λ v c g. g) h
  set_checked k false db h = elim (Bool-cases (is_only k (find_root_users db))) [
    | inl e ↦ rw e h
    | inr e ↦ rw e (
        HasRoot-same id_lem (update_user k (λ u. record u { is_root_user = false }) db).1
          ((update_user k (λ u. record u { is_root_user = false }) >>= λ v. pure tt) db).1
          (ground arith) (unset-HasRoot id_lem k db e h))
  ]

  set_is_root-HasRoot :
      (k : ℕ) (b : Bool) (db : Db users roles)
      → HasRoot id_lem db
      → HasRoot id_lem (detached (set_is_root_user_by_id k b) db)
  unfolding set_is_root_user_by_id
  set_is_root-HasRoot k b db h =
      bind-HasRoot id_lem (get_user k)
        (λ u. gets find_root_users >>= λ root_users.
          (if not b && is_only k root_users then fail internal_server_exception else pure tt)
          >> (update_user k (λ u. record u { is_root_user = b }) >>= λ v. pure tt))
        db (get_user-HasRoot id_lem k) (λ u c g. set_checked k b c g) h

  set_verified-HasRoot :
      (k : ℕ) (b : Bool) (db : Db users roles)
      → HasRoot id_lem db
      → HasRoot id_lem (detached (set_verified_by_id k b) db)
  unfolding set_verified_by_id
  set_verified-HasRoot k b db h =
      let set : Prog (Db users roles) (Unit {0}) =
        update_user k (λ u. record u { is_verified = b }) >>= λ v. pure tt in
      let check : Prog (Db users roles) (Unit {0}) = gets find_verified_users >>= λ vs.
      (if not b && is_single vs then fail internal_server_exception else pure tt) >> set in
      bind-HasRoot id_lem (get_user k)
        (λ u.
          (if not b && u.is_root_user then fail internal_server_exception else pure tt) >> check)
        db (get_user-HasRoot id_lem k)
        (λ u c.
          refuse-HasRoot id_lem (not b && u.is_root_user) internal_server_exception check c (λ d.
            refuse-HasRoot id_lem (not b && is_single (find_verified_users d))
              internal_server_exception set d
              (λ e.
                bind-HasRoot id_lem (update_user k (λ u. record u { is_verified = b }))
                  (λ v. pure tt) e
                  (λ f.
                    update-HasRoot id_lem k (λ u. record u { is_verified = b }) f (λ u. refl)
                      (λ u r. r))
                  (λ v f g. g))))
        h

  update_password-HasRoot :
      (matches : String → String → Bool) (valid : Bool) (hash : String) (k : ℕ) (old : String)
      (db : Db users roles)
      → HasRoot id_lem db
      → HasRoot id_lem (detached (update_password_by_id matches valid hash k old) db)
  unfolding update_password_by_id
  update_password-HasRoot matches valid hash k old db h =
      let set : Prog (Db users roles) User = update_user k (with_password hash) in
      let check : Prog (Db users roles) User =
        (if valid then pure tt else fail validation_exception) >> set in
      bind-HasRoot id_lem (get_user k)
        (λ u. (if matches old u.password_hash then pure tt else fail not_found_exception) >> check)
        db (get_user-HasRoot id_lem k)
        (λ u c.
          require-HasRoot id_lem (matches old u.password_hash) not_found_exception check c (λ d.
            require-HasRoot id_lem valid validation_exception set d
              (λ e. update-HasRoot id_lem k (with_password hash) e (λ u. refl) (λ u r. r))))
        h

  update_unsafe-HasRoot :
      (valid : Bool) (hash username : String) (db : Db users roles)
      → HasRoot id_lem db
      → HasRoot id_lem (detached (update_password_unsafe_by_username valid hash username) db)
  unfolding update_password_unsafe_by_username
  update_unsafe-HasRoot false hash username db h = h
  update_unsafe-HasRoot true hash username db h =
      elim (Option-cases (users.find_one_by (λ u. str_eq u.username username) db.user_table)) [
        | inl e ↦
            HasRoot-same id_lem db
              (detached (update_password_unsafe_by_username true hash username) db)
              (ground (arith, e)) h
        | inr (u, e) ↦
            HasRoot-same id_lem (update_user u.id (with_password hash) db).1
              (detached (update_password_unsafe_by_username true hash username) db)
              (ground (arith, e))
              (update-HasRoot id_lem u.id (with_password hash) db (λ u. refl) (λ u r. r) h)
      ]

  set_roles-HasRoot :
      (k : ℕ) (ids : List ℕ) (db : Db users roles)
      → HasRoot id_lem db
      → HasRoot id_lem (detached (set_user_role_ids k ids) db)
  unfolding set_user_role_ids
  set_roles-HasRoot k ids db h =
      bind-HasRoot id_lem (set_user_roles k ids) (λ u. get_user k) db
        (set_user_roles-HasRoot id_lem k ids) (λ u. get_user-HasRoot id_lem k) h

  register-HasRoot :
      (valid : Bool) (input : RegisterUserDto) (ids : List ℕ) (db : Db users roles)
      → HasRoot id_lem db
      → HasRoot id_lem (detached (register valid input ids) db)
  unfolding register Orm.create
  register-HasRoot false input ids db h = h
  register-HasRoot true input ids db h =
      bind-HasRoot id_lem (in_users (Orm.create users (new_user input)))
        (λ u. set_user_roles (users.id u) ids >> get_user (users.id u)) db
        (λ c g. save-IsRooted users id_lem (new_user input) c.user_table (λ k. refl) g)
        (λ u c.
          bind-HasRoot id_lem (set_user_roles (users.id u) ids) (λ v. get_user (users.id u)) c
            (set_user_roles-HasRoot id_lem (users.id u) ids)
            (λ v. get_user-HasRoot id_lem (users.id u)))
        h

  run_op-HasRoot :
      (op : Op) (db : Db users roles) → HasRoot id_lem db → HasRoot id_lem (run_op op db)
  unfolding run_op
  run_op-HasRoot (remove_user cached k) db h = delete_user-HasRoot id_lem cached k db h
  run_op-HasRoot (set_is_root k b) db h = set_is_root-HasRoot k b db h
  run_op-HasRoot (set_verified k b) db h = set_verified-HasRoot k b db h
  run_op-HasRoot (set_roles k ids) db h = set_roles-HasRoot k ids db h
  run_op-HasRoot (update_password matches valid hash k old) db h =
      update_password-HasRoot matches valid hash k old db h
  run_op-HasRoot (update_password_unsafe valid hash username) db h =
      update_unsafe-HasRoot valid hash username db h
  run_op-HasRoot (update_username k username) db h =
      update-HasRoot id_lem k (λ u. record u { username = username }) db (λ u. refl) (λ u r. r) h
  run_op-HasRoot (register_op valid input ids) db h = register-HasRoot valid input ids db h

  -- From users with ids of their own and a root user among them, any operations in any order, whether they
  -- return or throw, leave users with ids of their own and a root user among them.
  pub run_ops-HasRoot :
      (ops : List Op) (db : Db users roles) → HasRoot id_lem db → HasRoot id_lem (run_ops ops db)
  unfolding run_ops
  run_ops-HasRoot [] db h = h
  run_ops-HasRoot (op ∷ ops) db h = run_ops-HasRoot ops (run_op op db) (run_op-HasRoot op db h)
