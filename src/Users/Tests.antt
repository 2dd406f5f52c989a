-- ===== src/Users/Tests.antt =====
-- Two users and their roles.
use d_hub.Orm
use d_hub.Base.{
  ℕ, String, ◌≡◌, refl, Bool, true, false, List, [], ◌∷◌, map, arith, ◌==◌, keep, any, ok, error,
  throw,
}
use d_hub.Orm.{Repository}
use d_hub.Orm.Lists.{AtMostOne}
use d_hub.Orm.Table.{above, in_memory}
use d_hub.Users.Kept.{HasRoot}
use d_hub.Users.Rooted.{Op, remove_user, set_is_root, run_ops, run_ops-HasRoot}
use d_hub.Users.Assigned.{assigned, role_rows, set_user_roles_lem, last_administrator_deleted}
use d_hub.Users.{UserRole, of_user, of_role, among_ids, Db, set_user_roles, delete_user}
use d_hub.Auth.{User}
use d_hub.Roles.{Role, get_role_by_name}

abbrev user_repo : Repository User
user_repo = in_memory (λ u. u.id)

abbrev role_repo : Repository UserRole
role_repo = in_memory (λ r. r.id)

abbrev user : ℕ → String → Bool → User
user k name is_root = record {
  id = k;
  username = name;
  password_hash = "#";
  is_verified = true;
  is_demo_user = false;
  is_root_user = is_root;
  needs_password_change = false;
}

-- The second user has the role ADMIN, by the assignment 7.
abbrev two_users : Db user_repo role_repo
two_users = record {
  user_table = user 1 "owner" true ∷ user 2 "admin" false ∷ [];
  role_table =
      record { id = 7; role_id = 1; user_id = 2 }
      ∷ record { id = 8; role_id = 3; user_id = 1 }
      ∷ [];
  role_ids = 1 ∷ 3 ∷ 4 ∷ [];
}

abbrev cached_roles : List Role
cached_roles = record { id = 1; name = "ADMIN" } ∷ record { id = 3; name = "GUEST" } ∷ []

last_administrator_deleted_example :
    (db' : Db user_repo role_repo) × (delete_user cached_roles 2 two_users ≡ (ok tt, db'))
    × (keep (of_role 1) (role_rows db') ≡ [])
unfolding get_role_by_name
last_administrator_deleted_example =
    last_administrator_deleted cached_roles 2 two_users {u = user 2 "admin" false}
      {admin = record { id = 1; name = "ADMIN" }} {a = record { id = 7; role_id = 1; user_id = 2 }}
      refl refl refl refl refl refl

set_user_roles_lem_example :
    (t : List UserRole) × (set_user_roles 2 (3 ∷ 4 ∷ []) two_users
      ≡ (ok tt, record two_users { role_table = t }))
    × ((j : ℕ) → any (assigned 2 j) t ≡ among_ids (3 ∷ 4 ∷ []) j)
    × ((m : ℕ) → (2 == m) ≡ false → keep (of_user m) t ≡ keep (of_user m) (role_rows two_users))
set_user_roles_lem_example =
    set_user_roles_lem 2 (3 ∷ 4 ∷ []) two_users refl (λ j h. ground (arith, h))
      λ j. (λ e. ground (arith, e), (λ e. refl, tt))

-- The role that was to be assigned is asked for twice: the old one is gone, and the call throws.
asked_twice :
    let (r, db) = set_user_roles 2 (3 ∷ 3 ∷ []) two_users in
    (r ≡ throw error) × (map (λ x. x.role_id) (keep (of_user 2) db.role_table) ≡ 3 ∷ [])
unfolding set_user_roles Orm.create above
asked_twice = (refl, refl)

abbrev some_ops : List Op
some_ops =
    set_is_root 2 true
    ∷ set_is_root 1 false
    ∷ set_is_root 2 false
    ∷ remove_user cached_roles 1
    ∷ remove_user cached_roles 2
    ∷ []

one_root_left : map (λ u. u.username) (run_ops some_ops two_users).user_table ≡ "admin" ∷ []
unfolding run_ops Orm.update_row Orm.delete get_role_by_name
one_root_left = refl

keyed : (k : ℕ) → AtMostOne (λ u. u.id == k) two_users.user_table
keyed k = (λ e. ground (arith, e), (λ e. refl, tt))

run_ops-HasRoot_example : HasRoot (λ u. refl) (run_ops some_ops two_users)
run_ops-HasRoot_example =
    run_ops-HasRoot (λ u. refl) some_ops two_users (record { rooted = refl; keyed = keyed })
