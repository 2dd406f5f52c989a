-- ===== src/Users/Assigned.antt =====
-- The roles that src/services/orm/user-role.service.ts leaves a user with, and the check of the last
-- administrator in src/services/orm/user.service.ts.
use d_hub.Orm
use d_hub.Base.{
  ℕ, ◌≡◌, refl, inl, inr, Bool, Bool-cases, true, false, not, ◌&&◌, ◌||◌, some, List, [], ◌∷◌, map,
  arith, ◌==◌, ==_iff, keep, find, any, any-append, append-nil, keep-append, keep_comm, ok,
}
use d_hub.Orm.{Repository}
use d_hub.Orm.Lists.{AtMostOne, AtMostOne-keep}
use d_hub.Orm.Rows.{get_found, delete_found}
use d_hub.Users.{
  UserRole, of_user, of_role, among_ids, is_only, may_assign, Db, list_user_roles, list_by_role_id,
  delete_many_user_roles, create_each, set_user_roles, get_user, find_users_by_role_id, delete_row,
  delete_user,
}
use d_hub.Auth.{User}
use d_hub.Roles.{Role, get_role_by_name}

abbrev pub assigned : ℕ → ℕ → UserRole → Bool
assigned k j r = of_user k r && of_role j r

among-keep :
    (j : ℕ) (p : ℕ → Bool) (ids : List ℕ) → among_ids (keep p ids) j ≡ (p j && among_ids ids j)
among-keep j p [] = ground arith
among-keep j p (i ∷ ids) = ground (arith, among-keep j p ids, ==_iff i j)

among-map :
    (k j : ℕ) (rs : List UserRole)
    → among_ids (map (λ r. r.role_id) (keep (of_user k) rs)) j ≡ any (assigned k j) rs
among-map k j [] = refl
among-map k j (r ∷ rs) = ground (arith, among-map k j rs)

any-delete :
    (k j : ℕ) (ids : List ℕ) (rs : List UserRole)
    → any (assigned k j) (keep (λ r. not (of_user k r && among_ids ids r.role_id)) rs)
      ≡ (not (among_ids ids j) && any (assigned k j) rs)
any-delete k j ids [] = ground arith
any-delete k j ids (r ∷ rs) = ground (arith, any-delete k j ids rs, ==_iff r.role_id j)

keep-delete :
    (k m : ℕ) (ids : List ℕ) (rs : List UserRole)
    → (k == m) ≡ false
    → keep (of_user m) (keep (λ r. not (of_user k r && among_ids ids r.role_id)) rs)
      ≡ keep (of_user m) rs
keep-delete k m ids [] h = refl
keep-delete k m ids (r ∷ rs) h = ground (arith, keep-delete k m ids rs h)

only_first : (u : User) (k : ℕ) (us : List User) → (u.id == k) ≡ false → is_only k (u ∷ us) ≡ false
only_first u k [] h = h
only_first u k (v ∷ us) h = refl

not_only :
    (i k : ℕ) (us : List User)
    → (i == k) ≡ false
    → is_only k (keep (λ v. among_ids (i ∷ []) v.id) us) ≡ false
not_only i k [] h = refl
not_only i k (u ∷ us) h =
    let rest = keep (λ v. among_ids (i ∷ []) v.id) us in
    elim (Bool-cases (u.id == i)) [
      | inr e ↦ ground (arith, e, not_only i k us h, ==_iff i u.id, ==_iff u.id i)
      | inl e ↦ let same = (==_iff u.id i).0 e in ground (arith, e, only_first u k rest (rw same h))
    ]

module _ {users : Repository User} {roles : Repository UserRole} where
  abbrev pub role_rows : Db users roles → List UserRole
  role_rows db = roles.rows db.role_table

  -- Whether or not the loop gets to its end, it only changes the assignments.
  create_each_table :
      (k : ℕ) (ids : List ℕ) (db : Db users roles)
      → (t : roles.Table) × ((create_each k ids db).1 ≡ record db { role_table = t })
  unfolding create_each Orm.create
  create_each_table k [] db = (db.role_table, refl)
  create_each_table k (i ∷ ids) db = elim (Bool-cases (may_assign k i db)) [
    | inr h ↦ (db.role_table, ground (arith, h))
    | inl h ↦
        let new : ℕ → UserRole = λ n. record { id = n; role_id = i; user_id = k } in
        let (t, e) =
          create_each_table k ids (record db { role_table = roles.save new db.role_table }) in
        (t, ground (arith, h, e))
  ]

  pub set_user_roles_table :
      (k : ℕ) (ids : List ℕ) (db : Db users roles)
      → (t : roles.Table) × ((set_user_roles k ids db).1 ≡ record db { role_table = t })
  unfolding set_user_roles list_user_roles delete_many_user_roles
  set_user_roles_table k ids db =
      let previous = map (λ r. r.role_id) (roles.find_by (of_user k) db.role_table) in
      let gone = keep (λ j. not (among_ids ids j)) previous in
      let p : UserRole → Bool = λ r. of_user k r && among_ids gone r.role_id in
      create_each_table k (keep (λ j. not (among_ids previous j)) ids)
        (record db { role_table = roles.delete p db.role_table })

  -- Nothing that the loop is to assign is refused.
  record IsFree (k : ℕ) (ids : List ℕ) (db : Db users roles) : Type 0 where
    user : any (λ u. users.id u == k) (users.rows db.user_table) ≡ true
    known : (j : ℕ) → among_ids ids j ≡ true → among_ids db.role_ids j ≡ true
    once : (j : ℕ) → AtMostOne (λ i. i == j) ids
    unassigned : (j : ℕ) → among_ids ids j ≡ true → any (assigned k j) (role_rows db) ≡ false

  may_assign_first :
      (k i : ℕ) (ids : List ℕ) (db : Db users roles)
      → IsFree k (i ∷ ids) db
      → may_assign k i db ≡ true
  may_assign_first k i ids db h =
      let first : among_ids (i ∷ ids) i ≡ true = ground (arith, ==_iff i i) in
      ground (arith, h.user, h.known i first, h.unassigned i first)

  IsFree-saved :
      (k i : ℕ) (ids : List ℕ) (db : Db users roles)
      → IsFree k (i ∷ ids) db
      → IsFree k ids (record db {
        role_table = roles.save (λ n. record { id = n; role_id = i; user_id = k }) db.role_table;
      })
  IsFree-saved k i ids db h =
      let new : ℕ → UserRole = λ n. record { id = n; role_id = i; user_id = k } in
      let row = new (roles.next_id db.role_table) in
      record {
        user = h.user;
        known = λ j e. h.known j (ground (arith, e));
        once = λ j. (h.once j).1;
        unassigned = λ j e.
            let later : among_ids (i ∷ ids) j ≡ true = ground (arith, e) in
            ground (
              arith,
              e,
              roles.rows-save new db.role_table,
              any-append (assigned k j) (role_rows db) (row ∷ []),
              h.unassigned j later,
              (h.once j).0,
            );
      }

  create_each_lem :
      (k : ℕ) (ids : List ℕ) (db : Db users roles)
      → IsFree k ids db
      → (t : roles.Table) × (create_each k ids db ≡ (ok tt, record db { role_table = t }))
        × ((j : ℕ)
            → any (assigned k j) (roles.rows t)
              ≡ (any (assigned k j) (role_rows db) || among_ids ids j))
        × ((m : ℕ)
            → (k == m) ≡ false
            → keep (of_user m) (roles.rows t) ≡ keep (of_user m) (role_rows db))
  unfolding create_each Orm.create
  create_each_lem k [] db free = (db.role_table, refl, (λ j. ground arith), λ m h. refl)
  create_each_lem k (i ∷ ids) db free =
      let new : ℕ → UserRole = λ n. record { id = n; role_id = i; user_id = k } in
      let row = new (roles.next_id db.role_table) in
      let saved = roles.save new db.role_table in
      let (t, e, f, g) =
        create_each_lem k ids (record db { role_table = saved }) (IsFree-saved k i ids db free) in
      let s = roles.rows-save new db.role_table in
      let a = may_assign_first k i ids db free in
      (
        t,
        ground (arith, a, e),
        (λ j. ground (arith, f j, s, any-append (assigned k j) (role_rows db) (row ∷ []))),
        λ m h. ground (
          arith,
          g m h,
          s,
          keep-append (of_user m) (role_rows db) (row ∷ []),
          append-nil (keep (of_user m) (role_rows db)),
          h,
        ),
      )

  -- If the user and the roles asked for are there, and no role is asked for twice, then after `setUserRoles`
  -- the user has exactly the roles asked for, and the roles of the others, and the users, are as they were.
  pub set_user_roles_lem :
      (k : ℕ) (ids : List ℕ) (db : Db users roles)
      → any (λ u. users.id u == k) (users.rows db.user_table) ≡ true
      → ((j : ℕ) → among_ids ids j ≡ true → among_ids db.role_ids j ≡ true)
      → ((j : ℕ) → AtMostOne (λ i. i == j) ids)
      → (t : roles.Table) × (set_user_roles k ids db ≡ (ok tt, record db { role_table = t }))
        × ((j : ℕ) → any (assigned k j) (roles.rows t) ≡ among_ids ids j)
        × ((m : ℕ)
            → (k == m) ≡ false
            → keep (of_user m) (roles.rows t) ≡ keep (of_user m) (role_rows db))
  unfolding set_user_roles list_user_roles delete_many_user_roles
  set_user_roles_lem k ids db user known once =
      let previous = map (λ r. r.role_id) (roles.find_by (of_user k) db.role_table) in
      let gone = keep (λ j. not (among_ids ids j)) previous in
      let p : UserRole → Bool = λ r. of_user k r && among_ids gone r.role_id in
      let del = roles.delete p db.role_table in
      let d = roles.rows-delete p db.role_table in
      let b = roles.find_by_lem (of_user k) db.role_table in
      let fresh : ℕ → Bool = λ j. not (among_ids previous j) in
      let (t, e, f, g) =
        create_each_lem k (keep fresh ids) (record db { role_table = del })
          (record {
            user = user;
            known = λ j h. known j (ground (arith, h, among-keep j fresh ids));
            once = λ j. AtMostOne-keep (λ i. i == j) fresh ids (once j);
            unassigned = λ j h. ground (
              arith,
              h,
              d,
              b,
              among-keep j fresh ids,
              among-map k j (role_rows db),
              any-delete k j gone (role_rows db),
            );
          }) in
      (
        t,
        e,
        (λ j. ground (
          arith,
          f j,
          d,
          b,
          any-delete k j gone (role_rows db),
          among-keep j (λ i. not (among_ids ids i)) previous,
          among-keep j (λ i. not (among_ids previous i)) ids,
          among-map k j (role_rows db),
        )),
        λ m h. ground (arith, g m h, d, keep-delete k m gone (role_rows db) h),
      )

  -- The users whose ids are ids of assignments of the role.
  found_under_ids :
      (role_id k : ℕ) (db : Db users roles) {a : UserRole}
      → keep (of_role role_id) (role_rows db) ≡ a ∷ []
      → (a.id == k) ≡ false
      → is_only k (find_users_by_role_id role_id db) ≡ false
  unfolding find_users_by_role_id list_by_role_id
  found_under_ids role_id k db {a} o n = ground (
    arith,
    roles.find_by_lem (of_role role_id) db.role_table,
    o,
    users.find_by_lem (λ v. among_ids (a.id ∷ []) v.id) db.user_table,
    not_only a.id k (users.rows db.user_table) n,
  )

  -- The check of `deleteUser` looks for the users under the ids of the assignments: the one user that has
  -- the role ADMIN and is no root user is deleted, and nobody has the role then, whenever the id of the
  -- assignment is not by chance the id of the user.
  pub last_administrator_deleted :
      (cached : List Role) (k : ℕ) (db : Db users roles) {u : User} {admin : Role} {a : UserRole}
      → find (λ v. users.id v == k) (users.rows db.user_table) ≡ some u
      → u.is_root_user ≡ false
      → get_role_by_name cached "ADMIN" ≡ ok admin
      → keep (of_role admin.id) (role_rows db) ≡ a ∷ []
      → a.user_id ≡ k
      → (a.id == k) ≡ false
      → (db' : Db users roles) × (delete_user cached k db ≡ (ok tt, db'))
        × (keep (of_role admin.id) (role_rows db') ≡ [])
  unfolding delete_user get_user list_user_roles find_users_by_role_id list_by_role_id delete_row
  last_administrator_deleted cached k db {u} {admin} {a} h r g o e n = (
    record db {
      user_table = users.delete (λ v. users.id v == k) db.user_table;
      role_table = roles.delete (of_user k) db.role_table;
    },
    ground (
      arith,
      get_found users k true db.user_table h,
      r,
      g,
      found_under_ids admin.id k db o n,
      delete_found users k db.user_table h,
    ),
    ground (
      arith,
      roles.rows-delete (of_user k) db.role_table,
      keep_comm (of_role admin.id) (λ x. not (of_user k x)) (role_rows db),
      o,
      e,
      ==_iff a.user_id k,
    ),
  )
