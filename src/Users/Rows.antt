-- ===== src/Users/Rows.antt =====
-- The table of users under the changes that src/services/orm/user.service.ts makes: ids stay apart, and
-- a root user stays.
use d_hub.Orm
use d_hub.Base.{
  ℕ, ◌≡◌, refl, inl, inr, Bool, true, false, not, some, List, [], ◌∷◌, arith, ◌==◌, Option-cases,
  keep, find, any, any-append,
}
use d_hub.Orm.{Repository}
use d_hub.Orm.Lists.{AtMostOne, AtMostOne-keep, AtMostOne-append, rewritten}
use d_hub.Orm.Rows.{update_found, update_missing}
use d_hub.Users.{is_only}
use d_hub.Auth.{User}

-- At most one row of a table has a given id.
abbrev pub IsKeyed : List User → Type 0
IsKeyed us = (k : ℕ) → AtMostOne (λ u. u.id == k) us

pub record IsRooted (us : List User) : Type 0 where
  pub rooted : any (λ u. u.is_root_user) us ≡ true
  pub keyed : IsKeyed us

-- A change of one user that keeps the id and makes no root user another.
any-rewritten :
    (p : User → Bool) (f : User → User) (us : List User)
    → ((u : User) → u.is_root_user ≡ true → (f u).is_root_user ≡ true)
    → any (λ u. u.is_root_user) us ≡ true
    → any (λ u. u.is_root_user) (rewritten p f us) ≡ true
any-rewritten p f [] h r = r
any-rewritten p f (u ∷ us) h r = ground (arith, h u, any-rewritten p f us h, r)

any-id-rewritten :
    (p : User → Bool) (f : User → User) (k : ℕ) (us : List User)
    → ((u : User) → (f u).id ≡ u.id)
    → any (λ u. u.id == k) us ≡ false
    → any (λ u. u.id == k) (rewritten p f us) ≡ false
any-id-rewritten p f k [] h r = r
any-id-rewritten p f k (u ∷ us) h r = ground (arith, h u, any-id-rewritten p f k us h, r)

IsKeyed-rewritten :
    (p : User → Bool) (f : User → User) (k : ℕ) (us : List User)
    → ((u : User) → (f u).id ≡ u.id)
    → AtMostOne (λ u. u.id == k) us
    → AtMostOne (λ u. u.id == k) (rewritten p f us)
IsKeyed-rewritten p f k [] h m = tt
IsKeyed-rewritten p f k (u ∷ us) h m = (
  λ e. any-id-rewritten p f k us h (m.0 (ground (arith, e, h u))),
  IsKeyed-rewritten p f k us h m.1,
)

keep-none : (p : User → Bool) (us : List User) → any p us ≡ false → keep p us ≡ []
keep-none p [] h = refl
keep-none p (u ∷ us) h = ground (arith, h, keep-none p us)

rewritten-none :
    (p : User → Bool) (f : User → User) (us : List User) → any p us ≡ false → rewritten p f us ≡ us
rewritten-none p f [] h = refl
rewritten-none p f (u ∷ us) h = ground (arith, h, rewritten-none p f us)

-- A second root user is left when one is made none.
root_left :
    (k : ℕ) (us : List User)
    → AtMostOne (λ u. u.id == k) us
    → any (λ u. u.is_root_user) us ≡ true
    → is_only k (keep (λ u. u.is_root_user) us) ≡ false
    → any
        (λ u. u.is_root_user)
        (rewritten (λ u. u.id == k) (λ u. record u { is_root_user = false }) us)
      ≡ true
root_left k [] m r o = r
root_left k (u ∷ us) m r o =
    let root : User → Bool = λ v. v.is_root_user in
    ground (
      arith,
      r,
      o,
      m.0,
      root_left k us m.1,
      keep-none root us,
      rewritten-none (λ u. u.id == k) (λ u. record u { is_root_user = false }) us,
    )

module _ (users : Repository User) (id_lem : (u : User) → users.id u ≡ u.id) where
  same_rewritten :
      (k : ℕ) (f : User → User) (us : List User)
      → rewritten (λ u. users.id u == k) f us ≡ rewritten (λ u. u.id == k) f us
  same_rewritten k f [] = refl
  same_rewritten k f (u ∷ us) = ground (arith, id_lem u, same_rewritten k f us)

  same_any : (k : ℕ) (us : List User) → any (λ u. users.id u == k) us ≡ any (λ u. u.id == k) us
  same_any k [] = refl
  same_any k (u ∷ us) = ground (arith, id_lem u, same_any k us)

  all_kept :
      (k : ℕ) (us : List User)
      → any (λ u. u.id == k) us ≡ false
      → keep (λ u. not (users.id u == k)) us ≡ us
  all_kept k [] h = refl
  all_kept k (u ∷ us) h = ground (arith, id_lem u, h, all_kept k us)

  root_kept :
      (k : ℕ) (us : List User) {u : User}
      → AtMostOne (λ u. u.id == k) us
      → find (λ u. users.id u == k) us ≡ some u
      → u.is_root_user ≡ false
      → any (λ u. u.is_root_user) us ≡ true
      → any (λ u. u.is_root_user) (keep (λ u. not (users.id u == k)) us) ≡ true
  root_kept k [] m e n r = r
  root_kept k (v ∷ us) {u} m e n r =
      ground (arith, id_lem v, m.0, e, n, r, root_kept k us {u = u} m.1, all_kept k us)

  pub update-IsRooted :
      (k : ℕ) (f : User → User) (t : users.Table)
      → ((u : User) → (f u).id ≡ u.id)
      → ((u : User) → u.is_root_user ≡ true → (f u).is_root_user ≡ true)
      → IsRooted (users.rows t)
      → IsRooted (users.rows (Orm.update_row users k f t).1)
  update-IsRooted k f t i j h = elim (Option-cases (find (λ u. users.id u == k) (users.rows t))) [
    | inl e ↦ rw (update_missing users k f t e) h
    | inr (u, e) ↦
        rw (update_found users k f t e, users.rows-update (λ u. users.id u == k) f t)
          (record {
            rooted = any-rewritten (λ u. users.id u == k) f (users.rows t) j h.rooted;
            keyed = λ m. IsKeyed-rewritten (λ u. users.id u == k) f m (users.rows t) i (h.keyed m);
          })
  ]

  pub unset-IsRooted :
      (k : ℕ) (t : users.Table)
      → is_only k (keep (λ u. u.is_root_user) (users.rows t)) ≡ false
      → IsRooted (users.rows t)
      → IsRooted (users.rows (Orm.update_row users k (λ u. record u { is_root_user = false }) t).1)
  unset-IsRooted k t o h = elim (Option-cases (find (λ u. users.id u == k) (users.rows t))) [
    | inl e ↦ rw (update_missing users k (λ u. record u { is_root_user = false }) t e) h
    | inr (u, e) ↦
        rw
          (
            update_found users k (λ u. record u { is_root_user = false }) t e,
            users.rows-update (λ u. users.id u == k) (λ u. record u { is_root_user = false }) t,
            same_rewritten k (λ u. record u { is_root_user = false }) (users.rows t),
          )
          (record {
            rooted = root_left k (users.rows t) (h.keyed k) h.rooted o;
            keyed = λ m.
                IsKeyed-rewritten (λ u. u.id == k) (λ u. record u { is_root_user = false }) m
                  (users.rows t) (λ u. refl) (h.keyed m);
          })
  ]

  pub delete-IsRooted :
      (k : ℕ) (us : List User) {u : User}
      → find (λ u. users.id u == k) us ≡ some u
      → u.is_root_user ≡ false
      → IsRooted us
      → IsRooted (keep (λ u. not (users.id u == k)) us)
  delete-IsRooted k us {u} e n h = record {
    rooted = root_kept k us (h.keyed k) e n h.rooted;
    keyed = λ m. AtMostOne-keep (λ u. u.id == m) (λ u. not (users.id u == k)) us (h.keyed m);
  }

  pub save-IsRooted :
      (f : ℕ → User) (t : users.Table)
      → ((k : ℕ) → (f k).id ≡ k)
      → IsRooted (users.rows t)
      → IsRooted (users.rows (users.save f t))
  save-IsRooted f t i h =
      let new = f (users.next_id t) in
      rw (users.rows-save f t) (record {
        rooted =
            ground (arith, any-append (λ u. u.is_root_user) (users.rows t) (new ∷ []), h.rooted);
        keyed = λ m.
            AtMostOne-append (λ u. u.id == m) (users.rows t) new (h.keyed m)
              (λ e. ground (
                arith,
                e,
                i (users.next_id t),
                same_any (users.next_id t) (users.rows t),
                users.next_id_fresh t,
              ));
      })
