-- ===== src/Auth/Sessions.antt =====
-- `loginUser` of src/services/authentication/auth.service.ts, and when a renewal succeeds.
use d_hub.Orm
use d_hub.Base.{
  ℕ, String, ◌≡◌, refl, inl, inr, true, false, ◌&&◌, some, arith, str_eq_refl, Bool-cases,
  Option-cases, find, any, any-keep-false, ok, bind-eq_ok, Result-cases,
}
use d_hub.Orm.{Repository}
use d_hub.Orm.Lists.{find-append}
use d_hub.Auth.{
  RefreshToken, User, has_token, of_user, outdated, new_token, create_refresh_token_for_user_id,
  purge_outdated_refresh_tokens_by_user_id,
}
use d_hub.Auth.Service.{
  AuthDeps, Login, keep_young, AuthState, reason, sign_jwt_token,
  purge_outdated_blacklisted_jwt_cache, start_session, login_user,
}

-- A user that `signJwtToken` signs for.
abbrev pub MaySign : AuthDeps → ℕ → User → Type 0
MaySign deps k v =
    (deps.get_user k ≡ ok (some v)) × (v.needs_password_change ≡ false) × (v.is_verified ≡ true)

module _ {tokens : Repository RefreshToken} (deps : AuthDeps) where
  sign_of_MaySign :
      (k : ℕ) (v : User) (st : AuthState tokens)
      → MaySign deps k v
      → sign_jwt_token tokens deps k st ≡ (ok (deps.sign k v.username), st)
  unfolding sign_jwt_token
  sign_of_MaySign k v st h = ground (arith, h)

  MaySign-sign :
      (k : ℕ) (st : AuthState tokens) {jwt : String}
      → (sign_jwt_token tokens deps k st).0 ≡ ok jwt
      → (v : User) × MaySign deps k v
  unfolding sign_jwt_token reason
  MaySign-sign k st {jwt} h = elim (Result-cases (deps.get_user k)) [
    | inr (e, n) ↦ absurd (ground (arith, h, n))
    | inl (o, y) ↦ elim (Option-cases o) [
      | inl z ↦ absurd (ground (arith, h, y, z))
      | inr (v, z) ↦ (v, (ground (arith, y, z), ground (arith, h, y, z), ground (arith, h, y, z)))
    ]
  ]

  -- A login succeeds only for a known username, with a password that the stored hash accepts, and if
  -- the user is found again by id, has no password to change and is verified.
  pub login-MaySign :
      (now : ℕ) (uuid username password : String) (st : AuthState tokens) {l : Login}
      → (login_user tokens deps now uuid username password st).0 ≡ ok l
      → (u : User) × (v : User) × (deps.find_raw_by_username username ≡ some u)
        × (deps.compare_password_hash password u.password_hash ≡ true)
        × MaySign deps u.id v
  unfolding login_user start_session reason
  login-MaySign now uuid username password st {l} h =
      elim (Option-cases (deps.find_raw_by_username username)) [
        | inl n ↦ absurd (ground (arith, h, n))
        | inr (u, y) ↦ elim (Bool-cases (deps.compare_password_hash password u.password_hash)) [
          | inr w ↦ absurd (ground (arith, h, y, w))
          | inl w ↦ elim (Result-cases (sign_jwt_token tokens deps u.id st).0) [
            | inr (e, n) ↦ absurd (ground (arith, h, y, w, n))
            | inl (jwt, n) ↦ let (v, may) = MaySign-sign u.id st n in (u, v, y, w, may)
          ]
        ]
      ]

  start_session_lem :
      (now : ℕ) (uuid : String) (k : ℕ) (st : AuthState tokens) (v : User)
      → MaySign deps k v
      → start_session tokens deps now uuid k st ≡ (
        ok (record { token = deps.sign k v.username; refresh_token = uuid }),
        record {
          token_table =
              tokens.save
                (new_token deps.settings now uuid k)
                (tokens.delete (λ t. of_user k t && outdated now t) st.token_table);
          blacklisted_jwt_cache = keep_young deps.settings now st.blacklisted_jwt_cache;
        },
      )
  unfolding start_session purge_outdated_refresh_tokens_by_user_id create_refresh_token_for_user_id
      Orm.create purge_outdated_blacklisted_jwt_cache
  start_session_lem now uuid k st v may = rw (bind-eq_ok _ _ (sign_of_MaySign k v st may)) refl

  -- A login of a known and verified user with an accepted password and none to change succeeds:
  -- the answer holds the signed token and the new refresh token, whose row is then found, unused,
  -- with an expiry of the set number of seconds from now.
  pub login-succeeds :
      (now : ℕ) (uuid username password : String) (st : AuthState tokens) {u : User} (v : User)
      → deps.find_raw_by_username username ≡ some u
      → deps.compare_password_hash password u.password_hash ≡ true
      → MaySign deps u.id v
      → any (has_token uuid) (tokens.rows st.token_table) ≡ false
      → let (r, st') = login_user tokens deps now uuid username password st in
        (r ≡ ok (record { token = deps.sign u.id v.username; refresh_token = uuid }))
        × ((k : ℕ) × (find (has_token uuid) (tokens.rows st'.token_table)
              ≡ some (new_token deps.settings now uuid u.id k)))
  unfolding login_user
  login-succeeds now uuid username password st {u} v y w may fresh =
      rw (y, login_user, w, start_session_lem now uuid u.id st v may)
        (
          refl,
          (
            tokens.next_id (tokens.delete (λ t. of_user u.id t && outdated now t) st.token_table),
            rw (tokens.rows-save, tokens.rows-delete)
                (find-append (has_token uuid) _ _ (any-keep-false (has_token uuid) _ _ fresh)
                  (str_eq_refl uuid)),
          ),
        )
