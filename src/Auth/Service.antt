-- ===== src/Auth/Service.antt =====
-- src/services/authentication/auth.service.ts
use d_hub.Orm
use d_hub.Base.{
  ℕ, ◌+◌, ◌-◌, String, Bool, true, false, Option, none, some, [], ◌∷◌, str_eq, ltb, leb,
  if◌then◌else◌, AuthErrorReason, incorrect_credentials, invalid_or_expired_refresh_token,
  password_change_required, account_not_verified, type_error, authentication_error, Result, ok,
  throw, Prog, ◌>>=◌, ◌>>◌, pure, fail, modify,
}
use d_hub.Base.Dict.{Dict, lookup, insert}
use d_hub.Orm.{Repository}
use d_hub.Auth.{
  RefreshToken, CredentialSettings, User, get_refresh_token, create_refresh_token_for_user_id,
  update_refresh_token_attempts, delete_refresh_token_by_user_id, delete_refresh_token,
  purge_outdated_refresh_tokens_by_user_id,
}

-- An entry of `blacklistedJwtCache`.
pub record Blacklisted : Type 0 where
  pub user_id : ℕ
  pub created_at : ℕ

-- What the service takes from others: `getUser` and `findRawByUsername` of `IUserService`, the
-- comparison of a password with a hash (bcrypt), and `signJwtToken` of `IJwtService`.
pub record AuthDeps : Type 0 where
  pub get_user : ℕ → Result (Option User)
  pub find_raw_by_username : String → Option User
  pub compare_password_hash : String → String → Bool
  pub sign : ℕ → String → String
  pub settings : CredentialSettings

pub record Login : Type 0 where
  pub token : String
  pub refresh_token : String

-- `getUser` of src/services/orm/user.service.ts: a user that is not there is a rejection.
unfoldable pub orm_get_user : (users : Repository User) → users.Table → ℕ → Result (Option User)
orm_get_user users t k = elim (Orm.get users k true t).0 [ ok u ↦ ok (some u) | throw e ↦ throw e ]

-- The loop of `purgeOutdatedBlacklistedJwtCache`.
unfoldable pub keep_young : CredentialSettings → ℕ → Dict Blacklisted → Dict Blacklisted
keep_young settings now [] = []
keep_young settings now ((jwt, b) ∷ m) =
    if ltb settings.jwt_expires_in (now - b.created_at)
    then keep_young settings now m
    else (jwt, b) ∷ keep_young settings now m

module _ (tokens : Repository RefreshToken) where
  pub record AuthState : Type 0 where
    pub token_table : tokens.Table
    pub blacklisted_jwt_cache : Dict Blacklisted

  abbrev in_tokens : {A : Type 0} → Prog tokens.Table A → Prog AuthState A
  in_tokens m s = let (r, t) = m s.token_table in (r, record s { token_table = t })

  unfoldable pub is_jwt_token_blacklisted : String → AuthState → Option Blacklisted
  is_jwt_token_blacklisted jwt s = lookup jwt s.blacklisted_jwt_cache

  module _ (deps : AuthDeps) where
    abbrev attempt : {A : Type 0} → Result A → Prog AuthState A
    attempt r s = (r, s)

    unfoldable pub reason : {A : Type 0} → AuthErrorReason → Prog AuthState A
    reason r = fail (authentication_error r)

    unfoldable pub sign_jwt_token : ℕ → Prog AuthState String
    unfolding reason
    sign_jwt_token k = do
      found ← attempt (deps.get_user k)
      elim found [
        | none ↦ reason invalid_or_expired_refresh_token
        | some user ↦
            if user.needs_password_change
            then reason password_change_required
            else if user.is_verified
            then pure (deps.sign k user.username)
            else reason account_not_verified
      ]

    unfoldable pub purge_outdated_blacklisted_jwt_cache : ℕ → Prog AuthState (Unit {0})
    unfolding keep_young
    purge_outdated_blacklisted_jwt_cache now = modify λ s. record s {
      blacklisted_jwt_cache = keep_young deps.settings now s.blacklisted_jwt_cache;
    }

    unfoldable pub start_session : ℕ → String → ℕ → Prog AuthState Login
    unfolding sign_jwt_token purge_outdated_blacklisted_jwt_cache
    start_session now uuid k = do
      token ← sign_jwt_token k
      in_tokens (purge_outdated_refresh_tokens_by_user_id tokens now k)
      purge_outdated_blacklisted_jwt_cache now
      refresh ← in_tokens (create_refresh_token_for_user_id tokens deps.settings now uuid k)
      pure (record { token = token; refresh_token = refresh })

    unfoldable pub login_user : ℕ → String → String → String → Prog AuthState Login
    unfolding start_session reason
    login_user now uuid username password = elim (deps.find_raw_by_username username) [
      | none ↦ reason incorrect_credentials
      | some user ↦
          if deps.compare_password_hash password user.password_hash
          then start_session now uuid user.id
          else reason incorrect_credentials
    ]

    -- `jwtToken?.length`: an empty text is no token.
    unfoldable pub logout_user_id : ℕ → ℕ → Option String → Prog AuthState (Unit {0})
    unfolding purge_outdated_blacklisted_jwt_cache
    logout_user_id now k jwt = do
      in_tokens (delete_refresh_token_by_user_id tokens k)
      elim jwt [
        | none ↦ pure tt
        | some s ↦ if str_eq s "" then pure tt else do
          modify λ st. record st {
            blacklisted_jwt_cache =
                insert s (record { user_id = k; created_at = now }) st.blacklisted_jwt_cache;
          }
          purge_outdated_blacklisted_jwt_cache now
      ]

    unfoldable pub get_valid_refresh_token :
        ℕ → String → Bool → Prog AuthState (Option RefreshToken)
    unfolding reason
    get_valid_refresh_token now s throw_not_found = do
      found ← in_tokens (get_refresh_token tokens s throw_not_found)
      elim found [
        | none ↦ pure none
        | some t ↦
            if ltb t.expires_at now
            then (do
              in_tokens (delete_refresh_token_by_user_id tokens t.user_id)
              reason invalid_or_expired_refresh_token)
            else pure (some t)
      ]

    -- The read of the user's id of `null` is a `TypeError`; `throwNotFoundError` rules it out.
    unfoldable pub logout_user_refresh_token : ℕ → String → Prog AuthState (Unit {0})
    unfolding get_valid_refresh_token
    logout_user_refresh_token now s = do
      found ← get_valid_refresh_token now s true
      elim found [
        | none ↦ fail type_error
        | some t ↦ in_tokens (delete_refresh_token_by_user_id tokens t.user_id)
      ]

    unfoldable pub exceeded : ℕ → Bool
    exceeded used = elim deps.settings.refresh_token_attempts [
      | none ↦ false
      | some cap ↦ leb cap used
    ]

    unfoldable pub increase_refresh_token_attempts_used : ℕ → String → Prog AuthState (Unit {0})
    unfolding get_valid_refresh_token exceeded reason
    increase_refresh_token_attempts_used now s = do
      found ← get_valid_refresh_token now s true
      elim found [
        | none ↦ fail type_error
        | some t ↦
            if exceeded t.refresh_attempts_used
            then (do
              in_tokens (delete_refresh_token_by_user_id tokens t.user_id)
              reason invalid_or_expired_refresh_token)
            else in_tokens (update_refresh_token_attempts tokens s (t.refresh_attempts_used + 1))
      ]

    -- The end of `renewLoginByRefreshToken`, for a user that is there.
    unfoldable pub renew_finish : ℕ → RefreshToken → Prog AuthState String
    renew_finish now t = do
      token ← sign_jwt_token t.user_id
      increase_refresh_token_attempts_used now t.refresh_token
      pure token

    unfoldable pub renew_found : ℕ → String → RefreshToken → Prog AuthState String
    unfolding reason
    renew_found now s t = do
      user ← attempt (deps.get_user t.user_id)
      elim user [
        | none ↦ do
          in_tokens (delete_refresh_token tokens s)
          reason invalid_or_expired_refresh_token
        | some _ ↦ renew_finish now t
      ]

    unfoldable pub renew_login_by_refresh_token : ℕ → String → Prog AuthState String
    unfolding reason
    renew_login_by_refresh_token now s = do
      found ← get_valid_refresh_token now s false
      elim found [ none ↦ reason invalid_or_expired_refresh_token | some t ↦ renew_found now s t ]
