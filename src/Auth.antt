-- ===== src/Auth.antt =====
-- src/services/orm/refresh-token.service.ts, and the data of
-- src/services/authentication/auth.service.ts. Times are `Date.now()`, in milliseconds, and an
-- argument of each call: one call reads one time.
pub mod Service
pub mod Renewal
pub mod Tests
pub mod Sessions
pub mod Blacklist
pub mod Middleware
use mathlib.Core.Option
use d_hub.Orm
use d_hub.Base.{
  ℕ, ◌+◌, ◌*◌, String, Bool, true, ◌&&◌, Option, none, some, str_eq, ltb, ◌==◌, if◌then◌else◌,
  invalid_or_expired_refresh_token, authentication_error, ok, throw, Prog, ◌>>=◌, ◌>>◌, pure,
  modify,
}
use d_hub.Orm.{Repository}

pub record RefreshToken : Type 0 where
  pub id : ℕ
  pub user_id : ℕ
  pub expires_at : ℕ
  pub refresh_token : String
  pub refresh_attempts_used : ℕ

-- `credentials` of the settings. `refreshTokenAttempts` is -1, here `none`, or a cap;
-- `jwtExpiresIn` and `refreshTokenExpiry` are in seconds.
pub record CredentialSettings : Type 0 where
  pub jwt_expires_in : ℕ
  pub refresh_token_attempts : Option ℕ
  pub refresh_token_expiry : Option ℕ

abbrev pub default_refresh_token_expiry : ℕ
default_refresh_token_expiry = 60 * 60 * 24 * 14

-- The columns of the table of users that the services read.
pub record User : Type 0 where
  pub id : ℕ
  pub username : String
  pub password_hash : String
  pub is_verified : Bool
  pub is_demo_user : Bool
  pub is_root_user : Bool
  pub needs_password_change : Bool

abbrev pub has_token : String → RefreshToken → Bool
has_token s t = str_eq t.refresh_token s

abbrev pub of_user : ℕ → RefreshToken → Bool
of_user k t = t.user_id == k

abbrev pub outdated : ℕ → RefreshToken → Bool
outdated now t = ltb t.expires_at now

-- The row that `createRefreshTokenForUserId` makes; the expiry has a default.
abbrev pub new_token : CredentialSettings → ℕ → String → ℕ → ℕ → RefreshToken
new_token settings now uuid user_id k = record {
  id = k;
  user_id = user_id;
  expires_at =
      now + Option.get_or settings.refresh_token_expiry default_refresh_token_expiry * 1000;
  refresh_token = uuid;
  refresh_attempts_used = 0;
}

module _ (tokens : Repository RefreshToken) where
  open tokens use {Table}

  unfoldable pub get_refresh_token : String → Bool → Prog Table (Option RefreshToken)
  get_refresh_token s throw_not_found t = elim (tokens.find_one_by (has_token s) t) [
    | none ↦ (
      if throw_not_found
          then throw (authentication_error invalid_or_expired_refresh_token)
          else ok none,
      t,
    )
    | some r ↦ (ok (some r), t)
  ]

  -- `uuid` is the token that `uuidv4` draws.
  unfoldable pub create_refresh_token_for_user_id :
      CredentialSettings → ℕ → String → ℕ → Prog Table String
  create_refresh_token_for_user_id settings now uuid user_id = do
    _ ← Orm.create tokens (new_token settings now uuid user_id)
    pure uuid

  unfoldable pub update_refresh_token_attempts : String → ℕ → Prog Table (Unit {0})
  unfolding get_refresh_token
  update_refresh_token_attempts s n = do
    _ ← get_refresh_token s true
    modify (tokens.update (has_token s) (λ t. record t { refresh_attempts_used = n }))

  unfoldable pub purge_all_outdated_refresh_tokens : ℕ → Prog Table (Unit {0})
  purge_all_outdated_refresh_tokens now = modify (tokens.delete (outdated now))

  unfoldable pub delete_refresh_token_by_user_id : ℕ → Prog Table (Unit {0})
  delete_refresh_token_by_user_id k = modify (tokens.delete (of_user k))

  unfoldable pub delete_refresh_token : String → Prog Table (Unit {0})
  delete_refresh_token s = modify (tokens.delete (has_token s))

  unfoldable pub purge_outdated_refresh_tokens_by_user_id : ℕ → ℕ → Prog Table (Unit {0})
  purge_outdated_refresh_tokens_by_user_id now k =
      modify (tokens.delete (λ t. of_user k t && outdated now t))
