-- ===== src/Auth/Tests.antt =====
-- Sessions on a table in memory.
use d_hub.Orm
use d_hub.Base.{
  ℕ, ◌+◌, ◌*◌, ◌≤◌, ◌<◌, String, ◌≡◌, refl, ◌↔◌, ◌⊎◌, Bool, true, false, none, some, [], ◌∷◌, arith,
  str_eq, str_eq_iff, ◌==◌, if◌then◌else◌, find, login_required, authentication_error,
  entity_not_found_error, ok, throw, detached,
}
use d_hub.Base.Dict.{lookup}
use d_hub.Orm.{Repository}
use d_hub.Orm.Table.{above, in_memory}
use d_hub.Auth.{
  RefreshToken, User, has_token, new_token, get_refresh_token, create_refresh_token_for_user_id,
  update_refresh_token_attempts, delete_refresh_token_by_user_id,
  purge_outdated_refresh_tokens_by_user_id,
}
use d_hub.Auth.Service.{
  AuthDeps, keep_young, AuthState, is_jwt_token_blacklisted, sign_jwt_token,
  purge_outdated_blacklisted_jwt_cache, start_session, login_user, logout_user_id,
  get_valid_refresh_token, exceeded, increase_refresh_token_attempts_used, renew_finish,
  renew_found, renew_login_by_refresh_token,
}
use d_hub.Auth.Renewal.{renewals, renewals-le-remaining}
use d_hub.Auth.Blacklist.{logout-IsBlacklisted, blacklist_ends_early}
use d_hub.Auth.Sessions.{MaySign, login-MaySign, login-succeeds}
use d_hub.Auth.Middleware.{bearer_of, Request, authenticate, authenticate_iff}

abbrev token_repo : Repository RefreshToken
token_repo = in_memory (λ t. t.id)

abbrev ann : User
ann = record {
  id = 3;
  username = "ann";
  password_hash = "h1";
  is_verified = true;
  is_demo_user = false;
  is_root_user = false;
  needs_password_change = false;
}

-- An hour for a signature, two attempts for a refresh token.
abbrev test_deps : AuthDeps
test_deps = record {
  get_user = λ k. if k == 3 then ok (some ann) else throw entity_not_found_error;
  find_raw_by_username = λ s. if str_eq s "ann" then some ann else none;
  compare_password_hash = λ p h. str_eq p "secret";
  sign = λ k s. s;
  settings = record {
    jwt_expires_in = 3600;
    refresh_token_attempts = some 2;
    refresh_token_expiry = none;
  };
}

abbrev no_sessions : AuthState token_repo
no_sessions = record { token_table = []; blacklisted_jwt_cache = [] }

abbrev ann_row : RefreshToken
ann_row = new_token test_deps.settings 1000 "r1" 3 1

abbrev one_session : AuthState token_repo
one_session = record { token_table = ann_row ∷ []; blacklisted_jwt_cache = [] }

abbrev logged_out : AuthState token_repo
logged_out = record {
  token_table = [];
  blacklisted_jwt_cache = ("jwt", record { user_id = 3; created_at = 5000 }) ∷ [];
}

login_test :
    login_user token_repo test_deps 1000 "r1" "ann" "secret" no_sessions
    ≡ (ok (record { token = "ann"; refresh_token = "r1" }), one_session)
unfolding login_user start_session sign_jwt_token purge_outdated_blacklisted_jwt_cache above
    purge_outdated_refresh_tokens_by_user_id create_refresh_token_for_user_id Orm.create keep_young
login_test = refl

-- The third renewal is refused.
renewals_test : renewals token_repo test_deps "r1" (1001 ∷ 1002 ∷ 1003 ∷ 1004 ∷ []) one_session ≡ 2
unfolding renewals renew_login_by_refresh_token get_valid_refresh_token get_refresh_token
    renew_found renew_finish sign_jwt_token increase_refresh_token_attempts_used
    update_refresh_token_attempts exceeded delete_refresh_token_by_user_id
renewals_test = refl

renewals-le-remaining_example :
    renewals token_repo test_deps "r1" (1001 ∷ 1002 ∷ 1003 ∷ []) one_session ≤ 2
renewals-le-remaining_example =
    renewals-le-remaining test_deps "r1" 2 (1001 ∷ 1002 ∷ 1003 ∷ []) one_session refl
      ((λ _. refl), tt)

login-MaySign_example :
    (u : User) × (v : User) × (test_deps.find_raw_by_username "ann" ≡ some u)
    × (test_deps.compare_password_hash "secret" u.password_hash ≡ true)
    × MaySign test_deps u.id v
unfolding login_user start_session sign_jwt_token purge_outdated_blacklisted_jwt_cache above
    purge_outdated_refresh_tokens_by_user_id create_refresh_token_for_user_id Orm.create keep_young
login-MaySign_example =
    login-MaySign test_deps 1000 "r1" "ann" "secret" no_sessions
      {l = record { token = "ann"; refresh_token = "r1" }} refl

login-succeeds_example :
    let (r, st') = login_user token_repo test_deps 1000 "r1" "ann" "secret" no_sessions in
    (r ≡ ok (record { token = "ann"; refresh_token = "r1" }))
    × ((k : ℕ) × (find (has_token "r1") st'.token_table
          ≡ some (new_token test_deps.settings 1000 "r1" 3 k)))
login-succeeds_example =
    login-succeeds test_deps 1000 "r1" "ann" "secret" no_sessions {u = ann} ann refl refl
      (refl, refl, refl) refl

logout-IsBlacklisted_example :
    let (r, st') = logout_user_id token_repo test_deps 5000 3 (some "jwt") one_session in
    (r ≡ ok tt)
    × (is_jwt_token_blacklisted token_repo "jwt" st'
        ≡ some (record { user_id = 3; created_at = 5000 }))
    × (st'.token_table ≡ [])
logout-IsBlacklisted_example =
    logout-IsBlacklisted test_deps 5000 3 "jwt" one_session
      (λ e. ground (arith, str_eq_iff "jwt" "", e)) tt

blacklist_ends_early_example :
    (later : ℕ) × (later < 2000 + 3600 * 1000)
    × (is_jwt_token_blacklisted token_repo "jwt"
          (detached (purge_outdated_blacklisted_jwt_cache token_repo test_deps later) logged_out)
        ≡ none)
unfolding is_jwt_token_blacklisted lookup
blacklist_ends_early_example =
    blacklist_ends_early test_deps "jwt" 2000 (record { user_id = 3; created_at = 5000 }) logged_out
      (omega arith) ((λ _. refl), tt) refl

abbrev plain_request : Request
plain_request = record {
  user = some ann;
  authorization = some "Bearer jwt";
  is_authenticated = true;
}

authenticate_tests :
    (authenticate token_repo true plain_request no_sessions ≡ ok tt)
    × (authenticate token_repo true plain_request logged_out
        ≡ throw (authentication_error login_required))
unfolding authenticate is_jwt_token_blacklisted bearer_of lookup
authenticate_tests = (refl, refl)

authenticate_iff_example : (authenticate token_repo true plain_request logged_out ≡ ok tt) ↔ (
    (◌≡◌ {A = Bool} true false)
    ⊎ ((plain_request.is_authenticated ≡ true)
        × ((u : User) → plain_request.user ≡ some u → u.needs_password_change ≡ false)
        × ((jwt : String)
            → bearer_of plain_request.authorization ≡ some jwt
            → lookup jwt logged_out.blacklisted_jwt_cache ≡ none)))
authenticate_iff_example = authenticate_iff token_repo true plain_request logged_out
