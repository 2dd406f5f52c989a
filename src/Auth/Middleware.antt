-- ===== src/Auth/Middleware.antt =====
-- src/middleware/authenticate.ts: `authenticate`. A middleware that calls `next()` returns.
use Prim.Native.String
use text.Mathlib.Text.{find?}
use d_hub.Base.{
  ℕ, ◌+◌, String, ◌≡◌, ◌↔◌, ◌⊎◌, inl, inr, Bool, true, false, not, Option, none, some, arith,
  str_eq, if◌then◌else◌, Bool-cases, Option-cases, is_some, invalid_or_expired_auth_token,
  password_change_required, login_required, authentication_error, Result, ok, throw,
}
use d_hub.Base.Dict.{lookup}
use d_hub.Orm.{Repository}
use d_hub.Auth.{RefreshToken, User}
use d_hub.Auth.Service.{AuthState, is_jwt_token_blacklisted}

-- `authorization?.replace("Bearer ", "") || undefined`: the first occurrence is cut out, and an empty
-- rest is no token.
cut_bearer : String → Option ℕ → String
cut_bearer h none = h
cut_bearer h (some i) = String.◌++◌ (String.slice h 0 i) (String.slice h (i + 7) (String.len h))

unfoldable pub bearer_of : Option String → Option String
unfolding cut_bearer
bearer_of none = none
bearer_of (some header) =
    let s = cut_bearer header (find? header "Bearer ") in if str_eq s "" then none else some s

-- What the handler reads of a request: `req.user`, the header, and passport's `isAuthenticated()`.
pub record Request : Type 0 where
  pub user : Option User
  pub authorization : Option String
  pub is_authenticated : Bool

module _ (tokens : Repository RefreshToken) where
  is_blacklisted : AuthState tokens → Option String → Bool
  is_blacklisted st none = false
  is_blacklisted st (some jwt) = is_some (is_jwt_token_blacklisted tokens jwt st)

  abbrev must_change : Option User → Bool
  must_change none = false
  must_change (some u) = u.needs_password_change

  unfoldable pub authenticate : Bool → Request → AuthState tokens → Result (Unit {0})
  unfolding is_blacklisted
  authenticate required req st =
      if not required
      then ok tt
      else if must_change req.user
      then throw (authentication_error password_change_required)
      else if is_blacklisted st (bearer_of req.authorization)
      then throw (authentication_error login_required)
      else if req.is_authenticated
      then ok tt
      else throw (authentication_error invalid_or_expired_auth_token)

  -- The request is let through exactly if no login is required, or the user is authenticated, has no
  -- password to change, and comes with no token or with one that is not blacklisted.
  pub authenticate_iff :
      (required : Bool) (req : Request) (st : AuthState tokens)
      → (authenticate required req st ≡ ok tt) ↔ (
          (required ≡ false)
          ⊎ ((req.is_authenticated ≡ true)
              × ((u : User) → req.user ≡ some u → u.needs_password_change ≡ false)
              × ((jwt : String)
                  → bearer_of req.authorization ≡ some jwt
                  → lookup jwt st.blacklisted_jwt_cache ≡ none)))
  unfolding authenticate is_jwt_token_blacklisted
  authenticate_iff required req st = (
    λ h. elim (Bool-cases required) [
      | inr r ↦ inl r
      | inl r ↦ inr (ground arith, λ u e. ground (arith, e), λ jwt e. ground (arith, e, h))
    ],
    λ c. elim c [
      | inl r ↦ ground (arith, r)
      | inr (a, b, l) ↦ elim (Option-cases req.user) [
        | inl n ↦ not_listed (rw n) a l
        | inr (u, n) ↦ not_listed (rw n (b u n)) a l
      ]
    ],
  )
    where
      not_listed :
          must_change req.user ≡ false
          → req.is_authenticated ≡ true
          → ((jwt : String)
              → bearer_of req.authorization ≡ some jwt
              → lookup jwt st.blacklisted_jwt_cache ≡ none)
          → authenticate required req st ≡ ok tt
      not_listed n a l = elim (Option-cases (bearer_of req.authorization)) [
        | inl w ↦ ground (arith, n, a, w)
        | inr (jwt, w) ↦ ground (arith, n, a, w, l jwt w)
      ]
