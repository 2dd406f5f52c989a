-- ===== src/Auth/Blacklist.antt =====
-- `blacklistedJwtCache` of src/services/authentication/auth.service.ts, by which a logout is to end
-- the use of a token that is still valid.
use d_hub.Base.{
  ℕ, ◌+◌, ◌-◌, ◌*◌, ◌<◌, String, ◌≡◌, refl, ◌∙◌, ◌≢◌, inl, inr, Bool, false, not, ◌||◌, none, some,
  [], ◌∷◌, arith, str_eq, str_eq_iff, str_eq_refl, ltb, if◌then◌else◌, Bool-cases, keep, any, ok,
  detached,
}
use d_hub.Base.Dict.{Dict, lookup, insert, lookup-insert}
use d_hub.Orm.{Repository}
use d_hub.Orm.Lists.{AtMostOne}
use d_hub.Auth.{RefreshToken, CredentialSettings, of_user, delete_refresh_token_by_user_id}
use d_hub.Auth.Service.{
  Blacklisted, AuthDeps, keep_young, AuthState, is_jwt_token_blacklisted,
  purge_outdated_blacklisted_jwt_cache, logout_user_id,
}

-- A dictionary has one entry under a text.
abbrev pub at_key : String → String × Blacklisted → Bool
at_key s (j, b) = str_eq j s

lookup-none : (s : String) (m : Dict Blacklisted) → any (at_key s) m ≡ false → lookup s m ≡ none
unfolding lookup
lookup-none s [] h = refl
lookup-none s ((j, b) ∷ m) h = ground (arith, lookup-none s m)

module _ (settings : CredentialSettings) (now : ℕ) where
  any-keep_young :
      (s : String) (m : Dict Blacklisted)
      → any (at_key s) m ≡ false
      → any (at_key s) (keep_young settings now m) ≡ false
  unfolding keep_young
  any-keep_young s [] h = refl
  any-keep_young s ((j, b) ∷ m) h = ground (arith, any-keep_young s m)

  lookup-keep_young :
      (s : String) (m : Dict Blacklisted) {b : Blacklisted}
      → AtMostOne (at_key s) m
      → lookup s m ≡ some b
      → lookup s (keep_young settings now m)
        ≡ (if ltb settings.jwt_expires_in (now - b.created_at) then none else some b)
  unfolding keep_young lookup
  lookup-keep_young s [] u h = cc
  lookup-keep_young s ((j, b') ∷ m) {b} u h = ground (
    arith,
    lookup-keep_young s m {b = b} u.1,
    u.0,
    any-keep_young s m,
    lookup-none s (keep_young settings now m),
  )

any-insert :
    (s : String) (b : Blacklisted) (k : String) (m : Dict Blacklisted)
    → any (at_key k) (insert s b m) ≡ (str_eq s k || any (at_key k) m)
unfolding insert
any-insert s b k [] = refl
any-insert s b k ((j, w) ∷ m) = ground (arith, any-insert s b k m, str_eq_iff j s)

AtMostOne-insert :
    (s : String) (b : Blacklisted) (k : String) (m : Dict Blacklisted)
    → AtMostOne (at_key k) m
    → AtMostOne (at_key k) (insert s b m)
unfolding insert
AtMostOne-insert s b k [] u = (λ _. refl, tt)
AtMostOne-insert s b k ((j, w) ∷ m) u = elim (Bool-cases (str_eq j s)) [
  | inl e ↦ rw e (λ h. u.0 (ground (arith, h, e, str_eq_iff j s)), u.1)
  | inr e ↦ rw e (
    λ h.
        ground
          (arith, any-insert s b k m, u.0 h, h, e, str_eq_iff j s, str_eq_iff s k, str_eq_iff j k),
    AtMostOne-insert s b k m u.1,
  )
]

module _ {tokens : Repository RefreshToken} (deps : AuthDeps) where
  -- After a logout with a token that is not empty, the token is blacklisted, for that user from that
  -- time on, and no refresh token of the user is left.
  pub logout-IsBlacklisted :
      (now k : ℕ) (jwt : String) (st : AuthState tokens)
      → jwt ≢ ""
      → AtMostOne (at_key jwt) st.blacklisted_jwt_cache
      → let (r, st') = logout_user_id tokens deps now k (some jwt) st in
        (r ≡ ok tt)
        × (is_jwt_token_blacklisted tokens jwt st'
            ≡ some (record { user_id = k; created_at = now }))
        × (tokens.rows st'.token_table ≡ keep (λ t. not (of_user k t)) (tokens.rows st.token_table))
  unfolding logout_user_id is_jwt_token_blacklisted delete_refresh_token_by_user_id
  logout-IsBlacklisted now k jwt st ne u =
      let b : Blacklisted = record { user_id = k; created_at = now } in
      let fresh : str_eq jwt "" ≡ false = ground (arith, str_eq_iff jwt "") in
      let added : lookup jwt (insert jwt b st.blacklisted_jwt_cache) ≡ some b =
        ground (arith, lookup-insert jwt jwt b st.blacklisted_jwt_cache, str_eq_refl jwt) in
      rw fresh (
        refl,
        lookup-keep_young deps.settings now jwt (insert jwt b st.blacklisted_jwt_cache)
              (AtMostOne-insert jwt b jwt st.blacklisted_jwt_cache u) added
            ∙ ground arith,
        tokens.rows-delete (of_user k) st.token_table,
      )

  -- `jwtExpiresIn` is in seconds for the signature, and read as milliseconds by the purge. So take a
  -- token that was issued at `issued` and blacklisted while it had more than a thousandth of its life
  -- left: at some time it is still valid, and no longer blacklisted after a purge, as each login
  -- makes one.
  pub blacklist_ends_early :
      (jwt : String) (issued : ℕ) (b : Blacklisted) (st : AuthState tokens)
      → b.created_at + deps.settings.jwt_expires_in + 1
        < issued + deps.settings.jwt_expires_in * 1000
      → AtMostOne (at_key jwt) st.blacklisted_jwt_cache
      → is_jwt_token_blacklisted tokens jwt st ≡ some b
      → (later : ℕ) × (later < issued + deps.settings.jwt_expires_in * 1000)
        × (is_jwt_token_blacklisted tokens jwt
              (detached (purge_outdated_blacklisted_jwt_cache tokens deps later) st)
            ≡ none)
  unfolding purge_outdated_blacklisted_jwt_cache is_jwt_token_blacklisted
  blacklist_ends_early jwt issued b st pos u e = (
    b.created_at + deps.settings.jwt_expires_in + 1,
    pos,
    lookup-keep_young deps.settings (b.created_at + deps.settings.jwt_expires_in + 1) jwt
          st.blacklisted_jwt_cache u e
        ∙ ground arith,
  )
