-- ===== src/Auth/Renewal.antt =====
-- `renewLoginByRefreshToken` of src/services/authentication/auth.service.ts: how often one refresh
-- token serves.
use d_hub.Base.{
  ℕ, ◌+◌, ◌-◌, ◌≤◌, String, ◌≡◌, inl, inr, Bool, true, false, not, Option, none, some, List, [],
  ◌∷◌, arith, str_eq_iff, ltb, leb, if◌then◌else◌, Bool-cases, Option-cases, keep, find,
  any-keep-false, invalid_or_expired_refresh_token, Exception, authentication_error, Result, ok,
  throw, bind-eq_ok, bind-eq_throw, Result-cases,
}
use d_hub.Orm.{Repository}
use d_hub.Orm.Lists.{
  AtMostOne, find_holds, find-none, find-of_none, AtMostOne-keep, find-keep_found, find-rewritten,
  AtMostOne-rewritten,
}
use d_hub.Auth.{
  RefreshToken, has_token, of_user, get_refresh_token, update_refresh_token_attempts,
  delete_refresh_token_by_user_id, delete_refresh_token,
}
use d_hub.Auth.Service.{
  AuthDeps, AuthState, reason, sign_jwt_token, get_valid_refresh_token, exceeded,
  increase_refresh_token_attempts_used, renew_finish, renew_found, renew_login_by_refresh_token,
}

module _ {tokens : Repository RefreshToken} (deps : AuthDeps) (now : ℕ) (s : String)
    (st : AuthState tokens) where
  abbrev row : Option RefreshToken
  row = find (has_token s) (tokens.rows st.token_table)

  abbrev without_user : ℕ → AuthState tokens
  without_user k = record st { token_table = tokens.delete (of_user k) st.token_table }

  abbrev counted : ℕ → AuthState tokens
  counted n = record st {
    token_table =
        tokens.update (has_token s) (λ t. record t { refresh_attempts_used = n }) st.token_table;
  }

  valid_none :
      (flag : Bool)
      → row ≡ none
      → get_valid_refresh_token tokens deps now s flag st ≡ (
        if flag then throw (authentication_error invalid_or_expired_refresh_token) else ok none,
        st,
      )
  unfolding get_valid_refresh_token get_refresh_token
  valid_none flag e = ground (arith, tokens.find_one_by_lem (has_token s) st.token_table)

  valid_expired :
      (flag : Bool) {t : RefreshToken}
      → row ≡ some t
      → ltb t.expires_at now ≡ true
      → get_valid_refresh_token tokens deps now s flag st
        ≡ (throw (authentication_error invalid_or_expired_refresh_token), without_user t.user_id)
  unfolding get_valid_refresh_token get_refresh_token delete_refresh_token_by_user_id
  valid_expired flag {t} e x = ground (arith, tokens.find_one_by_lem (has_token s) st.token_table)

  valid_found :
      (flag : Bool) {t : RefreshToken}
      → row ≡ some t
      → ltb t.expires_at now ≡ false
      → get_valid_refresh_token tokens deps now s flag st ≡ (ok (some t), st)
  unfolding get_valid_refresh_token get_refresh_token
  valid_found flag {t} e x = ground (arith, tokens.find_one_by_lem (has_token s) st.token_table)

  increase_exceeded :
      {t : RefreshToken}
      → row ≡ some t
      → ltb t.expires_at now ≡ false
      → exceeded tokens deps t.refresh_attempts_used ≡ true
      → increase_refresh_token_attempts_used tokens deps now s st
        ≡ (throw (authentication_error invalid_or_expired_refresh_token), without_user t.user_id)
  unfolding increase_refresh_token_attempts_used delete_refresh_token_by_user_id
  increase_exceeded {t} e x l =
      ground (arith, valid_found true e x, tokens.find_one_by_lem (has_token s) st.token_table)

  increase_counted :
      {t : RefreshToken}
      → row ≡ some t
      → ltb t.expires_at now ≡ false
      → exceeded tokens deps t.refresh_attempts_used ≡ false
      → increase_refresh_token_attempts_used tokens deps now s st
        ≡ (ok tt, counted (t.refresh_attempts_used + 1))
  unfolding increase_refresh_token_attempts_used update_refresh_token_attempts
  increase_counted {t} e x l =
      ground (arith, valid_found true e x, tokens.find_one_by_lem (has_token s) st.token_table)

module _ {tokens : Repository RefreshToken} (deps : AuthDeps) where
  -- `signJwtToken` only reads.
  sign_eq :
      (k : ℕ) (st : AuthState tokens) {r : Result String}
      → (sign_jwt_token tokens deps k st).0 ≡ r
      → sign_jwt_token tokens deps k st ≡ (r, st)
  unfolding sign_jwt_token reason
  sign_eq k st {r} e = ground (arith, e)

abbrev refused : Exception
refused = authentication_error invalid_or_expired_refresh_token

abbrev success : {A : Type 0} → Result A → ℕ
success (ok a) = 1
success (throw e) = 0

-- The renewals that a token has left under the cap.
abbrev left_of : ℕ → Option RefreshToken → ℕ
left_of cap none = 0
left_of cap (some t) = cap - t.refresh_attempts_used

module _ {tokens : Repository RefreshToken} (deps : AuthDeps) (cap : ℕ) (s : String) where
  abbrev pub remaining : AuthState tokens → ℕ
  remaining st = left_of cap (find (has_token s) (tokens.rows st.token_table))

  abbrev pub IsUnique : AuthState tokens → Type 0
  IsUnique st = AtMostOne (has_token s) (tokens.rows st.token_table)

  -- The token is still unique, and a success has used up one of the renewals left.
  abbrev Spends : AuthState tokens → Result String × AuthState tokens → Type 0
  Spends st (r, st') = IsUnique st' × (success r + remaining st' ≤ remaining st)

  Spends-keep :
      (q : RefreshToken → Bool) (st st' : AuthState tokens) (e : Exception)
      → IsUnique st
      → tokens.rows st'.token_table ≡ keep q (tokens.rows st.token_table)
      → Spends st (throw e, st')
  Spends-keep q st st' e m r = (
    rw r (AtMostOne-keep (has_token s) q (tokens.rows st.token_table) m),
    elim (Option-cases (find (has_token s) (tokens.rows st.token_table))) [
      | inl f ↦
          rw
            (
              r,
              find-of_none (has_token s) (keep q (tokens.rows st.token_table)) (
                  any-keep-false (has_token s) q (tokens.rows st.token_table)
                    (find-none (has_token s) (tokens.rows st.token_table) f)),
            )
            (omega arith)
      | inr (t, f) ↦
          rw (r, find-keep_found (has_token s) q (tokens.rows st.token_table) m f, f) (ground arith)
    ],
  )

  Spends-counted :
      (st : AuthState tokens) {t : RefreshToken} (jwt : String)
      → IsUnique st
      → find (has_token s) (tokens.rows st.token_table) ≡ some t
      → leb cap t.refresh_attempts_used ≡ false
      → Spends st (ok jwt, counted deps 0 s st (t.refresh_attempts_used + 1))
  Spends-counted st {t} jwt m f l =
      let used =
        λ (r : RefreshToken). record r { refresh_attempts_used = t.refresh_attempts_used + 1 } in
      let rows = tokens.rows st.token_table in
      rw (tokens.rows-update (has_token s) used st.token_table) (
        AtMostOne-rewritten (has_token s) used rows m,
        rw (find-rewritten (has_token s) used rows f (find_holds (has_token s) rows f), f)
            (ground (arith, l)),
      )

  module _ (now : ℕ) (st : AuthState tokens) (c : deps.settings.refresh_token_attempts ≡ some cap)
      (m : IsUnique st) where
    -- A program that throws and leaves the state alone.
    kept : (e : Exception) → Spends st (throw e, st)
    kept e = (m, omega arith)

    module _ {t : RefreshToken} (f : find (has_token s) (tokens.rows st.token_table) ≡ some t)
        (x : ltb t.expires_at now ≡ false) where
      -- The token in the row is the one asked for.
      same : t.refresh_token ≡ s
      same =
          (str_eq_iff t.refresh_token s).0 (find_holds (has_token s) (tokens.rows st.token_table) f)

      finish-Spends : Spends st (renew_finish tokens deps now t st)
      unfolding renew_finish
      finish-Spends = elim (Result-cases (sign_jwt_token tokens deps t.user_id st).0) [
        | inr (e, n) ↦ rw (bind-eq_throw _ _ (sign_eq deps t.user_id st n)) (kept e)
        | inl (jwt, y) ↦
            rw (bind-eq_ok _ _ (sign_eq deps t.user_id st y), same)
              (elim (Bool-cases (exceeded tokens deps t.refresh_attempts_used)) [
                | inl l ↦ rw (bind-eq_throw _ _ (increase_exceeded deps now s st f x l)) (
                    Spends-keep (λ r. not (of_user t.user_id r)) st
                      (without_user deps now s st t.user_id) refused m
                      (tokens.rows-delete (of_user t.user_id) st.token_table))
                | inr l ↦
                    rw (bind-eq_ok _ _ (increase_counted deps now s st f x l))
                      (Spends-counted st jwt m f (unfold exceeded in ground (arith, l, c)))
              ])
      ]

      found-Spends : Spends st (renew_found tokens deps now s t st)
      unfolding renew_found delete_refresh_token
      found-Spends = elim (Result-cases (deps.get_user t.user_id)) [
        | inr (e, n) ↦ rw (n, renew_found) (kept e)
        | inl (o, y) ↦ elim (Option-cases o) [
          | inl z ↦
              rw (y, z, delete_refresh_token, reason)
                (Spends-keep (λ r. not (has_token s r)) st
                  (record st { token_table = tokens.delete (has_token s) st.token_table }) refused m
                  (tokens.rows-delete (has_token s) st.token_table))
          | inr (u, z) ↦ rw (y, z) finish-Spends
        ]
      ]

    -- One call of `renewLoginByRefreshToken`.
    renew-Spends : Spends st (renew_login_by_refresh_token tokens deps now s st)
    unfolding renew_login_by_refresh_token
    renew-Spends = elim (Option-cases (find (has_token s) (tokens.rows st.token_table))) [
      | inl f ↦ rw (bind-eq_ok _ _ (valid_none deps now s st false f)) (kept refused)
      | inr (t, f) ↦ elim (Bool-cases (ltb t.expires_at now)) [
        | inl x ↦ rw (bind-eq_throw _ _ (valid_expired deps now s st false f x)) (
            Spends-keep (λ r. not (of_user t.user_id r)) st (without_user deps now s st t.user_id)
              refused m (tokens.rows-delete (of_user t.user_id) st.token_table))
        | inr x ↦ rw (bind-eq_ok _ _ (valid_found deps now s st false f x)) (found-Spends f x)
      ]
    ]

-- Calls of `renewLoginByRefreshToken` with the same token, one at each time, and how many succeed.
unfoldable pub renewals :
    (tokens : Repository RefreshToken) → AuthDeps → String → List ℕ → AuthState tokens → ℕ
renewals tokens deps s [] st = 0
renewals tokens deps s (now ∷ times) st =
    let (r, st') = renew_login_by_refresh_token tokens deps now s st in
    success r + renewals tokens deps s times st'

module _ {tokens : Repository RefreshToken} (deps : AuthDeps) (s : String) where
  -- With a cap on the attempts, and a token that no two rows share, no series of calls renews the
  -- login by that token more often than the cap leaves, at whatever times they are made and however
  -- the other calls of the series end.
  pub renewals-le-remaining :
      (cap : ℕ) (times : List ℕ) (st : AuthState tokens)
      → deps.settings.refresh_token_attempts ≡ some cap
      → AtMostOne (has_token s) (tokens.rows st.token_table)
      → renewals tokens deps s times st ≤ remaining deps cap s st
  unfolding renewals
  renewals-le-remaining cap [] st c m = omega arith
  renewals-le-remaining cap (now ∷ times) st c m =
      let (m', le) = renew-Spends deps cap s now st c m in
      omega (
        arith,
        le,
        renewals-le-remaining cap times (renew_login_by_refresh_token tokens deps now s st).1 c m',
      )
