-- ===== src/Sockets/Setup.antt =====
-- How a set-up of a session ends, and what the reconnecting tasks make of it.
use d_hub.Base.{
  String, ◌≡◌, refl, ◌∙◌, ◌⊎◌, inl, inr, Bool, true, false, not, ◌&&◌, some, arith, str_eq,
  Exception, Result, ok, throw, ◌>>=◌, modify, Result-cases, ap, sym,
}
use d_hub.Sockets.{
  opening, aborted, OpLogin, Adapter, is_responding, needs_reopen, needs_setup, needs_reauth,
  is_closed_or_aborted, emit_event, set_socket_state, set_api_state, reset_socket_state,
}
use d_hub.Sockets.Session.{
  in_guests, check_login, catch_login, log_in, find_username, update_current_state_safely, Answers,
  setup_socket_session,
}

log_in_fails :
    (r : Result OpLogin) (a : Adapter) {e : Exception} {b : Adapter}
    → is_responding a.api_state ≡ false
    → log_in r a ≡ (throw e, b)
    → (b.socket_state ≡ aborted) × (is_responding b.api_state ≡ false)
unfolding log_in check_login catch_login set_socket_state set_api_state emit_event
log_in_fails (ok r) a n h = (ground (arith, n, h), ground (arith, n, h))
log_in_fails (throw e) a n h = (ground (arith, n, h), ground (arith, n, h))

log_in_succeeds :
    (r : Result OpLogin) (a : Adapter) {u : Unit} {b : Adapter}
    → log_in r a ≡ (ok u, b)
    → (d : OpLogin) × (r ≡ ok d) × (b.session_dto ≡ some d) × (b.socket_state ≡ opening)
unfolding log_in check_login catch_login set_socket_state set_api_state emit_event
log_in_succeeds (ok r) a h = (r, refl, ground (arith, h), ground (arith, h))
log_in_succeeds (throw e) a h = absurd (ground (arith, h))

find_username_fails :
    (r : Result String) (a : Adapter) {e : Exception} {b : Adapter}
    → find_username r a ≡ (throw e, b)
    → (b.socket_state ≡ aborted) × (is_responding b.api_state ≡ false)
unfolding find_username set_socket_state set_api_state emit_event
find_username_fails (ok r) a h = absurd (ground (arith, h))
find_username_fails (throw e) a h = (ground (arith, h), ground (arith, h))

reset_lem : (a : Adapter) → is_responding (reset_socket_state a).api_state ≡ false
unfolding reset_socket_state set_socket_state set_api_state emit_event
reset_lem a = ground arith

setup_cases :
    (s : Answers) (a : Adapter) {e : Exception} {b : Adapter}
    → setup_socket_session s a ≡ (throw e, b)
    → (log_in s.login_answer (reset_socket_state a) ≡ (throw e, b))
      ⊎ (find_username s.admin_user (log_in s.login_answer (reset_socket_state a)).1 ≡ (throw e, b))
unfolding setup_socket_session
setup_cases s a h = elim (Result-cases (log_in s.login_answer (reset_socket_state a)).0) [
  | inl (u, p) ↦
      elim (Result-cases
        (find_username s.admin_user (log_in s.login_answer (reset_socket_state a)).1).0) [
          | inl (v, q) ↦ absurd (ground (arith, h, p, q))
          | inr (x, q) ↦ inr (ground (arith, h, p, q))
        ]
  | inr (x, p) ↦ inl (ground (arith, h, p))
]

log_in_reauth :
    (r : Result OpLogin) (a : Adapter) → (log_in r a).1.reauth_required ≡ a.reauth_required
unfolding log_in check_login catch_login set_socket_state set_api_state emit_event
log_in_reauth (ok r) a = ground arith
log_in_reauth (throw e) a = ground arith

find_username_reauth :
    (r : Result String) (a : Adapter) → (find_username r a).1.reauth_required ≡ a.reauth_required
unfolding find_username set_socket_state set_api_state emit_event
find_username_reauth (ok r) a = ground arith
find_username_reauth (throw e) a = ground arith

reset_reauth : (a : Adapter) → (reset_socket_state a).reauth_required ≡ a.reauth_required
unfolding reset_socket_state set_socket_state set_api_state emit_event
reset_reauth a = ground arith

-- A set-up that throws leaves an adapter that needs neither a set-up nor to be reopened, and that is
-- closed or aborted, by the tests of the tasks that reconnect and that restore; whether it needs a new
-- login, by the first test of the task that reconnects, is as before.
pub setup_fails-aborted :
    (s : Answers) (a : Adapter) {e : Exception} {b : Adapter}
    → setup_socket_session s a ≡ (throw e, b)
    → (needs_setup b ≡ false)
      × (needs_reopen b ≡ false)
      × (is_closed_or_aborted b ≡ true)
      × (needs_reauth b ≡ needs_reauth a)
unfolding needs_setup needs_reopen is_closed_or_aborted
setup_fails-aborted s a {e} {b} h =
    let c = reset_socket_state a in
    elim (setup_cases s a h) [
      | inl p ↦
          let (x, y) = log_in_fails s.login_answer c (reset_lem a) p in
          (
            ground (arith, x),
            ground (arith, x, y),
            ground (arith, x),
            ap (λ z. z.1.reauth_required) (sym p) ∙ log_in_reauth s.login_answer c ∙ reset_reauth a,
          )
      | inr p ↦
          let d = (log_in s.login_answer c).1 in
          let (x, y) = find_username_fails s.admin_user d p in
          (
            ground (arith, x),
            ground (arith, x, y),
            ground (arith, x),
            ap (λ z. z.1.reauth_required) (sym p)
                ∙ find_username_reauth s.admin_user d
                ∙ log_in_reauth s.login_answer c
                ∙ reset_reauth a,
          )
    ]

abbrev pub returned : {A : Type 0} → Result A → Bool
returned (ok a) = true
returned (throw e) = false

abbrev pub is_user : Result OpLogin → Bool
is_user (throw e) = false
is_user (ok r) = not (str_eq r.name "_api") && not (in_guests r.groups)

log_in-returned : (r : Result OpLogin) (a : Adapter) → returned (log_in r a).0 ≡ is_user r
unfolding log_in check_login catch_login
log_in-returned (ok r) a = ground arith
log_in-returned (throw e) a = ground arith

find_username-returned :
    (r : Result String) (a : Adapter) → returned (find_username r a).0 ≡ returned r
unfolding find_username
find_username-returned (ok r) a = refl
find_username-returned (throw e) a = refl

-- A set-up returns exactly if the login is answered with a user that is neither the global key's nor in
-- the group of guests, and the name of the administrator is found; the request for the current state
-- may fail.
pub setup_returned :
    (s : Answers) (a : Adapter)
    → returned (setup_socket_session s a).0 ≡ (is_user s.login_answer && returned s.admin_user)
unfolding setup_socket_session
setup_returned s a =
    let n = (log_in s.login_answer (reset_socket_state a)).1 in
    ground (
      arith,
      log_in-returned s.login_answer (reset_socket_state a),
      find_username-returned s.admin_user n,
    )

finished :
    (s : Answers) (n : Adapter) {b : Adapter}
    → (find_username s.admin_user >>= λ u.
          modify (update_current_state_safely s.current_answer) >>= λ v.
          modify (λ a. record a { refresh_interval = true }))
        n
      ≡ (ok tt, b)
    → (b.session_dto ≡ n.session_dto)
      × (b.socket_state ≡ n.socket_state)
      × (b.refresh_interval ≡ true)
unfolding find_username update_current_state_safely set_socket_state set_api_state emit_event
finished s n h = elim (Result-cases s.admin_user) [
  | inl (name, p) ↦ (ground (arith, h, p), ground (arith, h, p), ground (arith, h, p))
  | inr (x, p) ↦ absurd (ground (arith, h, p))
]

-- A set-up that returns leaves the socket to be opened, with the session of the login, and the loop
-- that asks for the current state is running.
pub setup_succeeds :
    (s : Answers) (a : Adapter) {b : Adapter}
    → setup_socket_session s a ≡ (ok tt, b)
    → (d : OpLogin) × (s.login_answer ≡ ok d)
      × (b.session_dto ≡ some d)
      × (b.socket_state ≡ opening)
      × (b.refresh_interval ≡ true)
unfolding setup_socket_session
setup_succeeds s a {b} h = elim (Result-cases (log_in s.login_answer (reset_socket_state a)).0) [
  | inl (u, p) ↦
      let n = (log_in s.login_answer (reset_socket_state a)).1 in
      let (d, e, f, g) =
        log_in_succeeds s.login_answer (reset_socket_state a) {u = u} {b = n} (ground (arith, p)) in
      let (x, y, z) = finished s n {b = b} (ground (arith, h, p)) in (d, e, x ∙ f, y ∙ g, z)
  | inr (x, p) ↦ absurd (ground (arith, h, p))
]
