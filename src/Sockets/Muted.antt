-- ===== src/Sockets/Muted.antt =====
-- An adapter that is not allowed to emit events, as after its printer is deleted.
use d_hub.Base.{
  ℕ, String, ◌≡◌, refl, inl, inr, true, false, Option, List, [], ◌∷◌, arith, Result, ok, throw,
  Prog, ◌>>=◌, ◌>>◌, modify, Result-cases,
}
use d_hub.Sockets.{
  SocketState, unopened, opened, ApiState, unset, Payload, Event, OpLogin, Adapter, emit_event,
  set_socket_state, set_api_state, reset_socket_state, reset_reauth_required,
  disallow_emitting_events, open_socket, close,
}
use d_hub.Sockets.Session.{
  check_login, catch_login, log_in, find_username, Current, update_current_state_safely, Answers,
  setup_socket_session, Wire, send_message, send_auth, send_throttle, reauth_session, after_opened,
  on_message, after_closed, on_error,
}

-- What can happen to an adapter, in any order.
pub data Op : Type 0 where
  setup : Answers → Op
  reauth : Answers → Wire → Op
  refresh : Current → Op
  reset open_op close_op closed_event : Op
  opened_event : Wire → Op
  message_event : ℕ → Result (Option (String × Payload)) → Op
  error_event : Payload → Op

unfoldable pub run_op : Op → Adapter → Adapter
unfolding setup_socket_session reauth_session update_current_state_safely reset_socket_state
    open_socket close after_opened on_message after_closed on_error
run_op (setup s) a = (setup_socket_session s a).1
run_op (reauth s w) a = (reauth_session s w a).1
run_op (refresh c) a = update_current_state_safely c a
run_op reset a = reset_socket_state a
run_op open_op a = (open_socket a).1
run_op close_op a = close a
run_op (opened_event w) a = (after_opened w a).1
run_op (message_event now m) a = (on_message now m a).1
run_op closed_event a = after_closed a
run_op (error_event p) a = on_error p a

unfoldable pub run_ops : List Op → Adapter → Adapter
unfolding run_op
run_ops [] a = a
run_ops (op ∷ ops) a = run_ops ops (run_op op a)

Muted : List Event → Adapter → Type 0
Muted evs a = (a.event_emitting_allowed ≡ false) × (a.events ≡ evs)

module _ (evs : List Event) where
  set_socket_state-Muted :
      (s : SocketState) (a : Adapter) → Muted evs a → Muted evs (set_socket_state s a)
  unfolding Muted set_socket_state emit_event
  set_socket_state-Muted s a m = (ground (arith, m), ground (arith, m))

  set_api_state-Muted : (s : ApiState) (a : Adapter) → Muted evs a → Muted evs (set_api_state s a)
  unfolding Muted set_api_state emit_event
  set_api_state-Muted s a m = (ground (arith, m), ground (arith, m))

  emit_event-Muted :
      (n : String) (p : Payload) (a : Adapter) → Muted evs a → Muted evs (emit_event n p a)
  unfolding Muted emit_event
  emit_event-Muted n p a m = (ground (arith, m), ground (arith, m))

  refresh-Muted :
      (c : Current) (a : Adapter) → Muted evs a → Muted evs (update_current_state_safely c a)
  unfolding Muted update_current_state_safely set_api_state emit_event
  refresh-Muted c a m = (ground (arith, m), ground (arith, m))

  log_in-Muted : (r : Result OpLogin) (a : Adapter) → Muted evs a → Muted evs (log_in r a).1
  unfolding Muted log_in check_login catch_login set_socket_state set_api_state emit_event
  log_in-Muted (ok r) a m = (ground (arith, m), ground (arith, m))
  log_in-Muted (throw e) a m = (ground (arith, m), ground (arith, m))

  find_username-Muted :
      (r : Result String) (a : Adapter) → Muted evs a → Muted evs (find_username r a).1
  unfolding Muted find_username set_socket_state set_api_state emit_event
  find_username-Muted (ok r) a m = m
  find_username-Muted (throw e) a m = (ground (arith, m), ground (arith, m))

  bind-Muted :
      {A B : Type 0} (p : Prog Adapter A) (f : A → Prog Adapter B) (a : Adapter)
      → ((b : Adapter) → Muted evs b → Muted evs (p b).1)
      → ((x : A) (b : Adapter) → Muted evs b → Muted evs (f x b).1)
      → Muted evs a
      → Muted evs ((p >>= f) a).1
  unfolding Muted
  bind-Muted p f a h g m = elim (Result-cases (p a).0) [
    | inl (x, e) ↦ let (u, v) = g x (p a).1 (h a m) in (ground (arith, e, u), ground (arith, e, v))
    | inr (x, e) ↦ let (u, v) = h a m in (ground (arith, e, u), ground (arith, e, v))
  ]

  reset-Muted : (a : Adapter) → Muted evs a → Muted evs (reset_socket_state a)
  unfolding reset_socket_state
  reset-Muted a m =
      set_api_state-Muted unset (set_socket_state unopened a) (set_socket_state-Muted unopened a m)

  setup-Muted : (s : Answers) (a : Adapter) → Muted evs a → Muted evs (setup_socket_session s a).1
  unfolding setup_socket_session Muted
  setup-Muted s a m =
      bind-Muted (modify reset_socket_state)
        (λ u.
          log_in s.login_answer
          >> (find_username s.admin_user
              >> (modify (update_current_state_safely s.current_answer)
                  >> modify (λ a. record a { refresh_interval = true }))))
        a (λ b. reset-Muted b)
        (λ u b.
          bind-Muted (log_in s.login_answer)
            (λ v.
              find_username s.admin_user
              >> (modify (update_current_state_safely s.current_answer)
                  >> modify (λ a. record a { refresh_interval = true })))
            b (λ c. log_in-Muted s.login_answer c)
            (λ u c.
              bind-Muted (find_username s.admin_user)
                (λ v.
                  modify (update_current_state_safely s.current_answer)
                  >> modify (λ a. record a { refresh_interval = true }))
                c (λ d. find_username-Muted s.admin_user d)
                (λ u d. refresh-Muted s.current_answer d)))
        m

  send_auth-Muted : (w : Wire) (a : Adapter) → Muted evs a → Muted evs (send_auth w a).1
  unfolding Muted send_auth send_message set_socket_state emit_event
  send_auth-Muted w a m = (ground (arith, m), ground (arith, m))

  send_throttle-Muted :
      (w : Wire) (k : ℕ) (a : Adapter) → Muted evs a → Muted evs (send_throttle w k a).1
  unfolding Muted send_throttle send_message
  send_throttle-Muted w k a m = (ground (arith, m), ground (arith, m))

  run_op-Muted : (op : Op) (a : Adapter) → Muted evs a → Muted evs (run_op op a)
  unfolding Muted run_op reauth_session after_opened open_socket close on_message after_closed
      on_error emit_event set_socket_state
  run_op-Muted (setup s) a m = setup-Muted s a m
  run_op-Muted (reauth s w) a m =
      bind-Muted (setup_socket_session s) (λ u. send_auth w >> modify reset_reauth_required) a
        (setup-Muted s)
        (λ u b.
          bind-Muted (send_auth w) (λ u. modify reset_reauth_required) b (send_auth-Muted w)
            (λ u c n. n))
        m
  run_op-Muted (refresh c) a m = refresh-Muted c a m
  run_op-Muted reset a m = reset-Muted a m
  run_op-Muted open_op a m = (ground (arith, m), ground (arith, m))
  run_op-Muted close_op a m = (ground (arith, m), ground (arith, m))
  run_op-Muted (opened_event w) a m =
      bind-Muted (modify (set_socket_state opened)) (λ u. send_auth w >> send_throttle w 1) a
        (set_socket_state-Muted opened)
        (λ u b.
          bind-Muted (send_auth w) (λ u. send_throttle w 1) b (send_auth-Muted w)
            (λ u c. send_throttle-Muted w 1 c))
        m
  run_op-Muted (message_event now r) a m = (ground (arith, m), ground (arith, m))
  run_op-Muted closed_event a m = (ground (arith, m), ground (arith, m))
  run_op-Muted (error_event p) a m = (ground (arith, m), ground (arith, m))

  run_ops-Muted : (ops : List Op) (a : Adapter) → Muted evs a → Muted evs (run_ops ops a)
  unfolding run_ops
  run_ops-Muted [] a m = m
  run_ops-Muted (op ∷ ops) a m = run_ops-Muted ops (run_op op a) (run_op-Muted op a m)

-- An adapter that is not allowed to emit events emits none, whatever is called of it and whatever its
-- socket reports.
pub muted_emits_nothing :
    (ops : List Op) (a : Adapter) → (run_ops ops (disallow_emitting_events a)).events ≡ a.events
unfolding Muted
muted_emits_nothing ops a = (run_ops-Muted a.events ops (disallow_emitting_events a) (refl, refl)).1
