-- ===== src/Sockets/Session.antt =====
-- src/services/octoprint/octoprint-websocket.adapter.ts: the set-up of a session, and the handlers of
-- the socket's events. Each runs without another operation of the same adapter between its awaits.
use d_hub.Base.{
  ℕ, String, Bool, true, false, not, ◌||◌, Option, none, some, List, [], ◌∷◌, str_eq, ◌==◌,
  if◌then◌else◌, Exception, type_error, external_service_error, axios_error, Result, ok, throw,
  Prog, ◌>>◌, modify,
}
use d_hub.Sockets.{
  opening, authenticating, opened, authenticated, aborted, error_state, closed, no_response,
  global_key, auth_fail, responding, WsCall, send_auth_message, send_throttle_message, Payload,
  json, current_payload, usb_disconnected, missing, OpLogin, Adapter, is_socket_state, emit_event,
  calling_ws, set_socket_state, set_api_state, reset_socket_state, set_reauth_required,
  reset_reauth_required,
}

-- The guests group in the answer to a login.
abbrev pub in_guests : List String → Bool
in_guests [] = false
in_guests (g ∷ gs) = str_eq g "guests"

-- The answer to the login, with the checks for a global key and for guests.
unfoldable pub check_login : Result OpLogin → Prog Adapter OpLogin
unfolding set_socket_state set_api_state
check_login (throw e) a = (throw e, a)
check_login (ok r) a =
    if str_eq r.name "_api"
    then (
      throw (external_service_error none),
      set_socket_state aborted (set_api_state global_key a),
    )
    else if in_guests r.groups
    then (throw (external_service_error none), set_socket_state aborted (set_api_state auth_fail a))
    else (ok r, set_socket_state opening (set_api_state responding a))

abbrev pub is_external : Exception → Bool
is_external (external_service_error status) = true
is_external e = false

-- `e?.response?.status === 403`
abbrev pub is_forbidden : Exception → Bool
is_forbidden (axios_error (some status)) = status == 403
is_forbidden e = false

-- The `catch` after it: every exception is thrown on.
unfoldable pub catch_login : Exception → Prog Adapter OpLogin
unfolding set_socket_state set_api_state
catch_login e a =
    let b = set_socket_state aborted a in
    if is_external e
    then (throw e, b)
    else if is_forbidden e
    then (throw (external_service_error none), set_socket_state aborted (set_api_state auth_fail b))
    else (throw e, set_api_state no_response b)

unfoldable pub log_in : Result OpLogin → Prog Adapter (Unit {0})
unfolding check_login catch_login
log_in answer a =
    let (r, b) = check_login answer a in
    let (s, c) : Result OpLogin × Adapter = elim r [
      | ok d ↦ (ok d, b)
      | throw e ↦ catch_login e b
    ] in
    elim s [ ok d ↦ (ok tt, record c { session_dto = some d }) | throw e ↦ (throw e, c) ]

unfoldable pub find_username : Result String → Prog Adapter (Unit {0})
unfolding set_socket_state set_api_state
find_username (ok name) a = (ok tt, record a { username = some name })
find_username (throw e) a = (throw e, set_socket_state aborted (set_api_state auth_fail a))

-- The answers to the two requests of `updateCurrentStateSafely`.
pub record Current : Type 0 where
  pub current : Result String
  pub is_operational : Bool
  pub job : Result String

-- What goes into the event, or what is thrown on the way to it.
abbrev pub current_result : Current → Result (String × Option String)
current_result c = elim c.current [
  | throw e ↦ throw e
  | ok text ↦
      if c.is_operational
      then elim c.job [ throw e ↦ throw e | ok j ↦ ok (text, some j) ]
      else ok (text, none)
]

abbrev pub is_conflict : Exception → Bool
is_conflict (axios_error (some status)) = status == 409
is_conflict e = false

unfoldable pub update_current_state_safely : Current → Adapter → Adapter
unfolding set_api_state emit_event
update_current_state_safely c a = elim (current_result c) [
  | ok (text, job) ↦ emit_event "current" (current_payload text job) (set_api_state responding a)
  | throw e ↦
      if is_conflict e then emit_event "current" usb_disconnected a else set_api_state no_response a
]

-- All that the OctoPrint server answers during a set-up.
pub record Answers : Type 0 where
  pub login_answer : Result OpLogin
  pub admin_user : Result String
  pub current_answer : Current

unfoldable pub setup_socket_session : Answers → Prog Adapter (Unit {0})
unfolding reset_socket_state log_in find_username update_current_state_safely
setup_socket_session answers = do
  modify reset_socket_state
  log_in answers.login_answer
  find_username answers.admin_user
  modify (update_current_state_safely answers.current_answer)
  modify (λ a. record a { refresh_interval = true })

-- `sendMessage`: whether the socket is open, and the outcome of sending, are the socket's.
pub record Wire : Type 0 where
  pub is_opened : Bool
  pub sent : Result (Unit {0})

unfoldable pub send_message : Wire → WsCall → Prog Adapter (Unit {0})
send_message wire c a =
    if not wire.is_opened || not a.socket then (ok tt, a) else (wire.sent, calling_ws c a)

unfoldable pub send_auth : Wire → Prog Adapter (Unit {0})
unfolding set_socket_state send_message
send_auth wire a =
    let b = set_socket_state authenticating a in
    elim b.session_dto [
      | none ↦ (throw type_error, b)
      | some dto ↦ send_message wire (send_auth_message b.username dto.session) b
    ]

unfoldable pub send_throttle : Wire → ℕ → Prog Adapter (Unit {0})
unfolding send_message
send_throttle wire rate = send_message wire (send_throttle_message rate)

unfoldable pub reauth_session : Answers → Wire → Prog Adapter (Unit {0})
unfolding setup_socket_session send_auth
reauth_session answers wire = do
  setup_socket_session answers
  send_auth wire
  modify reset_reauth_required

unfoldable pub after_opened : Wire → Prog Adapter (Unit {0})
unfolding set_socket_state send_auth send_throttle
after_opened wire = do modify (set_socket_state opened); send_auth wire; send_throttle wire 1

-- The message is what `JSON.parse` makes of the text: its first key with the value, if it has one. The
-- file that is written for debugging is left out.
unfoldable pub on_message : ℕ → Result (Option (String × Payload)) → Prog Adapter (Unit {0})
unfolding set_socket_state emit_event
on_message now message a =
    let b = record a { last_message = some now } in
    let c =
      if is_socket_state authenticated b.socket_state
      then b
      else set_socket_state authenticated b in
    elim message [
      | throw e ↦ (throw e, c)
      | ok none ↦ (ok tt, emit_event "undefined" missing c)
      | ok (some (name, payload)) ↦ (
        ok tt,
        emit_event name payload (if str_eq name "reauthRequired" then set_reauth_required c else c),
      )
    ]

unfoldable pub after_closed : Adapter → Adapter
unfolding set_socket_state emit_event
after_closed a =
    emit_event "WS_CLOSED" (json "connection closed")
      (record (set_socket_state closed a) { socket = false })

unfoldable pub on_error : Payload → Adapter → Adapter
unfolding set_socket_state emit_event
on_error payload a = emit_event "WS_ERROR" payload (set_socket_state error_state a)
