-- ===== src/SocketStore/Octoprint.antt =====
-- The adapters of src/services/octoprint/octoprint-websocket.adapter.ts as the store's, and
-- src/services/socket.factory.ts with the setting experimentalMoonrakerSupport off.
use d_hub.Base.{
  ℕ, ◌-◌, ◌*◌, String, ◌≡◌, Bool, true, false, not, ◌&&◌, ◌||◌, Option, none, some, [], arith, ltb,
  ◌==◌, if◌then◌else◌, error, Result, ok, throw,
}
use d_hub.SocketStore.{SocketAdapter}
use d_hub.Sockets.{
  unopened, ApiState, unset, Adapter, needs_reopen, needs_setup, needs_reauth, is_closed_or_aborted,
  emit_event, set_socket_state, set_api_state, reset_socket_state, disallow_emitting_events,
  register_credentials, open_socket, close,
}
use d_hub.Sockets.Session.{Answers, setup_socket_session, Wire, reauth_session}

-- `!lastMessageReceivedTimestamp`
abbrev no_message : Option ℕ → Bool
no_message none = true
no_message (some t) = t == 0

-- `null` counts as 0 in a difference.
abbrev message_time : Option ℕ → ℕ
message_time none = 0
message_time (some t) = t

abbrev is_unset : ApiState → Bool
is_unset unset = true
is_unset s = false

unfoldable pub is_silent : ℕ → Adapter → Bool
is_silent now a =
    (not (is_unset a.api_state) && no_message a.last_message)
    || ltb (10 * 1000) (now - message_time a.last_message)

-- The fields as the class sets them.
abbrev pub new_adapter : Adapter
new_adapter = record {
  socket = false;
  event_emitting_allowed = true;
  printer_id = none;
  socket_state = unopened;
  api_state = unset;
  state_updated = false;
  api_state_updated = false;
  last_message = none;
  reauth_required = false;
  login = none;
  socket_url = none;
  session_dto = none;
  username = none;
  refresh_interval = false;
  ws_calls = [];
  events = [];
}

unfoldable pub create_instance : ℕ → Result Adapter
create_instance printer_type = if printer_type == 0 then ok new_adapter else throw error

module _ (url_of : String → Result String) where
  pub needs_setup_lem : (a : Adapter) → needs_setup (reset_socket_state a) ≡ true
  unfolding needs_setup reset_socket_state set_socket_state set_api_state emit_event
  needs_setup_lem a = ground arith

  pub is_closed_or_aborted_lem : (a : Adapter) → is_closed_or_aborted (reset_socket_state a) ≡ false
  unfolding is_closed_or_aborted reset_socket_state set_socket_state set_api_state emit_event
  is_closed_or_aborted_lem a = ground arith

  abbrev pub octoprint_adapter : SocketAdapter
  octoprint_adapter = record {
    Adapter = Adapter;
    Env = Answers × Wire;
    printer_id = λ a. a.printer_id;
    is_octoprint = λ a. true;
    needs_reopen = needs_reopen;
    needs_setup = needs_setup;
    needs_reauth = needs_reauth;
    is_closed_or_aborted = is_closed_or_aborted;
    is_silent = is_silent;
    reauth_session = λ e. reauth_session e.0 e.1;
    setup_socket_session = λ e. setup_socket_session e.0;
    register_credentials = register_credentials url_of;
    open_socket = open_socket;
    close = close;
    reset_socket_state = reset_socket_state;
    disallow_emitting_events = disallow_emitting_events;
    needs_setup-reset = needs_setup_lem;
    is_closed_or_aborted-reset = is_closed_or_aborted_lem;
  }
