-- ===== src/Sockets.antt =====
-- src/shared/websocket.adapter.ts and src/services/octoprint/octoprint-websocket.adapter.ts: the
-- connection to one printer. The socket of the package ws is not part of the program: the calls made
-- of it are recorded, and what it answers is an argument. The OctoPrint server's answers are arguments
-- too. Left out are the timestamps that nothing reads.
pub mod Session
pub mod Setup
pub mod Muted
use d_hub.Base.{
  ℕ, String, Bool, true, false, not, ◌&&◌, ◌||◌, Option, none, some, List, [], ◌∷◌, ◌++◌,
  if◌then◌else◌, error, Result, ok, throw, Prog,
}

pub data SocketState : Type 0 where
  unopened opening authenticating opened authenticated aborted error_state closed : SocketState

pub data ApiState : Type 0 where
  unset no_response global_key auth_fail responding : ApiState

-- What is said to the socket.
pub data WsCall : Type 0 where
  new_web_socket : String → WsCall
  close_web_socket : WsCall
  send_auth_message : Option String → String → WsCall
  send_throttle_message : ℕ → WsCall

pub data Payload : Type 0 where
  socket_state_payload : SocketState → Payload
  api_state_payload : ApiState → Payload
  json : String → Payload
  current_payload : String → Option String → Payload
  usb_disconnected : Payload
  missing : Payload

pub record Event : Type 0 where
  pub event : String
  pub payload : Payload
  pub printer_id : Option String

pub record OpLogin : Type 0 where
  pub name : String
  pub groups : List String
  pub session : String

pub record LoginDto : Type 0 where
  pub api_key : String
  pub printer_url : String

pub record Adapter : Type 0 where
  pub socket : Bool
  pub event_emitting_allowed : Bool
  pub printer_id : Option String
  pub socket_state : SocketState
  pub api_state : ApiState
  pub state_updated : Bool
  pub api_state_updated : Bool
  pub last_message : Option ℕ
  pub reauth_required : Bool
  pub login : Option LoginDto
  pub socket_url : Option String
  pub session_dto : Option OpLogin
  pub username : Option String
  pub refresh_interval : Bool
  pub ws_calls : List WsCall
  pub events : List Event

abbrev pub is_socket_state : SocketState → SocketState → Bool
is_socket_state unopened s = elim s [ unopened ↦ true | x ↦ false ]
is_socket_state opening s = elim s [ opening ↦ true | x ↦ false ]
is_socket_state authenticating s = elim s [ authenticating ↦ true | x ↦ false ]
is_socket_state opened s = elim s [ opened ↦ true | x ↦ false ]
is_socket_state authenticated s = elim s [ authenticated ↦ true | x ↦ false ]
is_socket_state aborted s = elim s [ aborted ↦ true | x ↦ false ]
is_socket_state error_state s = elim s [ error_state ↦ true | x ↦ false ]
is_socket_state closed s = elim s [ closed ↦ true | x ↦ false ]

abbrev pub is_responding : ApiState → Bool
is_responding responding = true
is_responding s = false

unfoldable pub needs_reopen : Adapter → Bool
needs_reopen a =
    is_responding a.api_state
    && (is_socket_state closed a.socket_state || is_socket_state error_state a.socket_state)

unfoldable pub needs_setup : Adapter → Bool
needs_setup a = is_socket_state unopened a.socket_state

abbrev pub needs_reauth : Adapter → Bool
needs_reauth a = a.reauth_required

unfoldable pub is_closed_or_aborted : Adapter → Bool
is_closed_or_aborted a =
    is_socket_state closed a.socket_state || is_socket_state aborted a.socket_state

-- `emitEvent` and `emitEventSync`
unfoldable pub emit_event : String → Payload → Adapter → Adapter
emit_event name payload a = if not a.event_emitting_allowed then a else record a {
  events = a.events ++ record { event = name; payload = payload; printer_id = a.printer_id } ∷ [];
}

abbrev pub calling_ws : WsCall → Adapter → Adapter
calling_ws c a = record a { ws_calls = a.ws_calls ++ c ∷ [] }

unfoldable pub set_socket_state : SocketState → Adapter → Adapter
unfolding emit_event
set_socket_state s a =
    emit_event "WS_STATE_UPDATED" (socket_state_payload s)
      (record a { socket_state = s; state_updated = true })

unfoldable pub set_api_state : ApiState → Adapter → Adapter
unfolding emit_event
set_api_state s a =
    emit_event "API_STATE_UPDATED" (api_state_payload s)
      (record a { api_state = s; api_state_updated = true })

unfoldable pub reset_socket_state : Adapter → Adapter
unfolding set_socket_state set_api_state
reset_socket_state a = set_api_state unset (set_socket_state unopened a)

abbrev pub set_reauth_required : Adapter → Adapter
set_reauth_required a = record a { reauth_required = true }

abbrev pub reset_reauth_required : Adapter → Adapter
reset_reauth_required a = record a { reauth_required = false }

abbrev pub allow_emitting_events : Adapter → Adapter
allow_emitting_events a = record a { event_emitting_allowed = true }

abbrev pub disallow_emitting_events : Adapter → Adapter
disallow_emitting_events a = record a { event_emitting_allowed = false }

-- `url_of` is normalizeUrl followed by httpToWsUrl and the path of the socket.
unfoldable pub register_credentials :
    (String → Result String) → String → LoginDto → Prog Adapter (Unit {0})
register_credentials url_of id dto a =
    let b = record a { printer_id = some id; login = some dto } in
    elim (url_of dto.printer_url) [
      | throw e ↦ (throw e, b)
      | ok url ↦ (ok tt, record b { socket_url = some url })
    ]

-- `new WebSocket(undefined)` throws.
unfoldable pub open_socket : Prog Adapter (Unit {0})
open_socket a = if a.socket then (throw error, a) else elim a.socket_url [
  | none ↦ (throw error, a)
  | some url ↦ (ok tt, record (calling_ws (new_web_socket url) a) { socket = true })
]

unfoldable pub close : Adapter → Adapter
close a =
    let b = record a { refresh_interval = false } in
    if b.socket then record (calling_ws close_web_socket b) { socket = false } else b
