-- ===== src/SocketStore/Tests.antt =====
-- The store of sockets with three OctoPrint printers.
use d_hub.Base.{
  String, ◌≡◌, refl, Bool, true, false, none, some, [], ◌∷◌, ◌++◌, All, error,
  external_service_error, axios_error, Result, ok, throw,
}
use d_hub.Base.Dict.{Dict}
use d_hub.SocketStore.{SocketAdapter, Printer, Store, restore}
use d_hub.SocketStore.Octoprint.{is_silent, new_adapter, create_instance, octoprint_adapter}
use d_hub.SocketStore.Restored.{is_in_use, restore-is_in_use, restore_stops}
use d_hub.Sockets.{
  authenticated, aborted, no_response, responding, Adapter, needs_reopen, needs_setup, needs_reauth,
  is_closed_or_aborted, disallow_emitting_events,
}
use d_hub.Sockets.Session.{check_login, catch_login, log_in, Answers, setup_socket_session}
use d_hub.Sockets.Setup.{setup_fails-aborted}
use d_hub.Sockets.Muted.{setup, closed_event, run_ops, muted_emits_nothing}

abbrev local_url : String → Result String
local_url s = ok "ws://octopi/sockjs/websocket"

abbrev kind : SocketAdapter
kind = octoprint_adapter local_url

abbrev printer : String → Bool → Printer
printer id enabled = record {
  id = id;
  enabled = enabled;
  printer_type = 0;
  login = record { api_key = "key"; printer_url = "octopi" };
}

abbrev nothing : Store kind create_instance
nothing = record { adapters = []; removed = [] }

abbrev lost : Adapter
lost = record new_adapter { socket_state = aborted; api_state = no_response }

abbrev silent : Adapter
silent = record new_adapter {
  socket_state = authenticated;
  api_state = responding;
  last_message = some 5;
}

restore-is_in_use_example :
    (m' : Dict Adapter) × (restore kind create_instance 20000
        (λ s. ok tt)
        (("1", silent) ∷ ("2", lost) ∷ [])
      ≡ (ok tt, m'))
    × All (λ e. is_in_use kind create_instance e.1 ≡ true) m'
restore-is_in_use_example =
    restore-is_in_use kind create_instance 20000 (λ s. ok tt) (("1", silent) ∷ ("2", lost) ∷ [])
      (λ id. refl)

restore_stops_example :
    restore kind create_instance 20000
      (λ s. throw (axios_error none))
      ([] ++ ("1", silent) ∷ ("2", lost) ∷ [])
    ≡ (throw (axios_error none), [] ++ ("1", silent) ∷ ("2", lost) ∷ [])
unfolding is_closed_or_aborted is_silent
restore_stops_example =
    restore_stops kind create_instance 20000 (λ s. throw (axios_error none)) "1" silent
      (("2", lost) ∷ []) refl refl refl refl [] tt

abbrev good : Answers
good = record {
  login_answer = ok (record { name = "admin"; groups = "admins" ∷ []; session = "s" });
  admin_user = ok "admin";
  current_answer = record {
    current = throw (axios_error (some 409));
    is_operational = false;
    job = throw error;
  };
}

abbrev keyless : Answers
keyless = record good { login_answer = ok (record { name = "_api"; groups = []; session = "s" }) }

setup_fails-aborted_example :
    (needs_setup (setup_socket_session keyless new_adapter).1 ≡ false)
    × (needs_reopen (setup_socket_session keyless new_adapter).1 ≡ false)
    × (is_closed_or_aborted (setup_socket_session keyless new_adapter).1 ≡ true)
    × (needs_reauth (setup_socket_session keyless new_adapter).1 ≡ needs_reauth new_adapter)
unfolding setup_socket_session log_in check_login catch_login
setup_fails-aborted_example =
    setup_fails-aborted keyless new_adapter {e = external_service_error none} refl

muted_emits_nothing_example :
    (run_ops (setup good ∷ closed_event ∷ []) (disallow_emitting_events new_adapter)).events ≡ []
muted_emits_nothing_example = muted_emits_nothing (setup good ∷ closed_event ∷ []) new_adapter
