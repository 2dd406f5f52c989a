-- ===== src/SocketStore.antt =====
-- src/state/printer-socket.store.ts, with src/services/websocket-adapter.interface.ts as the interface
-- to the adapters, and src/tasks/printer-websocket-restore.task.ts. Each adapter is one entry, under
-- its printer's id. The promises of a loop each concern one adapter and are taken one after another;
-- the tallies of states are left out.
pub mod Registered
pub mod Restored
pub mod Octoprint
mod Tests
use d_hub.Base.{
  ℕ, ◌+◌, String, ◌≡◌, Bool, true, false, not, ◌&&◌, ◌||◌, Option, none, some, List, [], ◌∷◌, ◌++◌,
  map, if◌then◌else◌, Result, ok, throw, Prog, ◌>>=◌, ◌>>◌, pure, detached,
}
use d_hub.Base.Dict.{Dict, lookup, insert, remove}
use d_hub.Sockets.{LoginDto}

-- What a loop needs from outside for one adapter is of type `Env`.
pub record SocketAdapter : Type 1 where
  pub Adapter : Type 0
  pub Env : Type 0
  pub printer_id : Adapter → Option String
  pub is_octoprint : Adapter → Bool
  pub needs_reopen : Adapter → Bool
  pub needs_setup : Adapter → Bool
  pub needs_reauth : Adapter → Bool
  pub is_closed_or_aborted : Adapter → Bool
  pub is_silent : ℕ → Adapter → Bool
  pub reauth_session : Env → Prog Adapter (Unit {0})
  pub setup_socket_session : Env → Prog Adapter (Unit {0})
  pub register_credentials : String → LoginDto → Prog Adapter (Unit {0})
  pub open_socket : Prog Adapter (Unit {0})
  pub close : Adapter → Adapter
  pub reset_socket_state : Adapter → Adapter
  pub disallow_emitting_events : Adapter → Adapter
  pub needs_setup-reset : (a : Adapter) → needs_setup (reset_socket_state a) ≡ true
  pub is_closed_or_aborted-reset :
      (a : Adapter) → is_closed_or_aborted (reset_socket_state a) ≡ false

pub record Printer : Type 0 where
  pub id : String
  pub enabled : Bool
  pub printer_type : ℕ
  pub login : LoginDto

-- `create_instance` is the socket factory's.
module _ (kind : SocketAdapter) (create_instance : ℕ → Result kind.Adapter) where
  open kind use {Adapter}

  -- `removed` has the adapters that the store no longer refers to, which still hear their sockets.
  pub record Store : Type 0 where
    pub adapters : Dict Adapter
    pub removed : List Adapter

  abbrev pub put : String → Adapter → Store → Store
  put id a s = record s { adapters = insert id a s.adapters }

  unfoldable pub delete_socket : String → Store → Store
  unfolding remove lookup
  delete_socket id s = elim (lookup id s.adapters) [
    | none ↦ record s { adapters = remove id s.adapters }
    | some a ↦ record {
      adapters = remove id s.adapters;
      removed = s.removed ++ kind.close (kind.disallow_emitting_events a) ∷ [];
    }
  ]

  -- `registerCredentials` and `resetSocketState`; the adapter is in the store before it.
  unfoldable pub renew : Printer → Adapter → Prog Store (Unit {0})
  unfolding insert
  renew p a s =
      let (r, b) = kind.register_credentials p.id p.login a in
      elim r [
        | throw e ↦ (throw e, put p.id b s)
        | ok u ↦ (ok tt, put p.id (kind.reset_socket_state b) s)
      ]

  unfoldable pub create_or_update_socket : Printer → Prog Store (Unit {0})
  unfolding lookup delete_socket renew
  create_or_update_socket p s =
      if not p.enabled then (ok tt, delete_socket p.id s) else elim (lookup p.id s.adapters) [
        | some a ↦ renew p (kind.close a) s
        | none ↦ elim (create_instance p.printer_type) [
          | throw e ↦ (throw e, s)
          | ok a ↦ renew p a s
        ]
      ]

  -- The first printer that throws ends the loop.
  unfoldable pub handle_batch_printer_created : List Printer → Prog Store (Unit {0})
  unfolding create_or_update_socket
  handle_batch_printer_created [] = pure tt
  handle_batch_printer_created (p ∷ ps) = do
    create_or_update_socket p
    handle_batch_printer_created ps

  unfoldable pub handle_printers_deleted : List String → Store → Store
  unfolding delete_socket
  handle_printers_deleted [] s = s
  handle_printers_deleted (id ∷ ids) s = handle_printers_deleted ids (delete_socket id s)

  -- A printer that throws is logged, and the loop goes on.
  unfoldable pub load_each : List Printer → Store → Store
  unfolding create_or_update_socket
  load_each [] s = s
  load_each (p ∷ ps) s = load_each ps (detached (create_or_update_socket p) s)

  -- The adapters of before are dropped as they are.
  unfoldable pub load_printer_sockets : List Printer → Store → Store
  unfolding load_each
  load_printer_sockets ps s =
      load_each ps (record { adapters = []; removed = s.removed ++ map (λ e. e.1) s.adapters })

  unfoldable pub reconnect_octoprint : String → Store → Store
  unfolding lookup insert
  reconnect_octoprint id s = elim (lookup id s.adapters) [
    | none ↦ s
    | some a ↦ put id (kind.reset_socket_state (kind.close a)) s
  ]

  pub record Reconnected : Type 0 where
    pub sockets : Dict Adapter
    pub requested : ℕ
    pub failed : List (Option String)

  abbrev pub entry : String → Adapter → Reconnected → Reconnected
  entry id a r = record r { sockets = (id, a) ∷ r.sockets }

  abbrev pub attempted : String → Adapter → Result (Unit {0}) × Adapter → Reconnected → Reconnected
  attempted id a (throw e, b) r = record {
    sockets = (id, b) ∷ r.sockets;
    requested = r.requested + 1;
    failed = kind.printer_id b ∷ r.failed;
  }
  attempted id a (ok u, b) r = record {
    sockets = (id, b) ∷ r.sockets;
    requested = r.requested + 1;
    failed = r.failed;
  }

  abbrev pub nothing_yet : Reconnected
  nothing_yet = record { sockets = []; requested = 0; failed = [] }

  unfoldable pub reauth_each : (String → kind.Env) → Dict Adapter → Reconnected
  reauth_each env [] = nothing_yet
  reauth_each env ((id, a) ∷ m) =
      let rest = reauth_each env m in
      if kind.is_octoprint a && kind.needs_reauth a
      then attempted id a (kind.reauth_session (env id) a) rest
      else entry id a rest

  abbrev pub setup_and_open : kind.Env → Prog Adapter (Unit {0})
  setup_and_open e = kind.setup_socket_session e >> kind.open_socket

  unfoldable pub setup_each : (String → kind.Env) → Dict Adapter → Reconnected
  setup_each env [] = nothing_yet
  setup_each env ((id, a) ∷ m) =
      let rest = setup_each env m in
      if kind.needs_setup a || kind.needs_reopen a
      then attempted id a (setup_and_open (env id) a) rest
      else entry id a rest

  -- The loops over the adapters that are to log in again, and over those to be set up.
  unfoldable pub reconnect_printer_sockets :
      (String → kind.Env) → (String → kind.Env) → Dict Adapter → Reconnected × Reconnected
  unfolding reauth_each setup_each
  reconnect_printer_sockets env env2 m =
      let first = reauth_each env m in (first, setup_each env2 first.sockets)

  -- `run` of the restoring task; the request for the connection of a silent socket is not in a `try`.
  unfoldable pub restore :
      ℕ → (String → Result (Unit {0})) → Dict Adapter → Result (Unit {0}) × Dict Adapter
  restore now get_connection [] = (ok tt, [])
  restore now get_connection ((id, a) ∷ m) =
      let (r, rest) = restore now get_connection m in
      if not (kind.is_octoprint a)
      then (r, (id, a) ∷ rest)
      else if kind.is_closed_or_aborted a
      then (r, (id, kind.reset_socket_state (kind.close a)) ∷ rest)
      else if kind.is_silent now a
      then elim (get_connection id) [
        | throw e ↦ (throw e, (id, a) ∷ m)
        | ok u ↦ (r, (id, a) ∷ rest)
      ]
      else (r, (id, a) ∷ rest)
