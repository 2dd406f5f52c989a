-- ===== src/Printers/Tests.antt =====
-- Printers in memory: an update, an import and two batches.
use d_hub.Base.{
  ℕ, String, ◌≡◌, refl, ◌⊎◌, inr, arith, map, error, Result, Bool, true, false, not, Option, none,
  some, List, [], ◌∷◌, ◌++◌, str_eq, length, Exception, not_found_exception, validation_exception,
  ok, throw, Prog,
}
use d_hub.Printers.Toggled.{IsLeftAlone, batch_toggle-row, batch_reprint_calls-append}
use d_hub.Printers.Imported.{batch_import_outcome}
use d_hub.Printers.Batches.{success, LoginDto, batch_toggle_printers_enabled, batch_reprint_calls}
use d_hub.Printers.Changed.{answer_after, disabled_reason_unstored}
use d_hub.Printers.Sockets.{socket_listener}
use d_hub.SocketStore.{create_or_update_socket}
use d_hub.SocketStore.Octoprint.{create_instance, octoprint_adapter}
use d_hub.Printers.Service.{
  Listener, update_enabled, Printers, row_at, cached_at, update_disabled_reason, batch_import,
}
use d_hub.Printers.{Printer, CachedPrinter, Partial, no_changes, batch_printer_created, handle}
use d_hub.Orm.{Repository}
use d_hub.Orm.Table.{in_memory}

abbrev printer_repo : Repository Printer
printer_repo = in_memory (λ p. p.id)

-- The store of sockets, without support of Moonraker, whose adapters are those of OctoPrint.
abbrev listener : Listener
listener = socket_listener (octoprint_adapter ok) create_instance

abbrev same_url : String → Option String
same_url = some

abbrev named : Partial → Bool
named p = elim p.name [ none ↦ false | some n ↦ not (str_eq n "") ]

abbrev printer : ℕ → String → Bool → Option String → Printer
printer k name enabled reason = record {
  id = k;
  name = name;
  printer_url = "http://a";
  printer_type = 0;
  api_key = "key";
  enabled = enabled;
  disabled_reason = reason;
  date_added = k;
  feed_rate = none;
  flow_rate = none;
}

abbrev old : Printer
old = printer 1 "old" true none

abbrev broken : Printer
broken = printer 2 "broken" false (some "nozzle")

abbrev state : Printers printer_repo listener
state = record {
  table = old ∷ broken ∷ [];
  cache = record {
    deleted_keys = [];
    updated_keys = [];
    key_value_store =
        (
          "1",
          record {
            dto = record {
              id = 1;
              name = "old";
              enabled = true;
              disabled_reason = none;
              date_added = 1;
            };
            api_key = "key";
            printer_url = "http://a";
            printer_type = 0;
          },
        )
        ∷ (
          "2",
          record {
            dto = record {
              id = 2;
              name = "broken";
              enabled = false;
              disabled_reason = some "nozzle";
              date_added = 2;
            };
            api_key = "key";
            printer_url = "http://a";
            printer_type = 0;
          },
        )
        ∷ [];
  };
  store = record { adapters = []; removed = [] };
}

abbrev with_reason : Printers printer_repo listener
unfolding update_disabled_reason
with_reason = (update_disabled_reason printer_repo listener same_url named 1 (some "bed") state).1

disabled_reason_unstored_example :
    (row_at printer_repo listener 1 with_reason ≡ some old)
    × ((p : CachedPrinter) × (cached_at printer_repo listener 1 with_reason ≡ some p)
        × (p.dto.disabled_reason ≡ some "bed"))
unfolding update_disabled_reason d_hub.Printers.handle d_hub.KeyDiff.set_key_value
    d_hub.Printers.to_unsafe_dto create_or_update_socket create_instance
    d_hub.Sockets.register_credentials
disabled_reason_unstored_example =
    disabled_reason_unstored printer_repo listener (λ p. refl) same_url named 1 (some "bed") state
      with_reason {u = old} {r = old} refl refl

abbrev fields : String → Partial
fields name = record no_changes { name = some name; printer_url = some "b"; printer_type = some 0 }

batch_import_outcome_example :
    ((e : Exception) × (batch_import printer_repo listener same_url named 9
          (fields "x" ∷ fields "y" ∷ [])
          state
        ≡ (throw e, state)))
    ⊎ ((new : List Printer) × (s' : Printers printer_repo listener) × (heard : Result (Unit {0})
          × listener.Store)
        × (batch_import printer_repo listener same_url named 9 (fields "x" ∷ fields "y" ∷ []) state
            ≡ (answer_after heard.0 new, s'))
        × (s'.table ≡ state.table ++ new)
        × (length new ≡ 2)
        × (s'.cache ≡ handle (batch_printer_created new) state.cache)
        × (s'.store ≡ heard.1)
        × (heard ≡ listener.on (batch_printer_created new) state.store))
batch_import_outcome_example =
    batch_import_outcome printer_repo listener same_url named 9 (fields "x" ∷ fields "y" ∷ []) state

-- The row of a printer of a type without an adapter is enabled, and the call throws.
abbrev stranger : Printers printer_repo listener
stranger = record state { table = record (printer 3 "moon" false none) { printer_type = 1 } ∷ [] }

enabled_and_thrown :
    let (r, s) = update_enabled printer_repo listener same_url named 3 true stranger in
    (r ≡ throw error) × (map (λ p. p.enabled) s.table ≡ true ∷ [])
unfolding update_enabled create_instance create_or_update_socket
enabled_and_thrown = (refl, refl)

import_refused :
    (batch_import printer_repo listener same_url named 9 (fields "x" ∷ fields "" ∷ []) state).0
    ≡ throw validation_exception
unfolding batch_import
import_refused = refl

left_alone :
    (p : CachedPrinter) → cached_at printer_repo listener 2 state ≡ some p → IsLeftAlone true p
unfolding d_hub.Base.Dict.lookup d_hub.KeyDiff.Keys.decimal
left_alone p e = inr ("nozzle", ground (arith, e), refl)

batch_toggle-row_example :
    row_at printer_repo listener 2
      (batch_toggle_printers_enabled printer_repo listener same_url named
        (1 ∷ 2 ∷ 3 ∷ [])
        true
        state).1
    ≡ some broken
batch_toggle-row_example =
    batch_toggle-row printer_repo listener (λ p. refl) same_url named (1 ∷ 2 ∷ 3 ∷ []) true state 2
      left_alone

toggled :
    (batch_toggle_printers_enabled printer_repo listener same_url named
      (1 ∷ 2 ∷ 3 ∷ [])
      false
      state).0
    ≡ ok (some (success 1) ∷ none ∷ [])
unfolding batch_toggle_printers_enabled d_hub.Base.Dict.lookup d_hub.KeyDiff.Keys.decimal
    create_or_update_socket
toggled = refl

abbrev started : LoginDto → String → Prog (List String) (Unit {0})
started login path w = (ok tt, w ++ path ∷ [])

batch_reprint_calls-append_example :
    batch_reprint_calls started state.cache
      ((1, "a.gcode") ∷ (5, "b.gcode") ∷ (2, "c.gcode") ∷ [])
      []
    ≡ (throw not_found_exception, "a.gcode" ∷ [])
unfolding batch_reprint_calls d_hub.KeyDiff.Keys.key_string d_hub.Base.Dict.lookup
    d_hub.KeyDiff.Keys.decimal
batch_reprint_calls-append_example =
    batch_reprint_calls-append started state.cache ((1, "a.gcode") ∷ []) ((2, "c.gcode") ∷ []) 5
      "b.gcode" [] {rs = success 1 ∷ []} refl refl
