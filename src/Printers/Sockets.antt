-- ===== src/Printers/Sockets.antt =====
-- src/state/printer-socket.store.ts as the listener of the events of src/services/orm/printer.service.ts.
-- The store is made after the cache of printers, which it is given, so it hears of an event after it.
use d_hub.Base.{ℕ, map, Result, modify}
use d_hub.SocketStore.{
  SocketAdapter, Store, create_or_update_socket, handle_batch_printer_created,
  handle_printers_deleted,
}
use d_hub.SocketStore as SocketStore
use d_hub.KeyDiff.Keys.{decimal, key_string}
use d_hub.Printers.{
  Printer, present, printer_created, printer_updated, batch_printer_created, printers_deleted,
}
use d_hub.Printers.Service.{Listener}

-- What the store reads of a printer.
abbrev pub socket_printer : Printer → SocketStore.Printer
socket_printer p = record {
  id = decimal p.id;
  enabled = p.enabled;
  printer_type = p.printer_type;
  login = record { api_key = p.api_key; printer_url = p.printer_url };
}

module _ (kind : SocketAdapter) (create_instance : ℕ → Result kind.Adapter) where
  -- `subscribeToEvents`. No adapter has an id without a text.
  abbrev pub socket_listener : Listener
  socket_listener = record {
    Store = Store kind create_instance;
    on = λ e. elim e [
      | printer_created p ↦ create_or_update_socket kind create_instance (socket_printer p)
      | printer_updated p updated ↦ create_or_update_socket kind create_instance (socket_printer p)
      | batch_printer_created ps ↦
          handle_batch_printer_created kind create_instance (map socket_printer ps)
      | printers_deleted keys ↦
          modify (handle_printers_deleted kind create_instance (present (map key_string keys)))
    ];
  }
