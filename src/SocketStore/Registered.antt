-- ===== src/SocketStore/Registered.antt =====
-- Which printers have an adapter in src/state/printer-socket.store.ts after its events.
use d_hub.Base.{
  ℕ, String, ◌≡◌, refl, ap, ◌∙◌, inl, inr, Bool, true, false, not, ◌&&◌, ◌||◌, Option, none, some,
  List, [], ◌∷◌, ◌++◌, map, arith, str_eq, str_eq_iff, if◌then◌else◌, Option-cases, Result, ok,
  throw, Result-cases,
}
use d_hub.Base.Dict.{lookup, lookup-insert, lookup-remove}
use d_hub.SocketStore.{
  SocketAdapter, Printer, Store, delete_socket, renew, create_or_update_socket, load_each,
  load_printer_sockets,
}

abbrev pub has : {A : Type 0} → Option A → Bool
has none = false
has (some a) = true

abbrev pub is_ok : {A : Type 0} → Result A → Bool
is_ok (ok a) = true
is_ok (throw e) = false

module _ (kind : SocketAdapter) (create_instance : ℕ → Result kind.Adapter) where
  abbrev pub is_registered : String → Store kind create_instance → Bool
  is_registered id s = has (lookup id s.adapters)

  -- A printer that is enabled gets an adapter if its type has one.
  abbrev pub registers : String → Printer → Bool → Bool
  registers id p before =
      if not (str_eq p.id id)
      then before
      else p.enabled && (before || is_ok (create_instance p.printer_type))

  unfoldable pub expected : String → List Printer → Bool → Bool
  expected id [] before = before
  expected id (p ∷ ps) before = expected id ps (registers id p before)

  renew-is_registered :
      (id : String) (p : Printer) (a : kind.Adapter) (s : Store kind create_instance)
      → is_registered id (renew kind create_instance p a s).1
        ≡ (str_eq p.id id || is_registered id s)
  unfolding renew
  renew-is_registered id p a s =
      let (r, b) = kind.register_credentials p.id p.login a in
      ground (
        arith,
        lookup-insert p.id id b s.adapters,
        lookup-insert p.id id (kind.reset_socket_state b) s.adapters,
      )

  delete-is_registered :
      (id j : String) (s : Store kind create_instance)
      → is_registered id (delete_socket kind create_instance j s)
        ≡ (not (str_eq j id) && is_registered id s)
  unfolding delete_socket
  delete-is_registered id j s = ground (arith, lookup-remove j id s.adapters)

  -- A printer that is created or updated has an adapter afterwards exactly if it is enabled and had
  -- one or is of a type that has adapters, and the other printers are as before.
  pub create_or_update-is_registered :
      (id : String) (p : Printer) (s : Store kind create_instance)
      → is_registered id (create_or_update_socket kind create_instance p s).1
        ≡ registers id p (is_registered id s)
  unfolding create_or_update_socket
  create_or_update-is_registered id p s = elim (Option-cases (lookup p.id s.adapters)) [
    | inl e ↦ elim (Result-cases (create_instance p.printer_type)) [
      | inl (a, f) ↦ ground (
        arith,
        e,
        f,
        str_eq_iff p.id id,
        delete-is_registered id p.id s,
        renew-is_registered id p a s,
      )
      | inr (x, f) ↦ ground (arith, e, f, str_eq_iff p.id id, delete-is_registered id p.id s)
    ]
    | inr (a, e) ↦ ground (
      arith,
      e,
      str_eq_iff p.id id,
      delete-is_registered id p.id s,
      renew-is_registered id p (kind.close a) s,
    )
  ]

  load_each-is_registered :
      (id : String) (ps : List Printer) (s : Store kind create_instance)
      → is_registered id (load_each kind create_instance ps s) ≡ expected id ps (is_registered id s)
  unfolding load_each expected
  load_each-is_registered id [] s = refl
  load_each-is_registered id (p ∷ ps) s =
      load_each-is_registered id ps (create_or_update_socket kind create_instance p s).1
      ∙ ap (expected id ps) (create_or_update-is_registered id p s)

  -- After the sockets are loaded, whatever was there before, a printer has an adapter exactly as the
  -- list of printers, from first to last, says; a printer whose set-up throws does not keep the
  -- others from theirs.
  pub load-is_registered :
      (id : String) (ps : List Printer) (s : Store kind create_instance)
      → is_registered id (load_printer_sockets kind create_instance ps s) ≡ expected id ps false
  unfolding load_printer_sockets lookup
  load-is_registered id ps s =
      load_each-is_registered id ps
        (record { adapters = []; removed = s.removed ++ map (λ e. e.1) s.adapters })
