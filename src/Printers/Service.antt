-- ===== src/Printers/Service.antt =====
-- src/services/orm/printer.service.ts: the service, with the cache that its events change.
use d_hub.Orm
use mathlib.Core.Option
use d_hub.Base.{
  ℕ, String, Bool, true, false, Option, some, List, [], ◌∷◌, map, ◌==◌, if◌then◌else◌, find, any,
  validation_exception, Result, ok, throw, Prog, ◌>>=◌, ◌>>◌, pure, fail, modify,
}
use d_hub.Base.Dict.{lookup}
use d_hub.Orm.{Repository}
use d_hub.KeyDiff.{set_key_values_batch}
use d_hub.KeyDiff.Keys.{string, number, decimal}
use d_hub.Printers.{
  Printer, CachedPrinter, to_unsafe_dto, Partial, no_changes, assign, row_of, normalized,
  PrinterEvent, printer_created, printer_updated, batch_printer_created, printers_deleted,
  PrinterCache, key_values, handle,
}

-- The store of sockets, src/state/printer-socket.store.ts, hears of each change after the cache does,
-- before the emitter returns, and what it throws the service throws.
pub record Listener : Type 1 where
  pub Store : Type 0
  pub on : PrinterEvent → Prog Store (Unit {0})

module _ (repo : Repository Printer) (sockets : Listener) where
  open repo use {Table}

  pub record Printers : Type 0 where
    pub table : Table
    pub cache : PrinterCache
    pub store : sockets.Store

  abbrev pub in_table : {A : Type 0} → Prog Table A → Prog Printers A
  in_table m s = let (r, t) = m s.table in (r, record s { table = t })

  abbrev pub emit : PrinterEvent → Prog Printers (Unit {0})
  emit e s =
      let (r, store) = sockets.on e s.store in
      (r, record s { cache = handle e s.cache; store = store })

  abbrev pub row_at : ℕ → Printers → Option Printer
  row_at k s = find (λ r. repo.id r == k) (repo.rows s.table)

  abbrev pub cached_at : ℕ → Printers → Option CachedPrinter
  cached_at k s = lookup (decimal k) s.cache.key_value_store

  -- Oldest first; rows are saved in the order of `dateAdded`.
  unfoldable pub list : Table → List Printer
  list t = repo.rows t

  unfoldable pub load_cache : Prog Printers (List CachedPrinter)
  unfolding list key_values set_key_values_batch to_unsafe_dto
  load_cache s = (
    ok (map to_unsafe_dto (list s.table)),
    record s { cache = set_key_values_batch (key_values (list s.table)) true s.cache },
  )

  -- The event holds the list of a list of the id, whose text is that of the id.
  unfoldable pub delete : ℕ → Bool → Prog Printers (Unit {0})
  delete k emit_event = do
    modify (λ s. record s { table = repo.delete (λ r. repo.id r == k) s.table })
    if emit_event then emit (printers_deleted (string (decimal k) ∷ [])) else pure tt

  unfoldable pub delete_many : List ℕ → Bool → Prog Printers (Unit {0})
  delete_many ks emit_event = do
    modify (λ s. record s { table = repo.delete (λ r. any (λ k. repo.id r == k) ks) s.table })
    if emit_event then emit (printers_deleted (map number ks)) else pure tt

  module _ (normalize_url : String → Option String) (check : Partial → Bool) where
    -- `validateInput` by the rules of a new printer.
    abbrev validate_input : Partial → Result Partial
    validate_input p = if check p then ok p else throw validation_exception

    unfoldable pub validate_and_default : Partial → Result Partial
    unfolding normalized
    validate_and_default p =
        elim (normalized normalize_url
          (record p { enabled = some (Option.get_or p.enabled true) })) [
            | throw e ↦ throw e
            | ok q ↦ validate_input q
          ]

    unfoldable pub create : ℕ → Partial → Bool → Prog Printers Printer
    unfolding validate_and_default Orm.create row_of
    create now p emit_event s = elim (validate_and_default p) [
      | throw e ↦ (throw e, s)
      | ok q ↦
          (do
            printer ← in_table (Orm.create repo (row_of q now))
            if emit_event then emit (printer_created printer) else pure tt
            pure printer)
            s
    ]

    -- All fields of a printer, as the rules check them.
    abbrev pub whole : Printer → Partial
    whole r = record {
      name = some r.name;
      printer_url = some r.printer_url;
      printer_type = some r.printer_type;
      api_key = some r.api_key;
      enabled = some r.enabled;
      disabled_reason = some r.disabled_reason;
      feed_rate = r.feed_rate;
      flow_rate = r.flow_rate;
    }

    -- Only these five fields of the printer are written.
    abbrev pub written : Printer → Printer → Printer
    written p r = record r {
      printer_url = p.printer_url;
      name = p.name;
      api_key = p.api_key;
      enabled = p.enabled;
      printer_type = p.printer_type;
    }

    unfoldable pub update : ℕ → Partial → Prog Printers Printer
    unfolding Orm.get Orm.update_row normalized assign
    update k partial = do
      entity ← in_table (Orm.get repo k true)
      elim (normalized normalize_url partial) [
        | throw e ↦ fail e
        | ok p ↦ do
          let printer = assign p entity
          if check (whole printer) then pure tt else fail validation_exception
          updated_printer ← in_table (Orm.update_row repo k (written printer))
          emit (printer_updated printer updated_printer)
          pure updated_printer
      ]

    unfoldable pub update_disabled_reason : ℕ → Option String → Prog Printers Printer
    unfolding update
    update_disabled_reason k reason = update k (record no_changes { disabled_reason = some reason })

    unfoldable pub update_enabled : ℕ → Bool → Prog Printers Printer
    unfolding update
    update_enabled k enabled = update k (record no_changes { enabled = some enabled })

    unfoldable pub update_feed_rate : ℕ → ℕ → Prog Printers Printer
    unfolding update
    update_feed_rate k x = update k (record no_changes { feed_rate = some x })

    unfoldable pub update_flow_rate : ℕ → ℕ → Prog Printers Printer
    unfolding update
    update_flow_rate k x = update k (record no_changes { flow_rate = some x })

    unfoldable pub update_connection_settings : ℕ → Partial → Prog Printers Printer
    unfolding update
    update_connection_settings k p = update k p

    unfoldable pub validate_each : List Partial → Result (Unit {0})
    unfolding validate_and_default
    validate_each [] = ok tt
    validate_each (p ∷ ps) = elim (validate_and_default p) [
      | throw e ↦ throw e
      | ok q ↦ validate_each ps
    ]

    unfoldable pub create_each : ℕ → List Partial → Prog Printers (List Printer)
    unfolding create
    create_each now [] = pure []
    create_each now (p ∷ ps) = do
      printer ← create now p false
      printers ← create_each now ps
      pure (printer ∷ printers)

    -- At one time `now`; nothing is created before all printers are checked.
    unfoldable pub batch_import : ℕ → List Partial → Prog Printers (List Printer)
    unfolding validate_each create_each
    batch_import now [] s = pure [] s
    batch_import now (p ∷ ps) s = elim (validate_each (p ∷ ps)) [
      | throw e ↦ (throw e, s)
      | ok u ↦
          (do
            printers ← create_each now (p ∷ ps)
            emit (batch_printer_created printers)
            pure printers)
            s
    ]
