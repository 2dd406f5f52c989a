-- ===== src/Printers/Imported.antt =====
-- src/services/orm/printer.service.ts: `batchImport` imports all or nothing.
use d_hub.Orm
use d_hub.Base.{
  ℕ, String, ◌≡◌, refl, sym, ap, ◌∙◌, ◌⊎◌, inl, inr, Bool, Option, List, [], ◌∷◌, ◌++◌, arith,
  length, append-nil, append_one, Exception, Result, ok, throw, ◌==◌, if◌then◌else◌, Result-cases,
}
use d_hub.Printers.Changed.{answer_after}
use d_hub.Printers.Service.{
  Listener, Printers, validate_and_default, create, validate_each, create_each, batch_import,
}
use d_hub.Printers.{Printer, Partial, row_of, batch_printer_created, handle}
use d_hub.Orm.{Repository}

module _ (repo : Repository Printer) (sockets : Listener) (normalize_url : String → Option String)
    (check : Partial → Bool) where
  open repo use {Table, rows}

  validated_each :
      (p : Partial) (ps : List Partial)
      → validate_each repo sockets normalize_url check (p ∷ ps) ≡ ok tt
      → ((q : Partial) × (validate_and_default repo sockets normalize_url check p ≡ ok q))
        × (validate_each repo sockets normalize_url check ps ≡ ok tt)
  unfolding validate_each
  validated_each p ps h =
      elim (Result-cases (validate_and_default repo sockets normalize_url check p)) [
        | inl (q, e) ↦ ((q, e), ground (arith, h, e))
        | inr (x, e) ↦ absurd (ground (arith, h, e))
      ]

  create_each_lem :
      (now : ℕ) (ps : List Partial) (s : Printers repo sockets)
      → validate_each repo sockets normalize_url check ps ≡ ok tt
      → (new : List Printer) × (t : Table) × (create_each repo sockets normalize_url check now ps s
          ≡ (ok new, record s { table = t }))
        × (rows t ≡ rows s.table ++ new)
        × (length new ≡ length ps)
  unfolding create_each create Orm.create
  create_each_lem now [] s h = ([], s.table, refl, sym (append-nil (rows s.table)), refl)
  create_each_lem now (p ∷ ps) s h =
      let ((q, e), k) = validated_each p ps h in
      let made = row_of q now (repo.next_id s.table) in
      let s1 = record s { table = repo.save (row_of q now) s.table } in
      let (new, t, c, r, l) = create_each_lem now ps s1 k in
      (
        made ∷ new,
        t,
        ground (arith, e, c),
        r
            ∙ ap (λ x. x ++ new) (repo.rows-save (row_of q now) s.table)
            ∙ append_one (rows s.table) made new,
        ground (arith, l),
      )

  -- An import throws and changes nothing, or as many rows as there are printers to import come after the
  -- rows that were there. The cache then hears of all of them at once, and after it the store of sockets, if
  -- there is a printer at all: the import returns the new rows, or throws what the store of sockets
  -- throws, with the rows made all the same.
  pub batch_import_outcome :
      (now : ℕ) (ps : List Partial) (s : Printers repo sockets)
      → ((e : Exception) × (batch_import repo sockets normalize_url check now ps s ≡ (throw e, s)))
        ⊎ ((new : List Printer) × (s' : Printers repo sockets) × (heard : Result (Unit {0})
              × sockets.Store)
            × (batch_import repo sockets normalize_url check now ps s
                ≡ (answer_after heard.0 new, s'))
            × (rows s'.table ≡ rows s.table ++ new)
            × (length new ≡ length ps)
            × (s'.cache ≡ handle (batch_printer_created new) s.cache)
            × (s'.store ≡ heard.1)
            × (heard ≡ (
                if length ps == 0
                then (ok tt, s.store)
                else sockets.on (batch_printer_created new) s.store)))
  unfolding batch_import handle
  batch_import_outcome now [] s =
      inr ([], s, (ok tt, s.store), refl, sym (append-nil (rows s.table)), refl, refl, refl, refl)
  batch_import_outcome now (p ∷ ps) s =
      elim (Result-cases (validate_each repo sockets normalize_url check (p ∷ ps))) [
        | inr (x, e) ↦ inl (x, ground (arith, e))
        | inl (u, e) ↦
            let (new, t, c, r, l) = create_each_lem now (p ∷ ps) s e in
            let heard = sockets.on (batch_printer_created new) s.store in
            inr (
              new,
              record {
                table = t;
                cache = handle (batch_printer_created new) s.cache;
                store = heard.1;
              },
              heard,
              ground (arith, e, c),
              r,
              l,
              refl,
              refl,
              ground arith,
            )
      ]
