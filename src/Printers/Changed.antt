-- ===== src/Printers/Changed.antt =====
-- src/services/orm/printer.service.ts: `update` and the calls by it, in the table and in the cache.
use d_hub.Orm
use d_hub.Base.{
  ℕ, String, ◌≡◌, refl, Result, sym, ap, ◌∙◌, ◌⊎◌, inl, inr, Bool, true, Option, some, map, arith,
  str_eq, str_eq_refl, ◌==◌, if◌then◌else◌, ==_iff, Bool-cases, Option-cases, Exception,
  entity_not_found_error, validation_exception, ok, throw, detached, Result-cases,
}
use d_hub.Base.Dict.{lookup}
use d_hub.Orm.{Repository}
use d_hub.Orm.Lists.{find_holds}
use d_hub.Orm.Rows.{get_found, update_row_found}
use d_hub.KeyDiff.{set_key_value}
use d_hub.KeyDiff.Stored.{lookup-set_number}
use d_hub.KeyDiff.Keys.{number, decimal}
use d_hub.Printers.Service.{
  Listener, Printers, row_at, cached_at, whole, written, update, update_disabled_reason,
}
use d_hub.Printers.{
  Printer, CachedPrinter, to_unsafe_dto, Partial, no_changes, assign, normalized, printer_updated,
  handle,
}

some_inj : {A : Type 0} {a b : A} → some a ≡ some b → a ≡ b
some_inj h = cc

-- The result of what comes after, unless it throws.
abbrev pub answer_after : {A : Type 0} → Result (Unit {0}) → A → Result A
answer_after (ok u) a = ok a
answer_after (throw e) a = throw e

module _ (repo : Repository Printer) (sockets : Listener)
    (id_lem : (r : Printer) → repo.id r ≡ r.id) (normalize_url : String → Option String)
    (check : Partial → Bool) where
  open repo use {rows}

  -- What an update does that gets to the database: the row is found, five fields of it are written, the
  -- cache gets the whole printer that the request asks for, and the store of sockets hears of it, whose
  -- exception, if it throws, is the update's.
  pub record IsUpdate (k : ℕ) (partial : Partial) (s s' : Printers repo sockets) : Type 0 where
    pub found : Printer
    pub request : Partial
    pub row-found : row_at repo sockets k s ≡ some found
    pub is_normalized : normalized normalize_url partial ≡ ok request
    pub is_valid : check (whole repo sockets normalize_url check (assign request found)) ≡ true
    pub returned : update repo sockets normalize_url check k partial s ≡ (
      answer_after
          (sockets.on
            (printer_updated
              (assign request found)
              (written repo sockets normalize_url check (assign request found) found))
            s.store).0
          (written repo sockets normalize_url check (assign request found) found),
      s',
    )
    pub store-after :
        s'.store
        ≡ (sockets.on
            (printer_updated
              (assign request found)
              (written repo sockets normalize_url check (assign request found) found))
            s.store).1
    pub rows-after :
        rows s'.table
        ≡ map
            (λ x.
              if repo.id x == k
              then written repo sockets normalize_url check (assign request found) x
              else x)
            (rows s.table)
    pub row-after :
        row_at repo sockets k s'
        ≡ some (written repo sockets normalize_url check (assign request found) found)
    pub cache-after :
        (key : String)
        → lookup key s'.cache.key_value_store ≡ (
            if str_eq (decimal found.id) key
            then some (to_unsafe_dto (assign request found))
            else lookup key s.cache.key_value_store)

  pub written_id :
      (q r : Printer) → repo.id (written repo sockets normalize_url check q r) ≡ repo.id r
  written_id q r = id_lem (written repo sockets normalize_url check q r) ∙ sym (id_lem r)

  updated :
      (k : ℕ) (partial : Partial) (s : Printers repo sockets) {r : Printer} {p : Partial}
      → row_at repo sockets k s ≡ some r
      → normalized normalize_url partial ≡ ok p
      → check (whole repo sockets normalize_url check (assign p r)) ≡ true
      → (s' : Printers repo sockets) × IsUpdate k partial s s'
  unfolding update handle assign
  updated k partial s {r} {p} e n c =
      let q = assign p r in
      let f : Printer → Printer = written repo sockets normalize_url check q in
      let (w, v) = update_row_found repo k f (λ x. written_id q x) s.table e in
      let t = repo.update (λ x. repo.id x == k) f s.table in
      let s' = record s {
        table = t;
        cache = detached (set_key_value (number q.id) (to_unsafe_dto q) true) s.cache;
        store = (sockets.on (printer_updated q (f r)) s.store).1;
      } in
      (
        s',
        record {
          found = r;
          request = p;
          row-found = e;
          is_normalized = n;
          is_valid = c;
          returned = ground (arith, get_found repo k true s.table e, n, c, w);
          store-after = refl;
          row-after = v;
          rows-after = repo.rows-update (λ x. repo.id x == k) f s.table;
          cache-after = λ key. lookup-set_number r.id (to_unsafe_dto q) s.cache key;
        },
      )

  pub update_outcome :
      (k : ℕ) (partial : Partial) (s : Printers repo sockets)
      → ((e : Exception) × (update repo sockets normalize_url check k partial s ≡ (throw e, s)))
        ⊎ ((s' : Printers repo sockets) × IsUpdate k partial s s')
  unfolding update Orm.get Orm.update_row assign handle
  update_outcome k partial s = elim (Option-cases (row_at repo sockets k s)) [
    | inl e ↦ inl (
      entity_not_found_error,
      ground (arith, e, repo.find_one_by_lem (λ r. repo.id r == k) s.table),
    )
    | inr (r, e) ↦ elim (Result-cases (normalized normalize_url partial)) [
      | inr (x, n) ↦
          inl (x, ground (arith, e, n, repo.find_one_by_lem (λ r. repo.id r == k) s.table))
      | inl (p, n) ↦
          elim (Bool-cases (check (whole repo sockets normalize_url check (assign p r)))) [
            | inr c ↦ inl (
              validation_exception,
              ground (arith, e, n, c, repo.find_one_by_lem (λ r. repo.id r == k) s.table),
            )
            | inl c ↦ inr (updated k partial s e n c)
          ]
    ]
  ]

  -- An `updateDisabledReason` that returns leaves the row as it was found, while the cache holds
  -- the new reason: the reason that the cache shows is not stored.
  pub disabled_reason_unstored :
      (k : ℕ) (reason : Option String) (s s' : Printers repo sockets) {u r : Printer}
      → update_disabled_reason repo sockets normalize_url check k reason s ≡ (ok u, s')
      → row_at repo sockets k s ≡ some r
      → (row_at repo sockets k s' ≡ some r)
        × ((p : CachedPrinter) × (cached_at repo sockets k s' ≡ some p)
            × (p.dto.disabled_reason ≡ reason))
  unfolding update_disabled_reason normalized assign to_unsafe_dto
  disabled_reason_unstored k reason s s' {u} {r} e h =
      elim (update_outcome k (record no_changes { disabled_reason = some reason }) s) [
        | inl (x, f) ↦ absurd (ground (arith, e, f))
        | inr (s1, i) ↦
            let eq : s1 ≡ s' = ap (λ x. x.1) (sym i.returned ∙ e) in
            let same : i.found ≡ r = some_inj (sym i.row-found ∙ h) in
            let req : i.request ≡ record no_changes { disabled_reason = some reason } =
              ground (arith, i.is_normalized) in
            let at_k : r.id ≡ k =
              sym (id_lem r)
              ∙ (==_iff (repo.id r) k).0 (find_holds (λ x. repo.id x == k) (rows s.table) h) in
            (
              ap (row_at repo sockets k) (sym eq)
                  ∙ i.row-after
                  ∙ ap some (ground (arith, req, same)),
              (
                to_unsafe_dto (assign i.request i.found),
                ap (cached_at repo sockets k) (sym eq)
                    ∙ i.cache-after (decimal k)
                    ∙ ground (arith, same, at_k, str_eq_refl (decimal k)),
                ground (arith, req),
              ),
            )
      ]
