-- ===== src/Printers/Toggled.antt =====
-- src/services/core/batch-call.service.ts: which printers a batch leaves alone, and how far one gets.
use d_hub.Base.{
  ℕ, String, ◌≡◌, refl, ap, ◌∙◌, ◌⊎◌, inl, inr, Bool, true, false, Option, none, some, List, [],
  ◌∷◌, ◌++◌, arith, ◌==◌, ==_iff, Option-cases, str_eq, find, not_found_exception, ok, throw, Prog,
  Result-cases,
}
use d_hub.Base.Dict.{lookup}
use d_hub.Printers.Batches.{
  BatchResult, LoginDto, to_toggle, answered, toggle_each, batch_toggle_printers_enabled,
  get_login_dto, batch_calls, batch_reprint_calls,
}
use d_hub.Printers.Changed.{written_id, update_outcome}
use d_hub.Printers.Service.{Listener, Printers, row_at, cached_at, written, update, update_enabled}
use d_hub.Printers.{
  Printer, CachedPrinter, Partial, no_changes, assign, PrinterCache, get_cached_printer_or_throw,
}
use d_hub.KeyDiff.{get_value}
use d_hub.KeyDiff.Keys.{decimal, key_string}
use d_hub.Orm.{Repository}
use d_hub.Orm.Rows.{find-replaced_other}

-- What the cache says of a printer that a batch is to leave alone: enabling leaves alone one that is
-- enabled or has a reason to be disabled, which is in maintenance, and disabling one that is disabled.
abbrev pub IsLeftAlone : Bool → CachedPrinter → Type 0
IsLeftAlone true p =
    (p.dto.enabled ≡ true)
    ⊎ ((reason : String) × (p.dto.disabled_reason ≡ some reason) × (str_eq reason "" ≡ false))
IsLeftAlone false p = p.dto.enabled ≡ false

to_toggle-none :
    (enabled : Bool) (p : CachedPrinter) → IsLeftAlone enabled p → to_toggle enabled (some p) ≡ none
unfolding to_toggle
to_toggle-none true p (inl h) = ground (arith, h)
to_toggle-none true p (inr (reason, h, n)) = ground (arith, h, n)
to_toggle-none false p h = ground (arith, h)

module _ (repo : Repository Printer) (sockets : Listener)
    (id_lem : (r : Printer) → repo.id r ≡ r.id) (normalize_url : String → Option String)
    (check : Partial → Bool) where
  open repo use {rows}

  update-row_other :
      (j k : ℕ) (partial : Partial) (s : Printers repo sockets)
      → (j == k) ≡ false
      → row_at repo sockets k (update repo sockets normalize_url check j partial s).1
        ≡ row_at repo sockets k s
  update-row_other j k partial s h =
      elim (update_outcome repo sockets id_lem normalize_url check j partial s) [
        | inl (x, e) ↦ ground (arith, e)
        | inr (s', i) ↦
            ap (λ x. row_at repo sockets k x.1) i.returned
            ∙ ap (find (λ x. repo.id x == k)) i.rows-after
            ∙ find-replaced_other repo j k
                (written repo sockets normalize_url check (assign i.request i.found))
                (λ x.
                  written_id repo sockets id_lem normalize_url check (assign i.request i.found) x)
                (rows s.table) h
      ]

  toggle_each-row :
      (enabled : Bool) (c : PrinterCache) (k : ℕ)
      → to_toggle enabled (lookup (decimal k) c.key_value_store) ≡ none
      → (ks : List ℕ) (s : Printers repo sockets)
      → row_at repo sockets k (toggle_each repo sockets normalize_url check enabled c ks s).1
        ≡ row_at repo sockets k s
  unfolding toggle_each update_enabled answered
  toggle_each-row enabled c k h [] s = refl
  toggle_each-row enabled c k h (j ∷ ks) s =
      elim (Option-cases (lookup (decimal j) c.key_value_store)) [
        | inl e ↦ ground (arith, e, toggle_each-row enabled c k h ks s)
        | inr (p, e) ↦ elim (Option-cases (to_toggle enabled (some p))) [
          | inl d ↦ ground (arith, e, d, toggle_each-row enabled c k h ks s)
          | inr (b, d) ↦
              let change = record no_changes { enabled = some b } in
              let other : (j == k) ≡ false = ground (arith, h, e, d, ==_iff j k) in
              ground (
                arith,
                e,
                d,
                update-row_other j k change s other,
                toggle_each-row enabled c k h ks
                    (update repo sockets normalize_url check j change s).1,
              )
        ]
      ]

  -- A batch that enables changes no row of a printer that is, in the cache, enabled or has a reason to be
  -- disabled, and one that disables no row of a printer that is disabled there; neither changes the row of a
  -- printer that is not cached.
  pub batch_toggle-row :
      (ks : List ℕ) (enabled : Bool) (s : Printers repo sockets) (k : ℕ)
      → ((p : CachedPrinter) → cached_at repo sockets k s ≡ some p → IsLeftAlone enabled p)
      → row_at repo sockets k
          (batch_toggle_printers_enabled repo sockets normalize_url check ks enabled s).1
        ≡ row_at repo sockets k s
  unfolding batch_toggle_printers_enabled to_toggle
  batch_toggle-row ks enabled s k h = elim (Option-cases (cached_at repo sockets k s)) [
    | inl e ↦ toggle_each-row enabled s.cache k (rw e refl) ks s
    | inr (p, e) ↦ toggle_each-row enabled s.cache k (rw e (to_toggle-none enabled p (h p e))) ks s
  ]

module _ {W : Type 0} (start_print : LoginDto → String → Prog W (Unit {0})) (c : PrinterCache) where
  missing_login :
      (k : ℕ)
      → lookup (decimal k) c.key_value_store ≡ none
      → (get_login_dto k c).0 ≡ throw not_found_exception
  unfolding get_login_dto get_cached_printer_or_throw get_value key_string
  missing_login k h = ground (arith, h)

  -- A batch of reprints throws if a printer that is not cached follows on a list whose calls
  -- return: the world is the one that the calls for the list leave, and their answers are lost.
  pub batch_reprint_calls-append :
      (xs ys : List (ℕ × String)) (k : ℕ) (path : String) (w : W) {rs : List BatchResult} {w' : W}
      → batch_reprint_calls start_print c xs w ≡ (ok rs, w')
      → lookup (decimal k) c.key_value_store ≡ none
      → batch_reprint_calls start_print c (xs ++ (k, path) ∷ ys) w ≡ (throw not_found_exception, w')
  unfolding batch_reprint_calls batch_calls
  batch_reprint_calls-append [] ys k path w e h = ground (arith, e, missing_login k h)
  batch_reprint_calls-append (x ∷ xs) ys k path w {rs} {w'} e h =
      elim (Result-cases (get_login_dto x.0 c).0) [
        | inr (z, l) ↦ absurd (ground (arith, e, l))
        | inl (login, l) ↦
            let w1 = (start_print login x.1 w).1 in
            elim (Result-cases (batch_reprint_calls start_print c xs w1).0) [
              | inr (z, f) ↦ absurd (ground (arith, e, l, f))
              | inl (rs1, f) ↦
                  let back : batch_reprint_calls start_print c xs w1 ≡ (ok rs1, w') =
                    ground (arith, e, l, f) in
                  ground (arith, l, batch_reprint_calls-append xs ys k path w1 back h)
            ]
      ]
