-- ===== src/Printers/Batches.antt =====
-- src/services/core/batch-call.service.ts: calls for many printers at once.
use d_hub.Base.{
  ℕ, String, Bool, true, false, not, ◌&&◌, Option, none, some, List, [], ◌∷◌, map, str_eq,
  if◌then◌else◌, Exception, ok, throw, Prog, ◌>>=◌, pure, fail,
}
use d_hub.Base.Dict.{lookup}
use d_hub.Printers.Service.{Listener, Printers, update_enabled}
use d_hub.Printers.{Printer, CachedPrinter, Partial, PrinterCache, get_cached_printer_or_throw}
use d_hub.KeyDiff.Keys.{number, decimal}
use d_hub.Orm.{Repository}

-- The time that an answer also tells is left out.
pub data BatchResult : Type 0 where
  success : ℕ → BatchResult
  failure : ℕ → Exception → BatchResult

-- `LoginDto` of src/services/interfaces/login.dto.ts.
pub record LoginDto : Type 0 where
  pub printer_url : String
  pub api_key : String
  pub printer_type : ℕ

abbrev has_reason : Option String → Bool
has_reason none = false
has_reason (some reason) = not (str_eq reason "")

-- What the loop does with a printer: enable it unless it is in maintenance, or disable it, or nothing.
unfoldable pub to_toggle : Bool → Option CachedPrinter → Option Bool
to_toggle enabled none = none
to_toggle true (some p) =
    if not p.dto.enabled && not (has_reason p.dto.disabled_reason) then some true else none
to_toggle false (some p) = if p.dto.enabled then some false else none

module _ (repo : Repository Printer) (sockets : Listener) (normalize_url : String → Option String)
    (check : Partial → Bool) where
  open repo use {Table, rows}

  unfoldable pub answered :
      {A : Type 0} → ℕ → Prog (Printers repo sockets) A → Prog (Printers repo sockets) BatchResult
  answered k m s =
      let (r, s') = m s in (ok (elim r [ ok a ↦ success k | throw e ↦ failure k e ]), s')

  -- The cache is read for all printers before the database answers the first update. A printer that is not
  -- cached is left out, and one that nothing is done with has no answer.
  unfoldable pub toggle_each :
      Bool → PrinterCache → List ℕ → Prog (Printers repo sockets) (List (Option BatchResult))
  unfolding update_enabled to_toggle answered
  toggle_each enabled c [] = pure []
  toggle_each enabled c (k ∷ ks) = elim (lookup (decimal k) c.key_value_store) [
    | none ↦ toggle_each enabled c ks
    | some p ↦ do
      result ← elim (to_toggle enabled (some p)) [
        | none ↦ pure none
        | some b ↦ do
          r ← answered k (update_enabled repo sockets normalize_url check k b)
          pure (some r)
      ]
      results ← toggle_each enabled c ks
      pure (result ∷ results)
  ]

  unfoldable pub batch_toggle_printers_enabled :
      List ℕ → Bool → Prog (Printers repo sockets) (List (Option BatchResult))
  unfolding toggle_each
  batch_toggle_printers_enabled ks enabled s = toggle_each enabled s.cache ks s

unfoldable pub get_login_dto : ℕ → Prog PrinterCache LoginDto
unfolding get_cached_printer_or_throw
get_login_dto k = do
  printer ← get_cached_printer_or_throw (number k)
  pure (record {
    printer_url = printer.printer_url;
    api_key = printer.api_key;
    printer_type = printer.printer_type;
  })

-- The clients of the printers' interfaces act on a world `W` of printers.
module _ {W : Type 0} where
  -- The loop that the batch calls share: the login of a printer that is not cached makes the whole call throw,
  -- a call of the client does not.
  unfoldable pub batch_calls :
      {X : Type 0}
      → (LoginDto → X → Prog W (Unit {0}))
      → PrinterCache
      → List (ℕ × X)
      → Prog W (List BatchResult)
  unfolding get_login_dto
  batch_calls act c [] = pure []
  batch_calls act c (kx ∷ kxs) = elim (get_login_dto kx.0 c).0 [
    | throw e ↦ fail e
    | ok login ↦ λ w.
        let (r, w') = act login kx.1 w in
        (do
          results ← batch_calls act c kxs
          pure (elim r [ ok u ↦ success kx.0 | throw e ↦ failure kx.0 e ] ∷ results))
          w'
  ]

  unfoldable pub batch_reprint_calls :
      (LoginDto → String → Prog W (Unit {0}))
      → PrinterCache
      → List (ℕ × String)
      → Prog W (List BatchResult)
  unfolding batch_calls
  batch_reprint_calls start_print = batch_calls start_print

  unfoldable pub batch_connect_usb :
      (LoginDto → Prog W (Unit {0})) → PrinterCache → List ℕ → Prog W (List BatchResult)
  unfolding batch_calls
  batch_connect_usb connect c ks =
      batch_calls (λ login u. connect login) c (map (λ k. (k, tt {0})) ks)
