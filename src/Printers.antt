-- ===== src/Printers.antt =====
-- src/services/orm/printer.service.ts over the table of printers, and src/state/printer.cache.ts, which
-- hears of every change by the events that the service emits. The emitter calls its listeners at once; the
-- store of sockets hears of them after the cache, see Service and Sockets.
-- `normalize_url` and the check of the rules of src/services/validators are parameters.
pub mod Service
pub mod Changed
pub mod Imported
pub mod Batches
pub mod Toggled
pub mod Sockets
mod Tests
use text.Mathlib.Text.{starts_with}
use mathlib.Core.Option
use Prim.Native.String
use d_hub.Base.{
  ℕ, String, Bool, true, not, ◌&&◌, Option, none, some, List, [], ◌∷◌, map, str_eq, if◌then◌else◌,
  length, keep, type_error, not_found_exception, Result, ok, throw, Prog, ◌>>=◌, ◌>>◌, pure, fail,
  detached,
}
use d_hub.KeyDiff.{
  Cache, get_value, set_key_value, set_key_values_batch, delete_keys_batch, get_all_values,
}
use d_hub.KeyDiff.Keys.{Key, string, number, decimal}

-- `feedRate` and `flowRate` are numbers or null.
pub record Printer : Type 0 where
  pub id : ℕ
  pub name : String
  pub printer_url : String
  pub printer_type : ℕ
  pub api_key : String
  pub enabled : Bool
  pub disabled_reason : Option String
  pub date_added : ℕ
  pub feed_rate : Option ℕ
  pub flow_rate : Option ℕ

pub record PrinterDto : Type 0 where
  pub id : ℕ
  pub name : String
  pub enabled : Bool
  pub disabled_reason : Option String
  pub date_added : ℕ

-- `PrinterUnsafeDto`, whose first fields are those of `PrinterDto`.
pub record CachedPrinter : Type 0 where
  pub dto : PrinterDto
  pub api_key : String
  pub printer_url : String
  pub printer_type : ℕ

unfoldable pub to_dto : Printer → PrinterDto
to_dto p = record {
  id = p.id;
  name = p.name;
  enabled = p.enabled;
  disabled_reason = p.disabled_reason;
  date_added = p.date_added;
}

unfoldable pub to_unsafe_dto : Printer → CachedPrinter
unfolding to_dto
to_unsafe_dto p = record {
  dto = to_dto p;
  api_key = p.api_key;
  printer_url = p.printer_url;
  printer_type = p.printer_type;
}

-- What a request gives of a printer: a field that it lacks is `none`.
pub record Partial : Type 0 where
  pub name : Option String
  pub printer_url : Option String
  pub printer_type : Option ℕ
  pub api_key : Option String
  pub enabled : Option Bool
  pub disabled_reason : Option (Option String)
  pub feed_rate : Option ℕ
  pub flow_rate : Option ℕ

abbrev pub no_changes : Partial
no_changes = record {
  name = none;
  printer_url = none;
  printer_type = none;
  api_key = none;
  enabled = none;
  disabled_reason = none;
  feed_rate = none;
  flow_rate = none;
}

-- `Object.assign(printer, partial)`
unfoldable pub assign : Partial → Printer → Printer
assign p r = record r {
  name = Option.get_or p.name r.name;
  printer_url = Option.get_or p.printer_url r.printer_url;
  printer_type = Option.get_or p.printer_type r.printer_type;
  api_key = Option.get_or p.api_key r.api_key;
  enabled = Option.get_or p.enabled r.enabled;
  disabled_reason = Option.get_or p.disabled_reason r.disabled_reason;
  feed_rate = elim p.feed_rate [ none ↦ r.feed_rate | some x ↦ some x ];
  flow_rate = elim p.flow_rate [ none ↦ r.flow_rate | some x ↦ some x ];
}

-- The row that `save` makes of a checked partial printer, by the defaults of the columns.
unfoldable pub row_of : Partial → ℕ → ℕ → Printer
row_of p now k = record {
  id = k;
  name = Option.get_or p.name "";
  printer_url = Option.get_or p.printer_url "";
  printer_type = Option.get_or p.printer_type 0;
  api_key = Option.get_or p.api_key "";
  enabled = Option.get_or p.enabled true;
  disabled_reason = Option.get_or p.disabled_reason none;
  date_added = now;
  feed_rate = p.feed_rate;
  flow_rate = p.flow_rate;
}

-- `normalizeURLWithProtocol` of src/utils/url.utils.ts; `normalize_url` throws on what is no URL.
unfoldable pub normalize_url_with_protocol :
    (String → Option String) → String → Option (Option String)
normalize_url_with_protocol normalize_url url =
    if str_eq url ""
    then some none
    else if not (starts_with url "http://") && not (starts_with url "https://")
    then Option.map some (normalize_url (String.◌++◌ "httpS://" url))
    else Option.map some (normalize_url url)

-- A `printerURL` that is there and not empty is normalised.
unfoldable pub normalized : (String → Option String) → Partial → Result Partial
unfolding normalize_url_with_protocol
normalized normalize_url p = elim p.printer_url [
  | none ↦ ok p
  | some url ↦
      if str_eq url "" then ok p else elim (normalize_url_with_protocol normalize_url url) [
        | none ↦ throw type_error
        | some url' ↦ ok (record p { printer_url = url' })
      ]
]

pub data PrinterEvent : Type 0 where
  printer_created : Printer → PrinterEvent
  -- The entity with the partial printer assigned, and the one that was read back.
  printer_updated : Printer → Printer → PrinterEvent
  batch_printer_created : List Printer → PrinterEvent
  printers_deleted : List Key → PrinterEvent

-- The values that are there.
abbrev pub present : {A : Type 0} → List (Option A) → List A
present [] = []
present (none ∷ xs) = present xs
present (some x ∷ xs) = x ∷ present xs

abbrev pub PrinterCache : Type 0
PrinterCache = Cache CachedPrinter

unfoldable pub key_values : List Printer → List (Key × CachedPrinter)
unfolding to_unsafe_dto
key_values = map (λ p. (string (decimal p.id), to_unsafe_dto p))

-- The handlers of the cache. Only `printer` is read of an update.
unfoldable pub handle : PrinterEvent → PrinterCache → PrinterCache
unfolding to_unsafe_dto set_key_value set_key_values_batch delete_keys_batch key_values
handle (printer_created p) = detached (set_key_value (number p.id) (to_unsafe_dto p) true)
handle (printer_updated p updated) = detached (set_key_value (number p.id) (to_unsafe_dto p) true)
handle (batch_printer_created ps) = set_key_values_batch (key_values ps) true
handle (printers_deleted keys) = delete_keys_batch keys true

unfoldable pub get_cached_printer_or_throw : Key → Prog PrinterCache CachedPrinter
unfolding get_value
get_cached_printer_or_throw key = do
  printer ← get_value key
  elim printer [ none ↦ fail not_found_exception | some p ↦ pure p ]

unfoldable pub get_name : Key → Prog PrinterCache String
unfolding get_cached_printer_or_throw
get_name key = do printer ← get_cached_printer_or_throw key; pure printer.dto.name

unfoldable pub list_cached_printers : Bool → Prog PrinterCache (List CachedPrinter)
unfolding get_all_values
list_cached_printers include_disabled = do
  printers ← get_all_values
  let there = present printers
  pure (if include_disabled then there else keep (λ p. p.dto.enabled) there)

unfoldable pub count_disabled_printers : Prog PrinterCache ℕ
unfolding get_all_values
count_disabled_printers = do
  printers ← get_all_values
  pure (length (keep (λ p. not p.dto.enabled) (present printers)))
