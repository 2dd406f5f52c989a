-- ===== src/FloorStore/Tests.antt =====
-- The floor store with two floors and a printer that moves between them.
use d_hub.Base.{ℕ, ◌≡◌, refl, true, false, any, keep, some, [], ◌∷◌, find, ok}
use d_hub.Base.Dict.{lookup}
use d_hub.Orm.{Repository}
use d_hub.Orm.Table.{in_memory}
use d_hub.Floors.{
  FloorPosition, PositionDto, FloorRow, Floor, on_floor, of_printer, new_position, placed,
}
use d_hub.Floors.Placed.{IsPlaced}
use d_hub.KeyDiff.{get_value}
use d_hub.KeyDiff.Keys.{number, decimal, key_string}
use d_hub.FloorStore.{State, store_printer}
use d_hub.FloorStore.Mirrored.{store_printer_stale}

abbrev floor_rows : Repository FloorRow
floor_rows = in_memory (λ r. r.id)

abbrev position_rows : Repository FloorPosition
position_rows = in_memory (λ p. p.id)

abbrev lower : FloorRow
lower = record { id = 1; name = "Lower"; floor = 0 }

abbrev upper : FloorRow
upper = record { id = 2; name = "Upper"; floor = 1 }

abbrev spot : FloorPosition
spot = record { id = 1; x = 0; y = 1; floor_id = 1; printer_id = 7 }

abbrev cached_lower : Floor
cached_lower = record { id = 1; name = "Lower"; floor = 0; printers = spot ∷ [] }

abbrev before : State floor_rows position_rows
before = record {
  db = record {
    floor_table = lower ∷ upper ∷ [];
    position_table = spot ∷ [];
    printer_ids = 7 ∷ [];
  };
  cache = record {
    deleted_keys = [];
    updated_keys = [];
    key_value_store = ("1", cached_lower) ∷ [];
  };
}

abbrev upstairs : PositionDto
upstairs = record { printer_id = 7; x = 0; y = 0 }

apart : IsPlaced before.db
apart = record { printer = λ k. (λ e. refl, tt); cell = λ f a b. (λ e. refl, tt) }

store_printer_stale_example :
    (k : ℕ) × (s' : State floor_rows position_rows) × ((store_printer 2 upstairs before).1 ≡ s')
    × (find (of_printer 7) (placed s'.db) ≡ some (new_position 2 upstairs k))
    × (any (of_printer 7) (keep (on_floor 1) (placed s'.db)) ≡ false)
    × ((get_value (number 1) s'.cache).0 ≡ ok (some cached_lower))
    × (any (of_printer 7) (spot ∷ []) ≡ true)
unfolding key_string decimal get_value lookup
store_printer_stale_example =
    store_printer_stale 2 1 upstairs before {row = upper} {old = cached_lower} {p = spot} apart refl
      refl refl refl refl refl refl
