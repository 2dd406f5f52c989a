-- ===== src/Floors/Tests.antt =====
-- The floor service on tables in memory.
use d_hub.Orm
use d_hub.Base.{
  ℕ, ◌≡◌, ◌⊎◌, refl, true, false, any, error, throw, some, [], ◌∷◌, arith, keep, find, ok,
}
use d_hub.Orm.{Repository}
use d_hub.Orm.Lists.{AtMostOne}
use d_hub.Orm.Table.{above, in_memory}
use d_hub.Floors.{
  FloorPosition, PositionDto, FloorRow, on_floor, of_printer, in_cell, is_printer, is_settled,
  new_position, Db, placed, get_floor, add_or_update_printer, update_name,
}
use d_hub.Floors.Placed.{IsPlaced}
use d_hub.Floors.Moves.{add_or_update_printer-IsPlaced, add_or_update_printer-moves}

abbrev floor_repo : Repository FloorRow
floor_repo = in_memory (λ r. r.id)

abbrev position_repo : Repository FloorPosition
position_repo = in_memory (λ p. p.id)

abbrev ground_floor : FloorRow
ground_floor = record { id = 1; name = "Ground"; floor = 0 }

abbrev at : ℕ → ℕ → ℕ → FloorPosition
at k a b = record { id = k; x = a; y = b; floor_id = 1; printer_id = k }

abbrev two_printers : Db floor_repo position_repo
two_printers = record {
  floor_table = ground_floor ∷ [];
  position_table = at 1 0 0 ∷ at 2 2 5 ∷ [];
  printer_ids = 1 ∷ 2 ∷ [];
}

abbrev to_origin : PositionDto
to_origin = record { printer_id = 2; x = 0; y = 0 }

-- The occupant of the cell is removed.
swap_in :
    (add_or_update_printer 1 to_origin two_printers).1.position_table
    ≡ record (at 1 0 0) { printer_id = 2 } ∷ []
unfolding add_or_update_printer Orm.get Orm.delete Orm.create get_floor is_settled above
swap_in = refl

renamed :
    (update_name (λ n l d. true) 1 "First" two_printers).1.floor_table
    ≡ record { id = 1; name = "First"; floor = 0 } ∷ []
unfolding update_name add_or_update_printer Orm.get Orm.delete Orm.create Orm.update_row get_floor
    is_settled above
renamed = refl

apart : IsPlaced two_printers
apart = record {
  printer = λ k. (λ e. ground (arith, e), (λ e. refl, tt));
  cell = λ f a b. (λ e. ground (arith, e), (λ e. refl, tt));
}

add_or_update_printer-IsPlaced_example : IsPlaced (add_or_update_printer 1 to_origin two_printers).1
add_or_update_printer-IsPlaced_example =
    add_or_update_printer-IsPlaced 1 to_origin two_printers apart

-- A printer that is not there takes the cell from its occupant all the same.
unknown_printer :
    let (r, db) = add_or_update_printer 1 (record to_origin { printer_id = 9 }) two_printers in
    (r ≡ throw error) × (db.position_table ≡ at 2 2 5 ∷ [])
unfolding add_or_update_printer Orm.get Orm.delete Orm.create get_floor is_settled above
unknown_printer = (refl, refl)

add_or_update_printer-moves_example :
    ((is_printer 2 two_printers ≡ true)
      × ((k : ℕ) × (db' : Db floor_repo position_repo) × (add_or_update_printer 1 to_origin
              two_printers
            ≡ (
              ok (record {
                id = 1;
                name = "Ground";
                floor = 0;
                printers = keep (on_floor 1) (placed db');
              }),
              db',
            ))
          × (find (of_printer 2) (placed db') ≡ some (new_position 1 to_origin k))
          × AtMostOne (of_printer 2) (placed db')))
    ⊎ ((is_printer 2 two_printers ≡ false)
        × ((db' : Db floor_repo position_repo) × (add_or_update_printer 1 to_origin two_printers
              ≡ (throw error, db'))
            × (any (of_printer 2) (placed db') ≡ false)
            × (any (in_cell 1 0 0) (placed db') ≡ false)))
unfolding is_settled
add_or_update_printer-moves_example =
    add_or_update_printer-moves 1 to_origin two_printers {row = ground_floor} apart refl refl
