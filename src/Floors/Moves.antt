-- ===== src/Floors/Moves.antt =====
-- `addOrUpdatePrinter` of src/services/orm/floor.service.ts: what it keeps and what it does.
use d_hub.Base.{
  ℕ, ◌≡◌, ◌∙◌, ◌≢◌, ◌⊎◌, error, inl, inr, true, false, Option, none, some, List, arith, ◌==◌,
  ==_iff, ==_refl, Bool-cases, Option-cases, keep, find, any, entity_not_found_error, ok, throw,
}
use d_hub.Orm.{Repository}
use d_hub.Orm.Lists.{AtMostOne, find_holds, AtMostOne-append, find-append}
use d_hub.Orm.Rows.{get_found, get_missing}
use d_hub.Floors.{
  FloorPosition, PositionDto, FloorRow, on_floor, of_printer, in_cell, is_settled, settled,
  new_position, Db, placed, is_printer, get_floor, find_position_by, place, add_or_update_printer,
}
use d_hub.Floors.Placed.{
  left, cleared, moved, any-left, AtMostOne-left, any-left-false, IsPlaced, place_lem,
  place_refused,
}

in_cell_new :
    (f a b : ℕ) (dto : PositionDto) (g k : ℕ)
    → in_cell f a b (new_position g dto k) ≡ true
    → (g ≡ f) × (dto.x ≡ a) × (dto.y ≡ b)
in_cell_new f a b dto g k h = (ground arith, ground arith, ground arith)

module _ (id : FloorPosition → ℕ) (f : ℕ) (dto : PositionDto) (k : ℕ) (xs : List FloorPosition)
    (printer : (j : ℕ) → AtMostOne (of_printer j) xs)
    (cell : (g a b : ℕ) → AtMostOne (in_cell g a b) xs) where
  abbrev freed : List FloorPosition
  freed = left id (find (of_printer dto.printer_id) xs) xs

  cell_freed : AtMostOne (in_cell f dto.x dto.y) freed
  cell_freed =
      AtMostOne-left id (in_cell f dto.x dto.y) (find (of_printer dto.printer_id) xs) xs
        (cell f dto.x dto.y)

  pub printer_gone :
      any (of_printer dto.printer_id) (left id (find (in_cell f dto.x dto.y) freed) freed) ≡ false
  printer_gone =
      any-left-false id (of_printer dto.printer_id) (find (in_cell f dto.x dto.y) freed) freed
        (any-left id (of_printer dto.printer_id) xs (printer dto.printer_id))

  cleared-printer : (j : ℕ) → AtMostOne (of_printer j) (cleared id f dto xs)
  cleared-printer j =
      AtMostOne-left id (of_printer j) (find (in_cell f dto.x dto.y) freed) freed
        (AtMostOne-left id (of_printer j) (find (of_printer dto.printer_id) xs) xs (printer j))

  cleared-cell : (g a b : ℕ) → AtMostOne (in_cell g a b) (cleared id f dto xs)
  cleared-cell g a b =
      AtMostOne-left id (in_cell g a b) (find (in_cell f dto.x dto.y) freed) freed
        (AtMostOne-left id (in_cell g a b) (find (of_printer dto.printer_id) xs) xs (cell g a b))

  cell_gone : any (in_cell f dto.x dto.y) (cleared id f dto xs) ≡ false
  cell_gone = any-left id (in_cell f dto.x dto.y) freed cell_freed

  moved-printer : (j : ℕ) → AtMostOne (of_printer j) (moved id f dto k xs)
  unfolding moved
  moved-printer j =
      AtMostOne-append (of_printer j) _ (new_position f dto k) (cleared-printer j)
        λ e. rw (← (==_iff dto.printer_id j).0 e) printer_gone

  moved-cell : (g a b : ℕ) → AtMostOne (in_cell g a b) (moved id f dto k xs)
  unfolding moved
  moved-cell g a b =
      AtMostOne-append (in_cell g a b) _ (new_position f dto k) (cleared-cell g a b)
        λ e. let (p, q, r) = in_cell_new g a b dto f k e in rw (← p, ← q, ← r) cell_gone

  find-moved : find (of_printer dto.printer_id) (moved id f dto k xs) ≡ some (new_position f dto k)
  unfolding moved
  find-moved =
      find-append (of_printer dto.printer_id) _ (new_position f dto k) printer_gone
        (==_refl dto.printer_id)

module _ {floors : Repository FloorRow} {positions : Repository FloorPosition} where
  get_floor_found :
      (f : ℕ) (db : Db floors positions) {row : FloorRow}
      → find (λ r. floors.id r == f) (floors.rows db.floor_table) ≡ some row
      → get_floor f db ≡ (
        ok (record {
          id = row.id;
          name = row.name;
          floor = row.floor;
          printers = keep (on_floor f) (placed db);
        }),
        db,
      )
  unfolding get_floor
  get_floor_found f db {row} e = ground (
    arith,
    get_found floors f true db.floor_table e,
    positions.find_by_lem (on_floor f) db.position_table,
  )

  get_floor_missing :
      (f : ℕ) (db : Db floors positions)
      → find (λ r. floors.id r == f) (floors.rows db.floor_table) ≡ none
      → get_floor f db ≡ (throw entity_not_found_error, db)
  unfolding get_floor
  get_floor_missing f db e = ground (arith, get_missing floors f true db.floor_table e)

  module _ (f : ℕ) (dto : PositionDto) (db : Db floors positions) where
    abbrev old : Option FloorPosition
    old = find (of_printer dto.printer_id) (placed db)

    add_missing :
        find (λ r. floors.id r == f) (floors.rows db.floor_table) ≡ none
        → add_or_update_printer f dto db ≡ (throw entity_not_found_error, db)
    unfolding add_or_update_printer
    add_missing e = ground (arith, get_floor_missing f db e)

    add_settled :
        {row : FloorRow}
        → find (λ r. floors.id r == f) (floors.rows db.floor_table) ≡ some row
        → settled f dto old ≡ true
        → add_or_update_printer f dto db ≡ get_floor f db
    unfolding add_or_update_printer find_position_by
    add_settled e s = ground (
      arith,
      get_floor_found f db e,
      positions.find_one_by_lem (of_printer dto.printer_id) db.position_table,
      s,
    )

    add_placed :
        {row : FloorRow}
        → find (λ r. floors.id r == f) (floors.rows db.floor_table) ≡ some row
        → settled f dto old ≡ false
        → add_or_update_printer f dto db ≡ place f dto old db
    unfolding add_or_update_printer find_position_by
    add_placed e s = ground (
      arith,
      get_floor_found f db e,
      positions.find_one_by_lem (of_printer dto.printer_id) db.position_table,
      s,
    )

  get_floor_state : (f : ℕ) (db : Db floors positions) → (get_floor f db).1 ≡ db
  get_floor_state f db =
      elim (Option-cases (find (λ r. floors.id r == f) (floors.rows db.floor_table))) [
        | inl e ↦ rw (get_floor_missing f db e)
        | inr (row, e) ↦ rw (get_floor_found f db e)
      ]

  place-IsPlaced :
      (f : ℕ) (dto : PositionDto) (db : Db floors positions)
      → IsPlaced db
      → IsPlaced (place f dto (find (of_printer dto.printer_id) (placed db)) db).1
  place-IsPlaced f dto db h = elim (Bool-cases (is_printer dto.printer_id db)) [
    | inl known ↦
        let (k, t, e, r) = place_lem f dto db known in
        rw (e, get_floor_state f (record db { position_table = t }))
          (record {
            printer = λ j. rw r (moved-printer positions.id f dto k (placed db) h.printer h.cell j);
            cell =
                λ g a b. rw r (moved-cell positions.id f dto k (placed db) h.printer h.cell g a b);
          })
    | inr unknown ↦
        let (t, e, r) = place_refused f dto db unknown in
        rw e (record {
          printer = λ j. rw r (cleared-printer positions.id f dto 0 (placed db) h.printer h.cell j);
          cell =
              λ g a b. rw r (cleared-cell positions.id f dto 0 (placed db) h.printer h.cell g a b);
        })
  ]

  -- Whatever floor and position are asked for, and also when the floor or the printer is missing: if each printer
  -- has one position at most and each cell of a floor one printer at most, this still holds after
  -- `addOrUpdatePrinter`.
  pub add_or_update_printer-IsPlaced :
      (f : ℕ) (dto : PositionDto) (db : Db floors positions)
      → IsPlaced db
      → IsPlaced (add_or_update_printer f dto db).1
  add_or_update_printer-IsPlaced f dto db h =
      elim (Option-cases (find (λ r. floors.id r == f) (floors.rows db.floor_table))) [
        | inl e ↦ rw (add_missing f dto db e) h
        | inr (row, e) ↦
            elim (Bool-cases (settled f dto (find (of_printer dto.printer_id) (placed db)))) [
              | inl s ↦ rw (add_settled f dto db e s, get_floor_state f db) h
              | inr s ↦ rw (add_placed f dto db e s) (place-IsPlaced f dto db h)
            ]
      ]

  -- A move of a printer that is there.
  pub moves_known :
      (f : ℕ) (dto : PositionDto) (db : Db floors positions) {row : FloorRow}
      → IsPlaced db
      → find (λ r. floors.id r == f) (floors.rows db.floor_table) ≡ some row
      → settled f dto (find (of_printer dto.printer_id) (placed db)) ≡ false
      → is_printer dto.printer_id db ≡ true
      → (k : ℕ) × (db' : Db floors positions) × (add_or_update_printer f dto db ≡ (
        ok (record {
          id = row.id;
          name = row.name;
          floor = row.floor;
          printers = keep (on_floor f) (placed db');
        }),
        db',
      ))
        × (find (of_printer dto.printer_id) (placed db') ≡ some (new_position f dto k))
        × AtMostOne (of_printer dto.printer_id) (placed db')
  moves_known f dto db {row} h e s known =
      let (k, t, p, r) = place_lem f dto db known in
      (
        k,
        record db { position_table = t },
        add_placed f dto db e s ∙ p ∙ get_floor_found f (record db { position_table = t }) e,
        rw r (find-moved positions.id f dto k (placed db) h.printer h.cell),
        rw r (moved-printer positions.id f dto k (placed db) h.printer h.cell dto.printer_id),
      )

  -- On a floor that exists, with the printers placed apart, and with the early return not taken: if the
  -- printer is there, its only position is then the one asked for, and the answer lists the floor's
  -- positions; if it is not, the call throws, and the cell asked for has lost its occupant, and the
  -- printer its position.
  pub add_or_update_printer-moves :
      (f : ℕ) (dto : PositionDto) (db : Db floors positions) {row : FloorRow}
      → IsPlaced db
      → find (λ r. floors.id r == f) (floors.rows db.floor_table) ≡ some row
      → settled f dto (find (of_printer dto.printer_id) (placed db)) ≡ false
      → ((is_printer dto.printer_id db ≡ true)
          × ((k : ℕ) × (db' : Db floors positions) × (add_or_update_printer f dto db ≡ (
            ok (record {
              id = row.id;
              name = row.name;
              floor = row.floor;
              printers = keep (on_floor f) (placed db');
            }),
            db',
          ))
              × (find (of_printer dto.printer_id) (placed db') ≡ some (new_position f dto k))
              × AtMostOne (of_printer dto.printer_id) (placed db')))
        ⊎ ((is_printer dto.printer_id db ≡ false)
            × ((db' : Db floors positions) × (add_or_update_printer f dto db ≡ (throw error, db'))
                × (any (of_printer dto.printer_id) (placed db') ≡ false)
                × (any (in_cell f dto.x dto.y) (placed db') ≡ false)))
  add_or_update_printer-moves f dto db {row} h e s =
      elim (Bool-cases (is_printer dto.printer_id db)) [
        | inl known ↦ inl (known, moves_known f dto db {row = row} h e s known)
        | inr unknown ↦
            let (t, p, r) = place_refused f dto db unknown in
            inr (
              unknown,
              (
                record db { position_table = t },
                add_placed f dto db e s ∙ p,
                rw r (printer_gone positions.id f dto 0 (placed db) h.printer h.cell),
                rw r (cell_gone positions.id f dto 0 (placed db) h.printer h.cell),
              ),
            )
      ]

  -- The test of the early return reads `x` where it means `y`: a printer at (a, b), with b other than
  -- a, that is to move to (a, a) of its floor, stays where it is, though the call succeeds.
  pub diagonal_move_ignored :
      (f k a : ℕ) (db : Db floors positions) {row : FloorRow} {p : FloorPosition}
      → find (λ r. floors.id r == f) (floors.rows db.floor_table) ≡ some row
      → find (of_printer k) (placed db) ≡ some p
      → p.floor_id ≡ f
      → p.x ≡ a
      → p.y ≢ a
      → (in_cell f a a p ≡ false)
        × (add_or_update_printer f (record { printer_id = k; x = a; y = a }) db ≡ (
          ok (record {
            id = row.id;
            name = row.name;
            floor = row.floor;
            printers = keep (on_floor f) (placed db);
          }),
          db,
        ))
  diagonal_move_ignored f k a db {row} {p} e h on at off =
      let dto : PositionDto = record { printer_id = k; x = a; y = a } in
      (
        ground arith,
        add_settled f dto db e
              (rw h (unfold is_settled in ground (arith, find_holds (of_printer k) (placed db) h)))
            ∙ get_floor_found f db e,
      )
