-- ===== src/Floors/Placed.antt =====
-- The positions that src/services/orm/floor.service.ts leaves behind.
use d_hub.Orm
use d_hub.Base.{
  ℕ, ◌≡◌, refl, ap, ◌∙◌, inl, inr, Bool, false, not, Option, none, some, List, [], ◌∷◌, ◌++◌, arith,
  ◌==◌, ==_refl, Option-cases, keep, find, any, any-keep-false, true, error, ok, throw,
  if◌then◌else◌,
}
use d_hub.Orm.{Repository}
use d_hub.Orm.Lists.{AtMostOne, find-none, find-is_some, any-keep_found, AtMostOne-keep}
use d_hub.Orm.Rows.{delete_found}
use d_hub.Floors.{
  FloorPosition, PositionDto, FloorRow, of_printer, in_cell, new_position, Db, placed, is_printer,
  get_floor, find_position_by, clean_up, place,
}

-- Without the position, by its id.
abbrev pub left :
    (FloorPosition → ℕ) → Option FloorPosition → List FloorPosition → List FloorPosition
left id none xs = xs
left id (some p) xs = keep (λ r. not (id r == id p)) xs

-- The rows without the printer's old position and the occupant of its new cell.
abbrev pub cleared : (FloorPosition → ℕ) → ℕ → PositionDto → List FloorPosition → List FloorPosition
cleared id f dto xs =
    let freed = left id (find (of_printer dto.printer_id) xs) xs in
    left id (find (in_cell f dto.x dto.y) freed) freed

-- The rows after a move: the new position, with the id `k`, stands at the end.
unfoldable pub moved :
    (FloorPosition → ℕ) → ℕ → PositionDto → ℕ → List FloorPosition → List FloorPosition
moved id f dto k xs = cleared id f dto xs ++ new_position f dto k ∷ []

module _ (id : FloorPosition → ℕ) (p : FloorPosition → Bool) where
  pub any-left : (xs : List FloorPosition) → AtMostOne p xs → any p (left id (find p xs) xs) ≡ false
  any-left xs m = elim (Option-cases (find p xs)) [
    | inl e ↦ rw e (find-none p xs e)
    | inr (a, e) ↦
        rw e (any-keep_found p (λ r. not (id r == id a)) xs m e (rw (==_refl (id a)) refl))
  ]

  pub AtMostOne-left :
      (o : Option FloorPosition) (xs : List FloorPosition)
      → AtMostOne p xs
      → AtMostOne p (left id o xs)
  AtMostOne-left none xs m = m
  AtMostOne-left (some a) xs m = AtMostOne-keep p (λ r. not (id r == id a)) xs m

  pub any-left-false :
      (o : Option FloorPosition) (xs : List FloorPosition)
      → any p xs ≡ false
      → any p (left id o xs) ≡ false
  any-left-false none xs h = h
  any-left-false (some a) xs h = any-keep-false p (λ r. not (id r == id a)) xs h

module _ {floors : Repository FloorRow} {positions : Repository FloorPosition} where
  -- A printer has one position at most, and a cell of a floor one printer at most.
  pub record IsPlaced (db : Db floors positions) : Type 0 where
    pub printer : (k : ℕ) → AtMostOne (of_printer k) (placed db)
    pub cell : (f a b : ℕ) → AtMostOne (in_cell f a b) (placed db)

  clean_up_lem :
      (q : FloorPosition → Bool) (o : Option FloorPosition) (db : Db floors positions)
      → find q (placed db) ≡ o
      → (t : positions.Table) × (clean_up o db ≡ (ok tt, record db { position_table = t }))
        × (positions.rows t ≡ left positions.id o (placed db))
  unfolding clean_up
  clean_up_lem q none db e = (db.position_table, refl, refl)
  clean_up_lem q (some p) db e =
      let (r, f) =
        find-is_some q (λ r. positions.id r == positions.id p) (placed db) e
          (==_refl (positions.id p)) in
      (
        positions.delete (λ r. positions.id r == positions.id p) db.position_table,
        rw (delete_found positions (positions.id p) db.position_table f),
        positions.rows-delete _ _,
      )

  get_floor_state : (f : ℕ) (db : Db floors positions) → (get_floor f db).1 ≡ db
  unfolding get_floor Orm.get
  get_floor_state f db = ground arith

  module _ (f : ℕ) (dto : PositionDto) (db : Db floors positions) where
    -- Both deletions done, with what they leave in `t`.
    place_from :
        (o₁ o₂ : Option FloorPosition) (t₁ t₂ : positions.Table)
        → clean_up o₁ db ≡ (ok tt, record db { position_table = t₁ })
        → positions.find_one_by (in_cell f dto.x dto.y) t₁ ≡ o₂
        → clean_up o₂ (record db { position_table = t₁ })
          ≡ (ok tt, record db { position_table = t₂ })
        → place f dto o₁ db ≡ (
            if is_printer dto.printer_id db
            then get_floor f (record db { position_table = positions.save (new_position f dto) t₂ })
            else (throw error, record db { position_table = t₂ }))
    unfolding place find_position_by Orm.create
    place_from o₁ o₂ t₁ t₂ e₁ q e₂ = ground arith

    cleared_from :
        (t : positions.Table) × (place f dto (find (of_printer dto.printer_id) (placed db)) db ≡ (
          if is_printer dto.printer_id db
          then get_floor f (record db { position_table = positions.save (new_position f dto) t })
          else (throw error, record db { position_table = t })))
        × (positions.rows t ≡ cleared positions.id f dto (placed db))
    cleared_from =
        let o₁ = find (of_printer dto.printer_id) (placed db) in
        let (t₁, e₁, r₁) = clean_up_lem (of_printer dto.printer_id) o₁ db refl in
        let o₂ = find (in_cell f dto.x dto.y) (positions.rows t₁) in
        let (t₂, e₂, r₂) =
          clean_up_lem (in_cell f dto.x dto.y) o₂ (record db { position_table = t₁ }) refl in
        (
          t₂,
          place_from o₁ o₂ t₁ t₂ e₁ (positions.find_one_by_lem (in_cell f dto.x dto.y) t₁) e₂,
          r₂ ∙ ap (λ l. left positions.id (find (in_cell f dto.x dto.y) l) l) r₁,
        )

    -- A move of a printer that is there replaces the rows by `moved`, and ends with a read of the floor.
    pub place_lem :
        is_printer dto.printer_id db ≡ true
        → (k : ℕ) × (t : positions.Table) × (place f dto
              (find (of_printer dto.printer_id) (placed db))
              db
            ≡ get_floor f (record db { position_table = t }))
          × (positions.rows t ≡ moved positions.id f dto k (placed db))
    unfolding moved
    place_lem h =
        let (t, e, r) = cleared_from in
        (
          positions.next_id t,
          positions.save (new_position f dto) t,
          rw e (rw h refl),
          positions.rows-save (new_position f dto) t
              ∙ ap (λ l. l ++ new_position f dto (positions.next_id t) ∷ []) r,
        )

    -- A move of a printer that is not there throws after the deletions.
    pub place_refused :
        is_printer dto.printer_id db ≡ false
        → (t : positions.Table) × (place f dto (find (of_printer dto.printer_id) (placed db)) db
            ≡ (throw error, record db { position_table = t }))
          × (positions.rows t ≡ cleared positions.id f dto (placed db))
    place_refused h = let (t, e, r) = cleared_from in (t, rw e (rw h refl), r)
