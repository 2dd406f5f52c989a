-- ===== src/Floors.antt =====
-- src/services/orm/floor.service.ts and src/services/orm/floor-position.service.ts over the table of
-- floors and the table of printer positions. Ids, coordinates and levels are natural numbers.
pub mod Placed
pub mod Moves
pub mod Tests
use d_hub.Orm
use d_hub.Base.{
  ℕ, String, Bool, true, false, not, ◌&&◌, Option, none, some, List, [], ◌∷◌, map, ◌==◌,
  if◌then◌else◌, is_some, keep, any, error, not_found_exception, validation_exception, Prog, ◌>>=◌,
  ◌>>◌, pure, fail, modify, gets,
}
use d_hub.Orm.{Repository}

-- src/entities/floor-position.entity.ts
pub record FloorPosition : Type 0 where
  pub id : ℕ
  pub x : ℕ
  pub y : ℕ
  pub floor_id : ℕ
  pub printer_id : ℕ

pub record PositionDto : Type 0 where
  pub printer_id : ℕ
  pub x : ℕ
  pub y : ℕ

-- A row of the table of floors; the relation `printers` is read from the positions.
pub record FloorRow : Type 0 where
  pub id : ℕ
  pub name : String
  pub floor : ℕ

pub record Floor : Type 0 where
  pub id : ℕ
  pub name : String
  pub floor : ℕ
  pub printers : List FloorPosition

abbrev pub on_floor : ℕ → FloorPosition → Bool
on_floor f p = p.floor_id == f

abbrev pub of_printer : ℕ → FloorPosition → Bool
of_printer k p = p.printer_id == k

abbrev pub in_cell : ℕ → ℕ → ℕ → FloorPosition → Bool
in_cell f a b p = p.floor_id == f && (p.x == a && p.y == b)

-- The test before the early return of `addOrUpdatePrinter`, which reads `position.x` twice.
unfoldable pub is_settled : ℕ → PositionDto → FloorPosition → Bool
is_settled f dto p =
    p.floor_id == f && (p.x == dto.x && (p.x == dto.y && p.printer_id == dto.printer_id))

abbrev pub settled : ℕ → PositionDto → Option FloorPosition → Bool
settled f dto none = false
settled f dto (some p) = is_settled f dto p

abbrev pub new_position : ℕ → PositionDto → ℕ → FloorPosition
new_position f dto k = record {
  id = k;
  x = dto.x;
  y = dto.y;
  floor_id = f;
  printer_id = dto.printer_id;
}

abbrev pub to_position_dto : FloorPosition → PositionDto
to_position_dto p = record { printer_id = p.printer_id; x = p.x; y = p.y }

module _ (floors : Repository FloorRow) (positions : Repository FloorPosition) where
  pub record Db : Type 0 where
    pub floor_table : floors.Table
    pub position_table : positions.Table
    -- The ids in the table of printers, which the foreign key of a position refers to.
    pub printer_ids : List ℕ

module _ {floors : Repository FloorRow} {positions : Repository FloorPosition} where
  abbrev pub is_printer : ℕ → Db floors positions → Bool
  is_printer k db = any (λ j. j == k) db.printer_ids

  abbrev in_positions : {A : Type 0} → Prog positions.Table A → Prog (Db floors positions) A
  in_positions m db = let (r, t) = m db.position_table in (r, record db { position_table = t })

  abbrev in_floors : {A : Type 0} → Prog floors.Table A → Prog (Db floors positions) A
  in_floors m db = let (r, t) = m db.floor_table in (r, record db { floor_table = t })

  abbrev pub placed : Db floors positions → List FloorPosition
  placed db = positions.rows db.position_table

  unfoldable pub get_floor : ℕ → Prog (Db floors positions) Floor
  get_floor f = do
    row ← in_floors (Orm.get floors f true)
    gets λ db. record {
      id = row.id;
      name = row.name;
      floor = row.floor;
      printers = positions.find_by (on_floor f) db.position_table;
    }

  pub find_position_by : (FloorPosition → Bool) → Prog (Db floors positions) (Option FloorPosition)
  find_position_by p = gets λ db. positions.find_one_by p db.position_table

  -- "Clean up": a position that was found is deleted by its id.
  pub clean_up : Option FloorPosition → Prog (Db floors positions) (Unit {0})
  clean_up none = pure tt
  clean_up (some p) = in_positions (Orm.delete positions (positions.id p))

  -- The database refuses a position of a printer that is not there, after the deletions. The floor is
  -- there, and the deletions leave its cell free.
  pub place : ℕ → PositionDto → Option FloorPosition → Prog (Db floors positions) Floor
  unfolding get_floor find_position_by clean_up
  place f dto position = do
    clean_up position
    xy_position ← find_position_by (in_cell f dto.x dto.y)
    clean_up xy_position
    known ← gets (is_printer dto.printer_id)
    if known then pure tt else fail error
    _ ← in_positions (Orm.create positions (new_position f dto))
    get_floor f

  unfoldable pub add_or_update_printer : ℕ → PositionDto → Prog (Db floors positions) Floor
  unfolding get_floor find_position_by place
  add_or_update_printer f dto = do
    _ ← get_floor f
    position ← find_position_by (of_printer dto.printer_id)
    if settled f dto position then get_floor f else place f dto position

  unfoldable pub remove_printer : ℕ → ℕ → Prog (Db floors positions) Floor
  unfolding get_floor find_position_by clean_up
  remove_printer f k = do
    position ← find_position_by (λ p. on_floor f p && of_printer k p)
    if is_some position then pure tt else fail not_found_exception
    clean_up position
    get_floor f

  unfoldable pub delete_printer_from_any_floor : ℕ → Prog (Db floors positions) (Unit {0})
  delete_printer_from_any_floor k = in_positions (modify (positions.delete (of_printer k)))

  pub add_or_update_each : ℕ → List PositionDto → Prog (Db floors positions) (Unit {0})
  unfolding add_or_update_printer
  add_or_update_each f [] = pure tt
  add_or_update_each f (dto ∷ dtos) = do _ ← add_or_update_printer f dto; add_or_update_each f dtos

  -- `validateInput` is the validator of a package: `valid` says whether it accepts.
  unfoldable pub update_floor :
      (String → ℕ → List PositionDto → Bool)
      → ℕ
      → String
      → ℕ
      → List PositionDto
      → Prog (Db floors positions) Floor
  unfolding get_floor add_or_update_each
  update_floor valid f name level desired = do
    floor ← get_floor f
    if valid name level desired then pure tt else fail validation_exception
    add_or_update_each floor.id desired
    in_positions (
        modify (
          positions.delete (λ p.
            any (λ q. positions.id q == positions.id p)
              (keep (λ q. not (any (λ d. d.printer_id == q.printer_id) desired)) floor.printers))))
    _ ←
        in_floors
          (Orm.update_row floors f (λ r. record { id = floor.id; name = name; floor = level }))
    get_floor f

  unfoldable pub update_name :
      (String → ℕ → List PositionDto → Bool) → ℕ → String → Prog (Db floors positions) Floor
  unfolding get_floor update_floor
  update_name valid f name = do
    floor ← get_floor f
    update_floor valid f name floor.floor (map to_position_dto floor.printers)

  unfoldable pub update_level :
      (String → ℕ → List PositionDto → Bool) → ℕ → ℕ → Prog (Db floors positions) Floor
  unfolding get_floor update_floor
  update_level valid f level = do
    floor ← get_floor f
    update_floor valid f floor.name level (map to_position_dto floor.printers)

  -- `create`, and `createDefaultFloor`, which reads the new floor once more.
  unfoldable pub create_floor :
      (String → ℕ → List PositionDto → Bool)
      → String
      → ℕ
      → List PositionDto
      → Prog (Db floors positions) Floor
  unfolding get_floor add_or_update_each
  create_floor valid name level dtos = do
    if valid name level dtos then pure tt else fail validation_exception
    row ← in_floors (Orm.create floors (λ k. record { id = k; name = name; floor = level }))
    add_or_update_each row.id dtos
    get_floor row.id

  unfoldable pub create_default_floor :
      (String → ℕ → List PositionDto → Bool) → Prog (Db floors positions) Floor
  unfolding get_floor create_floor
  create_default_floor valid = do
    floor ← create_floor valid "Default Floor" 0 []
    get_floor floor.id
