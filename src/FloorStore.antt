-- ===== src/FloorStore.antt =====
-- src/state/floor.store.ts: the key diff cache of floors over the floor service. The cache is changed
-- only after the service has returned.
pub mod Mirrored
mod Tests
use d_hub.Orm
use d_hub.Base.{
  ℕ, String, Bool, true, Option, none, some, List, [], ◌∷◌, map, ok, throw, Prog, ◌>>=◌, ◌>>◌, pure,
}
use d_hub.Orm.{Repository}
use d_hub.Floors.{
  FloorPosition, PositionDto, FloorRow, Floor, on_floor, Db, get_floor, add_or_update_printer,
  remove_printer, delete_printer_from_any_floor, update_floor, update_name, update_level,
  create_floor, create_default_floor,
}
use d_hub.KeyDiff.{
  Cache, get_value, set_key_value, delete_key_value, set_key_values_batch, get_all_values,
}
use d_hub.KeyDiff.Keys.{string, number, decimal}

module _ (floors : Repository FloorRow) (positions : Repository FloorPosition) where
  pub record State : Type 0 where
    pub db : Db floors positions
    pub cache : Cache Floor

module _ {floors : Repository FloorRow} {positions : Repository FloorPosition} where
  -- The inherited `delete`; the positions go with their floor by `onDelete: "CASCADE"`.
  unfoldable pub delete_floor : ℕ → Prog (Db floors positions) (Unit {0})
  unfolding Orm.delete
  delete_floor f d =
      let (r, t) = Orm.delete floors f d.floor_table in
      elim r [
        | throw e ↦ (throw e, record d { floor_table = t })
        | ok u ↦ (
          ok tt,
          record d {
            floor_table = t;
            position_table = positions.delete (on_floor f) d.position_table;
          },
        )
      ]

  abbrev pub in_service :
      {A : Type 0} → Prog (Db floors positions) A → Prog (State floors positions) A
  in_service m s = let (r, d) = m s.db in (r, record s { db = d })

  abbrev pub in_cache : {A : Type 0} → Prog (Cache Floor) A → Prog (State floors positions) A
  in_cache m s = let (r, c) = m s.cache in (r, record s { cache = c })

  -- `setKeyValue(floorId, floorDto, true)` of what the service answers.
  unfoldable pub answer_cached :
      ℕ → Prog (Db floors positions) Floor → Prog (State floors positions) Floor
  unfolding set_key_value
  answer_cached f m = do
    floor ← in_service m
    in_cache (set_key_value (number f) floor true)
    pure floor

  abbrev pub own_id_cached : Prog (Db floors positions) Floor → Prog (State floors positions) Floor
  own_id_cached m = do
    floor ← in_service m
    in_cache (set_key_value (number floor.id) floor true)
    pure floor

  -- `list`, with the relation to the positions.
  abbrev pub list_floors : Db floors positions → List Floor
  list_floors d =
      map
        (λ r. record {
          id = r.id;
          name = r.name;
          floor = r.floor;
          printers = positions.find_by (on_floor r.id) d.position_table;
        })
        (floors.rows d.floor_table)

  unfoldable pub load_store :
      (String → ℕ → List PositionDto → Bool) → Prog (State floors positions) (Unit {0})
  unfolding set_key_value set_key_values_batch
  load_store valid s = elim (list_floors s.db) [
    | [] ↦ (own_id_cached (create_default_floor valid) >>= λ floor. pure tt) s
    | f ∷ fs ↦ (
      ok tt,
      record s {
        cache = set_key_values_batch (map (λ x. (string (decimal x.id), x)) (f ∷ fs)) true s.cache;
      },
    )
  ]

  unfoldable pub list_cache :
      (String → ℕ → List PositionDto → Bool) → Prog (State floors positions) (List (Option Floor))
  unfolding load_store get_all_values
  list_cache valid = do
    cached ← in_cache get_all_values
    elim cached [ [] ↦ load_store valid >>= λ u. in_cache get_all_values | f ∷ fs ↦ pure (f ∷ fs) ]

  unfoldable pub create_cached :
      (String → ℕ → List PositionDto → Bool)
      → String
      → ℕ
      → List PositionDto
      → Prog (State floors positions) Floor
  unfolding create_floor set_key_value
  create_cached valid name level dtos = own_id_cached (create_floor valid name level dtos)

  unfoldable pub delete_cached : ℕ → Prog (State floors positions) (Unit {0})
  unfolding delete_floor delete_key_value
  delete_cached f = do in_service (delete_floor f); in_cache (delete_key_value (number f) true)

  unfoldable pub cached_floor : ℕ → Prog (State floors positions) Floor
  unfolding get_value answer_cached get_floor
  cached_floor f = do
    found ← in_cache (get_value (number f))
    elim found [ some floor ↦ pure floor | none ↦ answer_cached f (get_floor f) ]

  unfoldable pub update_cached :
      (String → ℕ → List PositionDto → Bool)
      → ℕ
      → String
      → ℕ
      → List PositionDto
      → Prog (State floors positions) Floor
  unfolding answer_cached update_floor
  update_cached valid f name level dtos = answer_cached f (update_floor valid f name level dtos)

  unfoldable pub store_update_name :
      (String → ℕ → List PositionDto → Bool) → ℕ → String → Prog (State floors positions) Floor
  unfolding answer_cached update_name
  store_update_name valid f name = answer_cached f (update_name valid f name)

  unfoldable pub update_floor_number :
      (String → ℕ → List PositionDto → Bool) → ℕ → ℕ → Prog (State floors positions) Floor
  unfolding answer_cached update_level
  update_floor_number valid f level = answer_cached f (update_level valid f level)

  unfoldable pub store_printer : ℕ → PositionDto → Prog (State floors positions) Floor
  unfolding answer_cached add_or_update_printer
  store_printer f dto = answer_cached f (add_or_update_printer f dto)

  unfoldable pub unstore_printer : ℕ → ℕ → Prog (State floors positions) Floor
  unfolding answer_cached remove_printer
  unstore_printer f k = answer_cached f (remove_printer f k)

  unfoldable pub remove_printer_from_any_floor :
      (String → ℕ → List PositionDto → Bool) → ℕ → Prog (State floors positions) (Unit {0})
  unfolding load_store delete_printer_from_any_floor
  remove_printer_from_any_floor valid k = do
    in_service (delete_printer_from_any_floor k)
    load_store valid
