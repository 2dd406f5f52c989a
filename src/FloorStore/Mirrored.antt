-- ===== src/FloorStore/Mirrored.antt =====
-- Whether the cached floors of src/state/floor.store.ts agree with the floor service.
use d_hub.Base.{
  ℕ, ◌≡◌, refl, ap, inl, inr, Bool, Bool-cases, true, false, some, List, [], ◌∷◌, any, keep, ==_iff,
  str_eq_refl, arith, ◌==◌, if◌then◌else◌, find, ok, Prog, detached,
}
use d_hub.Orm.{Repository}
use d_hub.Orm.Lists.{any-keep_found}
use d_hub.Floors.{
  FloorPosition, PositionDto, FloorRow, Floor, on_floor, of_printer, is_settled, settled,
  is_printer, new_position, Db, placed, add_or_update_printer,
}
use d_hub.Floors.Placed.{IsPlaced}
use d_hub.Floors.Moves.{moves_known}
use d_hub.KeyDiff.{get_value, set_key_value}
use d_hub.KeyDiff.Keys.{Key, number, decimal, key_string}
use d_hub.KeyDiff.Replica.{names}
use d_hub.KeyDiff.Batch.{get_value-set_key_value}
use d_hub.FloorStore.{State, answer_cached, store_printer}

key_string_number : (f : ℕ) → key_string (number f) ≡ some (decimal f)
unfolding key_string
key_string_number f = refl

any-keep_kept :
    (p q : FloorPosition → Bool) (xs : List FloorPosition) {a : FloorPosition}
    → find p xs ≡ some a
    → q a ≡ true
    → any p (keep q xs) ≡ true
any-keep_kept p q [] e h = cc
any-keep_kept p q (x ∷ xs) {a} e h = elim (Bool-cases (p x)) [
  | inl t ↦ ground (arith, t, h, e)
  | inr t ↦ ground (arith, t, any-keep_kept p q xs {a = a} (ground (arith, e, t)) h)
]

module _ {floors : Repository FloorRow} {positions : Repository FloorPosition} where
  -- When the service answers with a floor, the cache holds the answer for the floor that was asked for,
  -- and for any other floor what it held before.
  pub answer_cached_lem :
      (f : ℕ) (m : Prog (Db floors positions) Floor) (s : State floors positions) {floor : Floor}
      {d : Db floors positions}
      → m s.db ≡ (ok floor, d)
      → (s' : State floors positions) × (answer_cached f m s ≡ (ok floor, s'))
        × (s'.db ≡ d)
        × ((key : Key)
            → (get_value key s'.cache).0
              ≡ (if names (decimal f) key then ok (some floor) else (get_value key s.cache).0))
  unfolding answer_cached set_key_value
  answer_cached_lem f m s {floor} {d} h = (
    record { db = d; cache = detached (set_key_value (number f) floor true) s.cache },
    ground (arith, h, key_string_number f),
    refl,
    λ key. get_value-set_key_value (number f) key floor true s.cache (key_string_number f),
  )

  -- A printer that stands on the floor `g`, whose positions the cache has as they are stored, and that is
  -- moved to another floor: no position on `g` is stored for it any more, its only one is the new one, and the
  -- cache still lists it on `g`.
  pub store_printer_stale :
      (f g : ℕ) (dto : PositionDto) (s : State floors positions) {row : FloorRow} {old : Floor}
      {p : FloorPosition}
      → IsPlaced s.db
      → find (λ r. floors.id r == f) (floors.rows s.db.floor_table) ≡ some row
      → is_printer dto.printer_id s.db ≡ true
      → find (of_printer dto.printer_id) (placed s.db) ≡ some p
      → p.floor_id ≡ g
      → names (decimal f) (number g) ≡ false
      → (get_value (number g) s.cache).0 ≡ ok (some old)
      → old.printers ≡ keep (on_floor g) (placed s.db)
      → (k : ℕ) × (s' : State floors positions) × ((store_printer f dto s).1 ≡ s')
        × (find (of_printer dto.printer_id) (placed s'.db) ≡ some (new_position f dto k))
        × (any (of_printer dto.printer_id) (keep (on_floor g) (placed s'.db)) ≡ false)
        × ((get_value (number g) s'.cache).0 ≡ ok (some old))
        × (any (of_printer dto.printer_id) old.printers ≡ true)
  unfolding store_printer is_settled
  store_printer_stale f g dto s {row} {old} {p} apart r known stands on ne h same =
      let other : (f == g) ≡ false =
        ground (arith, ne, key_string_number g, ==_iff f g, str_eq_refl (decimal f)) in
      let moved : settled f dto (find (of_printer dto.printer_id) (placed s.db)) ≡ false =
        rw stands (ground (arith, on, other, ==_iff p.floor_id f)) in
      let (k, d, e, u, v) = moves_known f dto s.db {row = row} apart r moved known in
      let (s', a, b, c) = answer_cached_lem f (add_or_update_printer f dto) s e in
      (
        k,
        s',
        ap (λ x. x.1) a,
        rw b u,
        rw b (any-keep_found (of_printer dto.printer_id) (on_floor g) (placed d) v u other),
        ground (arith, ne, h, c (number g)),
        rw same (
            any-keep_kept (of_printer dto.printer_id) (on_floor g) (placed s.db) stands
              (ground (arith, on, ==_iff p.floor_id g))),
      )
