-- ===== src/Orm/Table.antt =====
-- A repository in memory, a list of rows with a counter for the ids: the assumptions about typeorm
-- can be met, and the services run on it in the tests.
use d_hub.Base.{
  ℕ, ◌+◌, ◌≤◌, ◌≡◌, refl, false, not, List, [], ◌∷◌, ◌++◌, map, arith, ltb, ◌==◌, if◌then◌else◌,
  keep, find, any,
}
use d_hub.Orm.{Repository}

module _ {Row : Type 0} (id : Row → ℕ) where
  -- One more than the largest id.
  unfoldable pub above : List Row → ℕ
  above [] = 1
  above (r ∷ rs) = let n = above rs in if ltb (id r) n then n else id r + 1

  above_fresh : (m : ℕ) (rs : List Row) → above rs ≤ m → any (λ r. id r == m) rs ≡ false
  unfolding above
  above_fresh m [] h = refl
  above_fresh m (r ∷ rs) h = ground (arith, above_fresh m rs)

  pub next-fresh : (rs : List Row) → any (λ r. id r == above rs) rs ≡ false
  next-fresh rs = above_fresh (above rs) rs (omega arith)

  abbrev pub in_memory : Repository Row
  in_memory = record {
    Table = List Row;
    id = id;
    rows = λ t. t;
    find_one_by = find;
    find_by = keep;
    delete = λ p. keep (λ r. not (p r));
    update = λ p f. map (λ r. if p r then f r else r);
    next_id = above;
    save = λ f t. t ++ f (above t) ∷ [];
    find_one_by_lem = λ p t. refl;
    find_by_lem = λ p t. refl;
    rows-delete = λ p t. refl;
    rows-update = λ p f t. refl;
    rows-save = λ f t. refl;
    next_id_fresh = next-fresh;
  }
