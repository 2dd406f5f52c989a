-- ===== src/KeyDiff.antt =====
-- src/utils/cache/key-diff.cache.ts: the class `KeyDiffCache`, a key-value store that remembers which
-- keys were set and deleted since its last report. The promises of the class settle before anything
-- else runs, but for those of `processStateDiffs`: see `begin_process` and `finish_process`.
pub mod Keys
pub mod Marks
pub mod Batch
pub mod Replica
pub mod Calls
pub mod Tests
pub mod Process
pub mod Tracks
pub mod Stored
use d_hub.Base.{
  ◌≡◌, Bool, true, false, Option, none, some, List, [], ◌∷◌, ◌++◌, map, String, arith, any,
  drop_first, if◌then◌else◌, is_some, not, Result, ok, throw, error, Exception, Prog, ◌>>=◌, ◌>>◌,
  pure, fail, gets, modify, detached,
}
use d_hub.Base.Dict.{Dict, lookup, insert, remove}
use Keys.{Key, string, key_eq, key_string}

pub record Cache (T : Type 0) : Type 0 where
  pub deleted_keys : List Key
  pub updated_keys : List Key
  pub key_value_store : Dict T

abbrev pub includes : List Key → Key → Bool
includes ks k = any (key_eq k) ks

abbrev pub without : List Key → Key → List Key
without ks k = if includes ks k then drop_first (key_eq k) ks else ks

abbrev pub pushed : List Key → Key → List Key
pushed ks k = if includes ks k then ks else ks ++ k ∷ []

-- The answer of `processStateDiffs`.
pub record StateDiffs (T : Type 0) : Type 0 where
  pub updated_keys : List Key
  pub updated_values : List (Option T)
  pub deleted_keys : List Key

module _ {T : Type 0} where
  abbrev pub empty : Cache T
  empty = record { deleted_keys = []; updated_keys = []; key_value_store = [] }

  pub mark_updated : Key → Cache T → Cache T
  mark_updated key c = record c {
    deleted_keys = without c.deleted_keys key;
    updated_keys = pushed c.updated_keys key;
  }

  pub mark_deleted : Key → Cache T → Cache T
  mark_deleted key c = record c {
    updated_keys = without c.updated_keys key;
    deleted_keys = pushed c.deleted_keys key;
  }

  pub batch_mark_updated : List Key → Cache T → Cache T
  batch_mark_updated [] c = c
  batch_mark_updated (key ∷ keys) c = batch_mark_updated keys (mark_updated key c)

  pub batch_mark_deleted : List Key → Cache T → Cache T
  batch_mark_deleted [] c = c
  batch_mark_deleted (key ∷ keys) c = batch_mark_deleted keys (mark_deleted key c)

  pub reset_diffs : Cache T → Cache T
  reset_diffs c = record c { deleted_keys = []; updated_keys = [] }

  -- `undefined` is `none`.
  unfoldable pub get_value : Key → Prog (Cache T) (Option T)
  get_value key c = elim (key_string key) [
    | none ↦ (throw error, c)
    | some s ↦ (ok (lookup s c.key_value_store), c)
  ]

  pub store_value : String → T → Cache T → Cache T
  store_value s value c = record c { key_value_store = insert s value c.key_value_store }

  pub drop_value : String → Cache T → Cache T
  drop_value s c = record c { key_value_store = remove s c.key_value_store }

  unfoldable pub set_key_value : Key → T → Bool → Prog (Cache T) (Unit {0})
  unfolding store_value mark_updated
  set_key_value key value mark c = elim (key_string key) [
    | none ↦ (throw error, c)
    | some s ↦
        let c' = store_value s value c in (ok tt, if mark then mark_updated (string s) c' else c')
  ]

  unfoldable pub delete_key_value : Key → Bool → Prog (Cache T) (Unit {0})
  unfolding drop_value mark_deleted
  delete_key_value key mark c = elim (key_string key) [
    | none ↦ (throw error, c)
    | some s ↦ let c' = drop_value s c in (ok tt, if mark then mark_deleted (string s) c' else c')
  ]

  -- The `forEach` awaits none of its promises, and leaves `markUpdated` at its default, true.
  pub set_each : List (Key × T) → Cache T → Cache T
  set_each [] c = c
  set_each ((key, value) ∷ kvs) c = set_each kvs (detached (set_key_value key value true) c)

  unfoldable pub set_key_values_batch : List (Key × T) → Bool → Cache T → Cache T
  unfolding set_each set_key_value batch_mark_updated
  set_key_values_batch kvs mark c =
      let c' = set_each kvs c in if mark then batch_mark_updated (map (λ kv. kv.0) kvs) c' else c'

  pub delete_each : List Key → Cache T → Cache T
  delete_each [] c = c
  delete_each (key ∷ keys) c = delete_each keys (detached (delete_key_value key true) c)

  unfoldable pub delete_keys_batch : List Key → Bool → Cache T → Cache T
  unfolding delete_each delete_key_value batch_mark_deleted
  delete_keys_batch keys mark c =
      let c' = delete_each keys c in if mark then batch_mark_deleted keys c' else c'

  pub read_each : List Key → Prog (Cache T) (List (Option T))
  unfolding get_value
  read_each [] = pure []
  read_each (key ∷ keys) = do value ← get_value key; values ← read_each keys; pure (value ∷ values)

  -- All keys are looked at before the first value is read.
  unfoldable pub get_values_batch : List Key → Prog (Cache T) (List (Option T))
  unfolding read_each
  get_values_batch keys =
      if any (λ key. not (is_some (key_string key))) keys then fail error else read_each keys

  unfoldable pub get_all_values : Prog (Cache T) (List (Option T))
  unfolding get_values_batch
  get_all_values c = get_values_batch (map (λ kv. string kv.0) c.key_value_store) c

  -- `processStateDiffs` up to the read of the last value: the updated keys are copied first. The
  -- answer waits for a turn of its own before `finish_process`, the rest, goes on with it.
  unfoldable pub begin_process : Prog (Cache T) (List Key × List (Option T))
  unfolding get_values_batch
  begin_process c = (do values ← get_values_batch c.updated_keys; pure (c.updated_keys, values)) c

  -- The deleted keys are copied only now, and both lists are reset.
  unfoldable pub finish_process : List Key × List (Option T) → Prog (Cache T) (StateDiffs T)
  unfolding reset_diffs
  finish_process (keys, values) c = (
    ok (record { updated_keys = keys; updated_values = values; deleted_keys = c.deleted_keys }),
    reset_diffs c,
  )

  -- With nothing between the two.
  unfoldable pub process_state_diffs : Prog (Cache T) (StateDiffs T)
  unfolding begin_process finish_process
  process_state_diffs = do read ← begin_process; finish_process read
