-- ===== src/KeyDiff/Calls.antt =====
-- src/utils/cache/key-diff.cache.ts: the calls by which the caches built on `KeyDiffCache` change
-- their state. Its subclasses mark every single set and delete, and leave the mark of a batch open.
use d_hub.Base.{Bool, true, List, [], ◌∷◌, detached}
use d_hub.KeyDiff.{Cache, set_key_value, delete_key_value, set_key_values_batch, delete_keys_batch}
use d_hub.KeyDiff.Keys.{Key}

pub data Call (T : Type 0) : Type 0 where
  sets : Key → T → Call T
  deletes : Key → Call T
  sets_batch : List (Key × T) → Bool → Call T
  deletes_batch : List Key → Bool → Call T

module _ {T : Type 0} where
  unfoldable pub call : Call T → Cache T → Cache T
  call (sets key value) c = detached (set_key_value key value true) c
  call (deletes key) c = detached (delete_key_value key true) c
  call (sets_batch kvs mark) c = set_key_values_batch kvs mark c
  call (deletes_batch keys mark) c = delete_keys_batch keys mark c

  unfoldable pub calls : List (Call T) → Cache T → Cache T
  unfolding call
  calls [] c = c
  calls (x ∷ xs) c = calls xs (call x c)
