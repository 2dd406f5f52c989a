-- ===== src/KeyDiff/Stored.antt =====
-- src/utils/cache/key-diff.cache.ts: what the store holds after a write and after deletions.
use d_hub.KeyDiff
use d_hub.Base.{ℕ, String, ◌≡◌, true, false, some, arith, str_eq, if◌then◌else◌, detached}
use d_hub.Base.Dict.{lookup, lookup-insert}
use d_hub.KeyDiff.{Cache, set_key_value}
use d_hub.KeyDiff.Keys.{string, number, decimal, key_string}

module _ {T : Type 0} where
  pub lookup-set_number :
      (n : ℕ) (v : T) (c : Cache T) (key : String)
      → lookup key (detached (set_key_value (number n) v true) c).key_value_store
        ≡ (if str_eq (decimal n) key then some v else lookup key c.key_value_store)
  unfolding set_key_value KeyDiff.store_value KeyDiff.mark_updated key_string
  lookup-set_number n v c key = lookup-insert (decimal n) key v c.key_value_store

  pub lookup-set_string :
      (s : String) (v : T) (c : Cache T) (key : String)
      → str_eq s "" ≡ false
      → lookup key (detached (set_key_value (string s) v true) c).key_value_store
        ≡ (if str_eq s key then some v else lookup key c.key_value_store)
  unfolding set_key_value KeyDiff.store_value KeyDiff.mark_updated key_string
  lookup-set_string s v c key h = ground (arith, h, lookup-insert s key v c.key_value_store)
