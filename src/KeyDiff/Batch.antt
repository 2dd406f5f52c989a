-- ===== src/KeyDiff/Batch.antt =====
-- Single and batched writes of src/utils/cache/key-diff.cache.ts, and what a write does to a report
-- that is being made.
use d_hub.Base.{
  ℕ, String, ◌≡◌, refl, inl, inr, Bool, true, false, ◌||◌, Option, some, List, [], ◌∷◌, map, arith,
  str_eq_iff, str_eq_refl, if◌then◌else◌, Bool-cases, Option-cases, any, ok, detached,
}
use d_hub.Base.Dict.{lookup, lookup-insert}
use d_hub.KeyDiff.{
  Cache, includes, StateDiffs, mark_updated, batch_mark_updated, get_value, set_key_value, set_each,
  set_key_values_batch, get_values_batch, begin_process, finish_process,
}
use d_hub.KeyDiff.Keys.{Key, string, number, decimal, key_eq, key_string, key_eq_iff}
use d_hub.KeyDiff.Replica.{names}
use d_hub.KeyDiff.Marks.{includes-pushed}

names_of_includes :
    (n : ℕ) (ks : List Key) → any (key_eq (number n)) ks ≡ true → any (names (decimal n)) ks ≡ true
unfolding key_string
names_of_includes n [] h = cc
names_of_includes n (k ∷ ks) h =
    ground (arith, names_of_includes n ks, key_eq_iff (number n) k, str_eq_refl (decimal n))

module _ {T : Type 0} where
  -- A read after a write with a usable key: the value that was written, under every key with the same
  -- text, whether it is the number or the text, and otherwise what was read before.
  pub get_value-set_key_value :
      (k j : Key) (v : T) (mark : Bool) (c : Cache T) {s : String}
      → key_string k ≡ some s
      → (get_value j (detached (set_key_value k v mark) c)).0
        ≡ (if names s j then ok (some v) else (get_value j c).0)
  unfolding get_value set_key_value
  get_value-set_key_value k j v mark c {s} e =
      rw (e, set_key_value)
        (elim (Option-cases (key_string j)) [
          | inl g ↦ ground (arith, g)
          | inr (t, g) ↦
              ground
                (arith, g, lookup-insert s t v c.key_value_store, str_eq_iff s t, str_eq_iff t s)
        ])

  includes-set_key_value :
      (j k : Key) (v : T) (c : Cache T)
      → includes c.updated_keys j ≡ true
      → includes (detached (set_key_value k v true) c).updated_keys j ≡ true
  unfolding set_key_value
  includes-set_key_value j k v c h = elim (Option-cases (key_string k)) [
    | inl e ↦ rw (e, set_key_value) h
    | inr (s, e) ↦
        rw (e, set_key_value) (ground (arith, h, includes-pushed (string s) j c.updated_keys))
  ]

  includes-set_key_value_self :
      (s : String) (k : Key) (v : T) (c : Cache T)
      → names s k ≡ true
      → includes (detached (set_key_value k v true) c).updated_keys (string s) ≡ true
  unfolding set_key_value
  includes-set_key_value_self s k v c h = elim (Option-cases (key_string k)) [
    | inl e ↦ ground (arith, h, e)
    | inr (t, e) ↦
        rw (e, set_key_value)
          (ground
            (arith, h, e, str_eq_iff t s, includes-pushed (string t) (string s) c.updated_keys))
  ]

  includes-set_each :
      (j : Key) (kvs : List (Key × T)) (c : Cache T)
      → includes c.updated_keys j ≡ true
      → includes (set_each kvs c).updated_keys j ≡ true
  unfolding set_each
  includes-set_each j [] c h = h
  includes-set_each j ((k, v) ∷ kvs) c h =
      includes-set_each j kvs _ (includes-set_key_value j k v c h)

  includes-set_each_self :
      (s : String) (kvs : List (Key × T)) (c : Cache T)
      → any (names s) (map (λ kv. kv.0) kvs) ≡ true
      → includes (set_each kvs c).updated_keys (string s) ≡ true
  unfolding set_each
  includes-set_each_self s [] c h = cc
  includes-set_each_self s ((k, v) ∷ kvs) c h = elim (Bool-cases (names s k)) [
    | inl n ↦ includes-set_each (string s) kvs _ (includes-set_key_value_self s k v c n)
    | inr n ↦ includes-set_each_self s kvs _ (ground arith)
  ]

  includes-batch_mark_updated :
      (j : Key) (ks : List Key) (c : Cache T)
      → (includes c.updated_keys j || any (key_eq j) ks) ≡ true
      → includes (batch_mark_updated ks c).updated_keys j ≡ true
  unfolding batch_mark_updated mark_updated
  includes-batch_mark_updated j [] c h = ground arith
  includes-batch_mark_updated j (k ∷ ks) c h =
      includes-batch_mark_updated j ks _
        (ground (arith, h, includes-pushed k j c.updated_keys, key_eq_iff k j, key_eq_iff j k))

  -- A batched write marks the text of each usable key, also where its `markUpdated` is false.
  pub batch-IsMarked :
      (kvs : List (Key × T)) (mark : Bool) (c : Cache T) (s : String)
      → any (names s) (map (λ kv. kv.0) kvs) ≡ true
      → includes (set_key_values_batch kvs mark c).updated_keys (string s) ≡ true
  unfolding set_key_values_batch
  batch-IsMarked kvs false c s h = includes-set_each_self s kvs c h
  batch-IsMarked kvs true c s h =
      includes-batch_mark_updated (string s) (map (λ kv. kv.0) kvs) _
        (rw (includes-set_each_self s kvs c h))

  -- With `markUpdated`, a batched write under a number marks two keys for the one entry, the number
  -- and its text.
  pub number-IsMarked_twice :
      (kvs : List (Key × T)) (c : Cache T) (n : ℕ)
      → any (key_eq (number n)) (map (λ kv. kv.0) kvs) ≡ true
      → let marked = (set_key_values_batch kvs true c).updated_keys in
        (includes marked (string (decimal n)) ≡ true) × (includes marked (number n) ≡ true)
  unfolding set_key_values_batch
  number-IsMarked_twice kvs c n h = (
    batch-IsMarked kvs true c (decimal n) (names_of_includes n (map (λ kv. kv.0) kvs) h),
    includes-batch_mark_updated (number n) (map (λ kv. kv.0) kvs) _ (ground (arith, h)),
  )

  -- A write that falls between the last read of `processStateDiffs` and its rest, under a key that was
  -- not marked as updated, is in the store, and is lost to the readers: the report does not name it as
  -- updated, its deleted keys are those that the write has left, and the write's mark is reset.
  pub write_during_process :
      (c : Cache T) (k : Key) (v : T) {s : String} {read : List Key × List (Option T)}
      → key_string k ≡ some s
      → any (names s) c.updated_keys ≡ false
      → begin_process c ≡ (ok read, c)
      → (d : StateDiffs T) × (c' : Cache T) × (finish_process read
            (detached (set_key_value k v true) c)
          ≡ (ok d, c'))
        × (lookup s c'.key_value_store ≡ some v)
        × (any (names s) d.updated_keys ≡ false)
        × (d.deleted_keys ≡ (detached (set_key_value k v true) c).deleted_keys)
        × (c'.updated_keys ≡ [])
        × (c'.deleted_keys ≡ [])
  unfolding begin_process finish_process get_values_batch set_key_value
  write_during_process c k v {s} {read} e n b = (
    _,
    _,
    refl,
    rw (e, set_key_value) (ground (arith, lookup-insert s s v c.key_value_store, str_eq_refl s)),
    ground arith,
    refl,
    refl,
    refl,
  )
