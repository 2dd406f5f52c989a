-- ===== src/KeyDiff/Marks.antt =====
-- The two lists of marks of src/utils/cache/key-diff.cache.ts.
use d_hub.Base.{
  ◌≡◌, refl, true, false, ◌&&◌, List, [], ◌∷◌, ◌++◌, map, arith, drop_first, if◌then◌else◌,
  detached, Option-cases, any-append, any-drop_first-false, inl, inr,
}
use d_hub.KeyDiff.Keys.{Key, string, key_eq, key_eq_iff, key_string}
use d_hub.KeyDiff.{
  Cache, includes, without, pushed, empty, mark_updated, mark_deleted, batch_mark_updated,
  batch_mark_deleted, set_key_value, delete_key_value, set_each, delete_each, set_key_values_batch,
  delete_keys_batch,
}
use d_hub.KeyDiff.Calls.{Call, sets, deletes, sets_batch, deletes_batch, call, calls}

-- No key stands twice.
abbrev pub IsOnce : List Key → Type 0
IsOnce [] = Unit
IsOnce (k ∷ ks) = (includes ks k ≡ false) × IsOnce ks

includes-drop_first :
    (k j : Key) (ks : List Key)
    → IsOnce ks
    → includes (drop_first (key_eq k) ks) j ≡ (if key_eq k j then false else includes ks j)
includes-drop_first k j [] h = ground arith
includes-drop_first k j (x ∷ ks) h =
    ground
      (arith, includes-drop_first k j ks h.1, key_eq_iff k j, key_eq_iff k x, key_eq_iff j x, h.0)

pub includes-without :
    (k j : Key) (ks : List Key)
    → IsOnce ks
    → includes (without ks k) j ≡ (if key_eq k j then false else includes ks j)
includes-without k j ks h = ground (arith, includes-drop_first k j ks h, key_eq_iff k j)

pub includes-pushed :
    (k j : Key) (ks : List Key)
    → includes (pushed ks k) j ≡ (if key_eq k j then true else includes ks j)
includes-pushed k j ks =
    ground (arith, any-append (key_eq j) ks (k ∷ []), key_eq_iff k j, key_eq_iff j k)

drop_first-IsOnce : (k : Key) (ks : List Key) → IsOnce ks → IsOnce (drop_first (key_eq k) ks)
drop_first-IsOnce k [] h = tt
drop_first-IsOnce k (x ∷ ks) h =
    ground (arith, drop_first-IsOnce k ks h.1, any-drop_first-false (key_eq x) (key_eq k) ks h.0)

append-IsOnce :
    (k : Key) (ks : List Key) → includes ks k ≡ false → IsOnce ks → IsOnce (ks ++ k ∷ [])
append-IsOnce k [] n h = (refl, tt)
append-IsOnce k (x ∷ ks) n h =
    ground
      (arith, append-IsOnce k ks, any-append (key_eq x) ks (k ∷ []), key_eq_iff x k, key_eq_iff k x)

without-IsOnce : (k : Key) (ks : List Key) → IsOnce ks → IsOnce (without ks k)
without-IsOnce k ks h = ground (arith, drop_first-IsOnce k ks h)

pushed-IsOnce : (k : Key) (ks : List Key) → IsOnce ks → IsOnce (pushed ks k)
pushed-IsOnce k ks h = ground (arith, append-IsOnce k ks)

-- Each list holds a key once at most, and no key is in both.
pub record IsConsistent {T : Type 0} (c : Cache T) : Type 0 where
  pub updated_once : IsOnce c.updated_keys
  pub deleted_once : IsOnce c.deleted_keys
  pub disjoint : (k : Key) → (includes c.updated_keys k && includes c.deleted_keys k) ≡ false

module _ {T : Type 0} where
  mark_updated-IsConsistent :
      (key : Key) {c : Cache T} → IsConsistent c → IsConsistent (mark_updated key c)
  unfolding mark_updated
  mark_updated-IsConsistent key {c} h = record {
    updated_once = pushed-IsOnce key c.updated_keys h.updated_once;
    deleted_once = without-IsOnce key c.deleted_keys h.deleted_once;
    disjoint = λ k. ground (
      arith,
      includes-pushed key k c.updated_keys,
      includes-without key k c.deleted_keys h.deleted_once,
      h.disjoint k,
    );
  }

  mark_deleted-IsConsistent :
      (key : Key) {c : Cache T} → IsConsistent c → IsConsistent (mark_deleted key c)
  unfolding mark_deleted
  mark_deleted-IsConsistent key {c} h = record {
    updated_once = without-IsOnce key c.updated_keys h.updated_once;
    deleted_once = pushed-IsOnce key c.deleted_keys h.deleted_once;
    disjoint = λ k. ground (
      arith,
      includes-pushed key k c.deleted_keys,
      includes-without key k c.updated_keys h.updated_once,
      h.disjoint k,
    );
  }

  batch_mark_updated-IsConsistent :
      (keys : List Key) {c : Cache T} → IsConsistent c → IsConsistent (batch_mark_updated keys c)
  unfolding batch_mark_updated
  batch_mark_updated-IsConsistent [] h = h
  batch_mark_updated-IsConsistent (k ∷ keys) h =
      batch_mark_updated-IsConsistent keys (mark_updated-IsConsistent k h)

  batch_mark_deleted-IsConsistent :
      (keys : List Key) {c : Cache T} → IsConsistent c → IsConsistent (batch_mark_deleted keys c)
  unfolding batch_mark_deleted
  batch_mark_deleted-IsConsistent [] h = h
  batch_mark_deleted-IsConsistent (k ∷ keys) h =
      batch_mark_deleted-IsConsistent keys (mark_deleted-IsConsistent k h)

  set-IsConsistent :
      (key : Key) (v : T) {c : Cache T}
      → IsConsistent c
      → IsConsistent (detached (set_key_value key v true) c)
  unfolding set_key_value
  set-IsConsistent key v {c} h = elim (Option-cases (key_string key)) [
    | inl e ↦ rw (e, set_key_value) h
    | inr (s, e) ↦
        rw (e, set_key_value)
          (mark_updated-IsConsistent (string s) (record {
            updated_once = h.updated_once;
            deleted_once = h.deleted_once;
            disjoint = h.disjoint;
          }))
  ]

  delete-IsConsistent :
      (key : Key) {c : Cache T}
      → IsConsistent c
      → IsConsistent (detached (delete_key_value key true) c)
  unfolding delete_key_value
  delete-IsConsistent key {c} h = elim (Option-cases (key_string key)) [
    | inl e ↦ rw (e, delete_key_value) h
    | inr (s, e) ↦
        rw (e, delete_key_value)
          (mark_deleted-IsConsistent (string s) (record {
            updated_once = h.updated_once;
            deleted_once = h.deleted_once;
            disjoint = h.disjoint;
          }))
  ]

  set_each-IsConsistent :
      (kvs : List (Key × T)) {c : Cache T} → IsConsistent c → IsConsistent (set_each kvs c)
  unfolding set_each
  set_each-IsConsistent [] h = h
  set_each-IsConsistent ((k, v) ∷ kvs) h = set_each-IsConsistent kvs (set-IsConsistent k v h)

  delete_each-IsConsistent :
      (keys : List Key) {c : Cache T} → IsConsistent c → IsConsistent (delete_each keys c)
  unfolding delete_each
  delete_each-IsConsistent [] h = h
  delete_each-IsConsistent (k ∷ keys) h = delete_each-IsConsistent keys (delete-IsConsistent k h)

  call-IsConsistent : (x : Call T) {c : Cache T} → IsConsistent c → IsConsistent (call x c)
  unfolding call set_key_values_batch delete_keys_batch
  call-IsConsistent (sets key v) h = set-IsConsistent key v h
  call-IsConsistent (deletes key) h = delete-IsConsistent key h
  call-IsConsistent (sets_batch kvs true) h =
      batch_mark_updated-IsConsistent (map (λ kv. kv.0) kvs) (set_each-IsConsistent kvs h)
  call-IsConsistent (sets_batch kvs false) h = set_each-IsConsistent kvs h
  call-IsConsistent (deletes_batch keys true) h =
      batch_mark_deleted-IsConsistent keys (delete_each-IsConsistent keys h)
  call-IsConsistent (deletes_batch keys false) h = delete_each-IsConsistent keys h

  -- After any calls of the cache's methods, from a state in which this holds, such as the empty
  -- one: each list of marks holds a key once at most, and no key is marked both updated and
  -- deleted.
  pub calls-IsConsistent :
      (xs : List (Call T)) {c : Cache T} → IsConsistent c → IsConsistent (calls xs c)
  unfolding calls
  calls-IsConsistent [] h = h
  calls-IsConsistent (x ∷ xs) h = calls-IsConsistent xs (call-IsConsistent x h)

pub empty-IsConsistent : (T : Type 0) → IsConsistent (empty {T = T})
empty-IsConsistent T = record { updated_once = tt; deleted_once = tt; disjoint = λ k. refl }
