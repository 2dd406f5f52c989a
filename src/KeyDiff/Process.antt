-- ===== src/KeyDiff/Process.antt =====
-- `processStateDiffs` of src/utils/cache/key-diff.cache.ts: its result, and what it reports.
use d_hub.Base.{
  String, ◌≡◌, refl, ◌∙◌, inl, inr, Bool, true, false, not, List, [], ◌∷◌, map, arith,
  if◌then◌else◌, Option-cases, is_some, any, All, any-append, any-drop_first-false, error, ok,
  throw, detached,
}
use d_hub.Base.Dict.{lookup}
use d_hub.KeyDiff.{
  Cache, StateDiffs, mark_updated, mark_deleted, batch_mark_updated, batch_mark_deleted,
  reset_diffs, get_value, store_value, drop_value, set_key_value, delete_key_value, set_each,
  set_key_values_batch, delete_each, delete_keys_batch, read_each, get_values_batch,
  process_state_diffs,
}
use d_hub.KeyDiff.Keys.{Key, string, key_eq, key_string, key_string_idem}
use d_hub.KeyDiff.Calls.{Call, sets, deletes, sets_batch, deletes_batch, call, calls}
use d_hub.KeyDiff.Replica.{apply, stored, lookup-apply}
use d_hub.KeyDiff.Tracks.{calls-Tracks, unmarked-Tracks}

-- The key is undefined or has an empty text.
abbrev pub unusable : Key → Bool
unusable k = not (is_some (key_string k))

module _ {T : Type 0} where
  read_each_lem :
      (ks : List Key) (c : Cache T)
      → any unusable ks ≡ false
      → read_each ks c ≡ (ok (map (stored c) ks), c)
  unfolding read_each get_value
  read_each_lem [] c h = refl
  read_each_lem (k ∷ ks) c h = ground (arith, read_each_lem ks c)

  -- The report of a state whose marks are usable.
  pub report : Cache T → StateDiffs T
  report c = record {
    updated_keys = c.updated_keys;
    updated_values = map (stored c) c.updated_keys;
    deleted_keys = c.deleted_keys;
  }

  -- `processStateDiffs` throws if one of the updated keys has no text, and then leaves the marks as
  -- they are, so that it throws again; otherwise it reports all marks, with the stored values, and
  -- resets them.
  pub process_outcome :
      (c : Cache T)
      → process_state_diffs c ≡ (
          if any unusable c.updated_keys
          then (throw error, c)
          else (ok (report c), record c { deleted_keys = []; updated_keys = [] }))
  unfolding process_state_diffs get_values_batch report reset_diffs
  process_outcome c = ground (arith, read_each_lem c.updated_keys c)

abbrev pub is_usable : {T : Type 0} → Call T → Bool
is_usable (sets key value) = is_some (key_string key)
is_usable (deletes key) = is_some (key_string key)
is_usable (sets_batch kvs mark) = not (any unusable (map (λ kv. kv.0) kvs))
is_usable (deletes_batch keys mark) = not (any unusable keys)

abbrev Clean : {T : Type 0} → Cache T → Type 0
Clean c = any unusable c.updated_keys ≡ false

module _ {T : Type 0} where
  mark_updated-Clean :
      (k : Key) (c : Cache T) → unusable k ≡ false → Clean c → Clean (mark_updated k c)
  unfolding mark_updated
  mark_updated-Clean k c u h = ground (arith, any-append unusable c.updated_keys (k ∷ []))

  mark_deleted-Clean : (k : Key) (c : Cache T) → Clean c → Clean (mark_deleted k c)
  unfolding mark_deleted
  mark_deleted-Clean k c h =
      ground (arith, any-drop_first-false unusable (key_eq k) c.updated_keys h)

  batch_mark_updated-Clean :
      (ks : List Key) (c : Cache T)
      → any unusable ks ≡ false
      → Clean c
      → Clean (batch_mark_updated ks c)
  unfolding batch_mark_updated
  batch_mark_updated-Clean [] c u h = h
  batch_mark_updated-Clean (k ∷ ks) c u h =
      batch_mark_updated-Clean ks (mark_updated k c) (ground arith)
        (mark_updated-Clean k c (ground arith) h)

  batch_mark_deleted-Clean :
      (ks : List Key) (c : Cache T) → Clean c → Clean (batch_mark_deleted ks c)
  unfolding batch_mark_deleted
  batch_mark_deleted-Clean [] c h = h
  batch_mark_deleted-Clean (k ∷ ks) c h =
      batch_mark_deleted-Clean ks (mark_deleted k c) (mark_deleted-Clean k c h)

  set-Clean :
      (k : Key) (v : T) (c : Cache T) → Clean c → Clean (detached (set_key_value k v true) c)
  unfolding set_key_value store_value
  set-Clean k v c h = elim (Option-cases (key_string k)) [
    | inl e ↦ rw (e, set_key_value) h
    | inr (s, e) ↦
        rw (e, set_key_value)
          (mark_updated-Clean (string s) (store_value s v c) (rw (key_string_idem k e)) h)
  ]

  delete-Clean : (k : Key) (c : Cache T) → Clean c → Clean (detached (delete_key_value k true) c)
  unfolding delete_key_value drop_value
  delete-Clean k c h = elim (Option-cases (key_string k)) [
    | inl e ↦ rw (e, delete_key_value) h
    | inr (s, e) ↦ rw (e, delete_key_value) (mark_deleted-Clean (string s) (drop_value s c) h)
  ]

  set_each-Clean : (kvs : List (Key × T)) (c : Cache T) → Clean c → Clean (set_each kvs c)
  unfolding set_each
  set_each-Clean [] c h = h
  set_each-Clean ((k, v) ∷ kvs) c h = set_each-Clean kvs _ (set-Clean k v c h)

  delete_each-Clean : (ks : List Key) (c : Cache T) → Clean c → Clean (delete_each ks c)
  unfolding delete_each
  delete_each-Clean [] c h = h
  delete_each-Clean (k ∷ ks) c h = delete_each-Clean ks _ (delete-Clean k c h)

  call-Clean : (x : Call T) (c : Cache T) → is_usable x ≡ true → Clean c → Clean (call x c)
  unfolding call set_key_values_batch delete_keys_batch
  call-Clean (sets k v) c u h = set-Clean k v c h
  call-Clean (deletes k) c u h = delete-Clean k c h
  call-Clean (sets_batch kvs true) c u h =
      batch_mark_updated-Clean (map (λ kv. kv.0) kvs) _ (ground arith) (set_each-Clean kvs c h)
  call-Clean (sets_batch kvs false) c u h = set_each-Clean kvs c h
  call-Clean (deletes_batch ks true) c u h =
      batch_mark_deleted-Clean ks _ (delete_each-Clean ks c h)
  call-Clean (deletes_batch ks false) c u h = delete_each-Clean ks c h

  calls-Clean :
      (xs : List (Call T)) (c : Cache T)
      → All (λ x. is_usable x ≡ true) xs
      → Clean c
      → Clean (calls xs c)
  unfolding calls
  calls-Clean [] c u h = h
  calls-Clean (x ∷ xs) c u h = calls-Clean xs (call x c) u.1 (call-Clean x c u.0 h)

  -- From a state with no marks, after any calls with usable keys, `processStateDiffs` succeeds and
  -- resets the marks; and whoever applies its report to a copy of the store as it was before the
  -- calls, the deletions first, has every entry of the store as it is now.
  pub report-is_current :
      (xs : List (Call T)) (c : Cache T)
      → c.updated_keys ≡ []
      → c.deleted_keys ≡ []
      → All (λ x. is_usable x ≡ true) xs
      → (d : StateDiffs T) × (process_state_diffs (calls xs c)
          ≡ (ok d, record (calls xs c) { deleted_keys = []; updated_keys = [] }))
        × ((s : String)
            → lookup s (apply d c.key_value_store) ≡ lookup s (calls xs c).key_value_store)
  unfolding report
  report-is_current xs c u d usable = (
    report (calls xs c),
    process_outcome (calls xs c) ∙ rw (calls-Clean xs c usable (rw u refl)) refl,
    λ s. ground (
      arith,
      lookup-apply (calls xs c) s (report (calls xs c)) c.key_value_store refl refl refl,
      calls-Tracks c.key_value_store xs c (unmarked-Tracks c u d) s,
    ),
  )
