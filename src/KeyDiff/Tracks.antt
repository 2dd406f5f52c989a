-- ===== src/KeyDiff/Tracks.antt =====
-- How the marks of src/utils/cache/key-diff.cache.ts follow the store: every entry that differs from
-- an earlier copy is marked.
use d_hub.Base.{
  ◌≡◌, refl, ◌⊎◌, inl, inr, Bool, true, false, ◌||◌, none, some, List, [], ◌∷◌, map, String, arith,
  any, drop_first, if◌then◌else◌, detached, Option-cases, any-append, str_eq,
}
use d_hub.Base.Dict.{Dict, lookup, lookup-insert, lookup-remove}
use d_hub.KeyDiff.Keys.{Key, string, key_eq, key_eq_iff, key_string, key_string_idem}
use d_hub.KeyDiff.Replica.{is_text, names}
use d_hub.KeyDiff.{
  Cache, includes, without, pushed, mark_updated, mark_deleted, batch_mark_updated,
  batch_mark_deleted, set_key_value, delete_key_value, set_each, delete_each, set_key_values_batch,
  delete_keys_batch,
}
use d_hub.KeyDiff.Calls.{Call, sets, deletes, sets_batch, deletes_batch, call, calls}

any-of_includes :
    (s : String) (k : Key) (ks : List Key)
    → includes ks k ≡ true
    → names s k ≡ true
    → any (names s) ks ≡ true
any-of_includes s k [] h n = cc
any-of_includes s k (x ∷ ks) h n = ground (arith, any-of_includes s k ks, key_eq_iff k x)

any-pushed :
    (s : String) (k : Key) (ks : List Key)
    → any (names s) (pushed ks k) ≡ (names s k || any (names s) ks)
any-pushed s k ks = ground (arith, any-of_includes s k ks, any-append (names s) ks (k ∷ []))

any-drop_first :
    (s : String) (k : Key) (ks : List Key)
    → names s k ≡ false
    → any (names s) (drop_first (key_eq k) ks) ≡ any (names s) ks
any-drop_first s k [] h = refl
any-drop_first s k (x ∷ ks) h = ground (arith, any-drop_first s k ks, key_eq_iff k x)

any-without :
    (s : String) (k : Key) (ks : List Key)
    → names s k ≡ false
    → any (names s) (without ks k) ≡ any (names s) ks
any-without s k ks h = ground (arith, any-drop_first s k ks)

names-string :
    (s : String) (k : Key) {t : String} → key_string k ≡ some t → names s (string t) ≡ str_eq t s
names-string s k {t} e = rw (key_string_idem k e)

module _ {T : Type 0} where
  -- An entry is marked updated, or it is gone and marked deleted, or it is as it was and not marked
  -- deleted.
  abbrev pub TracksAt : Dict T → Cache T → String → Type 0
  TracksAt old c s =
      (any (names s) c.updated_keys ≡ true)
      ⊎ ((lookup s c.key_value_store ≡ none) × (any (names s) c.deleted_keys ≡ true))
      ⊎ ((lookup s c.key_value_store ≡ lookup s old) × (any (names s) c.deleted_keys ≡ false))

  abbrev pub Tracks : Dict T → Cache T → Type 0
  Tracks old c = (s : String) → TracksAt old c s

  mark_updated-TracksAt :
      (old : Dict T) (c : Cache T) (s : String) (k : Key)
      → TracksAt old c s
      → TracksAt old (mark_updated k c) s
  unfolding mark_updated
  mark_updated-TracksAt old c s k h =
      ground (arith, any-pushed s k c.updated_keys, any-without s k c.deleted_keys)

  mark_deleted-TracksAt :
      (old : Dict T) (c : Cache T) (s : String) (k : Key)
      → (names s k ≡ true → lookup s c.key_value_store ≡ none)
      → TracksAt old c s
      → TracksAt old (mark_deleted k c) s
  unfolding mark_deleted
  mark_deleted-TracksAt old c s k gone h =
      ground (arith, any-pushed s k c.deleted_keys, any-without s k c.updated_keys)

  batch_mark_updated-Tracks :
      (old : Dict T) (ks : List Key) (c : Cache T)
      → Tracks old c
      → Tracks old (batch_mark_updated ks c)
  unfolding batch_mark_updated
  batch_mark_updated-Tracks old [] c h = h
  batch_mark_updated-Tracks old (k ∷ ks) c h =
      batch_mark_updated-Tracks old ks (mark_updated k c) λ s. mark_updated-TracksAt old c s k (h s)

  set-Tracks :
      (old : Dict T) (k : Key) (v : T) (c : Cache T)
      → Tracks old c
      → Tracks old (detached (set_key_value k v true) c)
  unfolding set_key_value
  set-Tracks old k v c h s = elim (Option-cases (key_string k)) [
    | inl e ↦ rw (e, set_key_value) (h s)
    | inr (t, e) ↦
        rw (e, set_key_value)
          (ground (
            arith,
            h s,
            any-pushed s (string t) c.updated_keys,
            any-without s (string t) c.deleted_keys,
            names-string s k e,
            lookup-insert t s v c.key_value_store,
          ))
  ]

  delete-Tracks :
      (old : Dict T) (k : Key) (c : Cache T)
      → Tracks old c
      → Tracks old (detached (delete_key_value k true) c)
  unfolding delete_key_value
  delete-Tracks old k c h s = elim (Option-cases (key_string k)) [
    | inl e ↦ rw (e, delete_key_value) (h s)
    | inr (t, e) ↦
        rw (e, delete_key_value)
          (ground (
            arith,
            h s,
            any-pushed s (string t) c.deleted_keys,
            any-without s (string t) c.updated_keys,
            names-string s k e,
            lookup-remove t s c.key_value_store,
          ))
  ]

  set_each-Tracks :
      (old : Dict T) (kvs : List (Key × T)) (c : Cache T)
      → Tracks old c
      → Tracks old (set_each kvs c)
  unfolding set_each
  set_each-Tracks old [] c h = h
  set_each-Tracks old ((k, v) ∷ kvs) c h = set_each-Tracks old kvs _ (set-Tracks old k v c h)

  delete_each-Tracks :
      (old : Dict T) (ks : List Key) (c : Cache T) → Tracks old c → Tracks old (delete_each ks c)
  unfolding delete_each
  delete_each-Tracks old [] c h = h
  delete_each-Tracks old (k ∷ ks) c h = delete_each-Tracks old ks _ (delete-Tracks old k c h)

  lookup-delete_key_value :
      (s : String) (k : Key) (mark : Bool) (c : Cache T)
      → lookup s (detached (delete_key_value k mark) c).key_value_store
        ≡ (if names s k then none else lookup s c.key_value_store)
  unfolding delete_key_value
  lookup-delete_key_value s k mark c = elim (Option-cases (key_string k)) [
    | inl e ↦ rw (e, delete_key_value, is_text)
    | inr (t, e) ↦ rw (e, delete_key_value) (ground (arith, e, lookup-remove t s c.key_value_store))
  ]

  lookup-delete_each :
      (s : String) (ks : List Key) (c : Cache T)
      → lookup s (delete_each ks c).key_value_store
        ≡ (if any (names s) ks then none else lookup s c.key_value_store)
  unfolding delete_each
  lookup-delete_each s [] c = refl
  lookup-delete_each s (k ∷ ks) c = ground (
    arith,
    lookup-delete_each s ks (detached (delete_key_value k true) c),
    lookup-delete_key_value s k true c,
  )

  batch_mark_deleted-Tracks :
      (old : Dict T) (ks : List Key) (c : Cache T)
      → ((s : String) → any (names s) ks ≡ true → lookup s c.key_value_store ≡ none)
      → Tracks old c
      → Tracks old (batch_mark_deleted ks c)
  unfolding batch_mark_deleted
  batch_mark_deleted-Tracks old [] c gone h = h
  batch_mark_deleted-Tracks old (k ∷ ks) c gone h =
      batch_mark_deleted-Tracks old ks (mark_deleted k c)
        (unfold mark_deleted in λ s n. gone s (ground arith))
        λ s. mark_deleted-TracksAt old c s k (λ n. gone s (ground arith)) (h s)

  call-Tracks : (old : Dict T) (x : Call T) (c : Cache T) → Tracks old c → Tracks old (call x c)
  unfolding call set_key_values_batch delete_keys_batch
  call-Tracks old (sets key v) c h = set-Tracks old key v c h
  call-Tracks old (deletes key) c h = delete-Tracks old key c h
  call-Tracks old (sets_batch kvs true) c h =
      batch_mark_updated-Tracks old (map (λ kv. kv.0) kvs) _ (set_each-Tracks old kvs c h)
  call-Tracks old (sets_batch kvs false) c h = set_each-Tracks old kvs c h
  call-Tracks old (deletes_batch keys true) c h =
      batch_mark_deleted-Tracks old keys (delete_each keys c)
        (λ s n. ground (arith, lookup-delete_each s keys c)) (delete_each-Tracks old keys c h)
  call-Tracks old (deletes_batch keys false) c h = delete_each-Tracks old keys c h

  pub calls-Tracks :
      (old : Dict T) (xs : List (Call T)) (c : Cache T) → Tracks old c → Tracks old (calls xs c)
  unfolding calls
  calls-Tracks old [] c h = h
  calls-Tracks old (x ∷ xs) c h = calls-Tracks old xs (call x c) (call-Tracks old x c h)

  -- With no marks the store is its own copy.
  pub unmarked-Tracks :
      (c : Cache T) → c.updated_keys ≡ [] → c.deleted_keys ≡ [] → Tracks c.key_value_store c
  unmarked-Tracks c u d s = rw (u, d) (inr (inr (refl, refl)))
