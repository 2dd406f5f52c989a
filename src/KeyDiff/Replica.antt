-- ===== src/KeyDiff/Replica.antt =====
-- What the diffs of src/utils/cache/key-diff.cache.ts are for: a copy of the store that applies each
-- report, deletions first, equals the store at the time of the report.
use d_hub.Base.{
  ◌≡◌, refl, Bool, true, false, Option, none, some, List, [], ◌∷◌, map, String, arith, any,
  if◌then◌else◌, str_eq, str_eq_iff,
}
use d_hub.Base.Dict.{Dict, lookup, insert, remove, lookup-insert, lookup-remove}
use d_hub.KeyDiff.Keys.{Key, key_string}
use d_hub.KeyDiff.{Cache, StateDiffs}

abbrev pub is_text : String → Option String → Bool
is_text s none = false
is_text s (some t) = str_eq t s

-- The key's entry in the store is that of `s`.
abbrev pub names : String → Key → Bool
names s k = is_text s (key_string k)

module _ {T : Type 0} where
  abbrev put : Option String → Option T → Dict T → Dict T
  put none value m = m
  put (some s) none m = remove s m
  put (some s) (some v) m = insert s v m

  pub apply_deleted : List Key → Dict T → Dict T
  apply_deleted [] m = m
  apply_deleted (k ∷ ks) m = apply_deleted ks (put (key_string k) none m)

  pub apply_updated : List Key → List (Option T) → Dict T → Dict T
  apply_updated (k ∷ ks) (v ∷ vs) m = apply_updated ks vs (put (key_string k) v m)
  apply_updated _ _ m = m

  -- A reader of the report brings its copy up to date.
  pub apply : StateDiffs T → Dict T → Dict T
  unfolding apply_deleted apply_updated
  apply d m = apply_updated d.updated_keys d.updated_values (apply_deleted d.deleted_keys m)

  abbrev pub at : Dict T → Option String → Option T
  at m none = none
  at m (some s) = lookup s m

  abbrev pub stored : Cache T → Key → Option T
  stored c k = at c.key_value_store (key_string k)

  lookup-put :
      (s : String) (o : Option String) (v : Option T) (m : Dict T)
      → lookup s (put o v m) ≡ (if is_text s o then v else lookup s m)
  lookup-put s none v m = refl
  lookup-put s (some t) none m = lookup-remove t s m
  lookup-put s (some t) (some v) m = lookup-insert t s v m

  at-is_text :
      (s : String) (o : Option String) (m : Dict T) → is_text s o ≡ true → at m o ≡ lookup s m
  at-is_text s none m h = cc
  at-is_text s (some t) m h = rw ((str_eq_iff t s).0 h)

  lookup-apply_deleted :
      (s : String) (ks : List Key) (m : Dict T)
      → lookup s (apply_deleted ks m) ≡ (if any (names s) ks then none else lookup s m)
  unfolding apply_deleted
  lookup-apply_deleted s [] m = refl
  lookup-apply_deleted s (k ∷ ks) m = ground (
    arith,
    lookup-apply_deleted s ks (put (key_string k) none m),
    lookup-put s (key_string k) none m,
  )

  lookup-apply_updated :
      (c : Cache T) (s : String) (ks : List Key) (m : Dict T)
      → lookup s (apply_updated ks (map (stored c) ks) m)
        ≡ (if any (names s) ks then lookup s c.key_value_store else lookup s m)
  unfolding apply_updated
  lookup-apply_updated c s [] m = refl
  lookup-apply_updated c s (k ∷ ks) m = ground (
    arith,
    lookup-apply_updated c s ks (put (key_string k) (stored c k) m),
    lookup-put s (key_string k) (stored c k) m,
    at-is_text s (key_string k) c.key_value_store,
  )

  -- The copy after a report, entry by entry.
  pub lookup-apply :
      (c : Cache T) (s : String) (d : StateDiffs T) (m : Dict T)
      → d.updated_keys ≡ c.updated_keys
      → d.updated_values ≡ map (stored c) c.updated_keys
      → d.deleted_keys ≡ c.deleted_keys
      → lookup s (apply d m) ≡ (
          if any (names s) c.updated_keys
          then lookup s c.key_value_store
          else if any (names s) c.deleted_keys
          then none
          else lookup s m)
  unfolding apply
  lookup-apply c s d m e f g =
      rw (e, f, g, lookup-apply_updated c s c.updated_keys (apply_deleted c.deleted_keys m))
        (rw (lookup-apply_deleted s c.deleted_keys m))
