-- ===== src/KeyDiff/Tests.antt =====
-- The class `KeyDiffCache` at small inputs, and its theorems at inputs that meet their hypotheses.
use d_hub.Base.{
  ℕ, String, ◌≡◌, refl, true, false, some, List, [], ◌∷◌, if◌then◌else◌, any, error, ok, throw,
  detached,
}
use d_hub.Base.Dict.{lookup, insert, remove}
use d_hub.KeyDiff.{
  Cache, StateDiffs, empty, mark_updated, set_key_value, set_key_values_batch, delete_keys_batch,
  get_values_batch, begin_process, finish_process, process_state_diffs,
}
use d_hub.KeyDiff.Keys.{string, number, missing, decimal, key_string}
use d_hub.KeyDiff.Calls.{Call, sets, deletes, sets_batch, deletes_batch, calls}
use d_hub.KeyDiff.Replica.{apply, names}
use d_hub.KeyDiff.Marks.{IsConsistent, calls-IsConsistent, empty-IsConsistent}
use d_hub.KeyDiff.Process.{unusable, report, process_outcome, report-is_current}
use d_hub.KeyDiff.Batch.{write_during_process}

abbrev some_calls : List (Call ℕ)
some_calls =
    sets_batch ((number 1, 10) ∷ (string "b", 20) ∷ []) true
    ∷ deletes (string "1")
    ∷ sets (string "c") 5
    ∷ deletes_batch (string "b" ∷ string "x" ∷ []) false
    ∷ []

abbrev after_calls : Cache ℕ
after_calls = calls some_calls empty

marks_after_calls :
    (after_calls.updated_keys ≡ number 1 ∷ string "c" ∷ [])
    × (after_calls.deleted_keys ≡ string "1" ∷ string "b" ∷ string "x" ∷ [])
    × (after_calls.key_value_store ≡ ("c", 5) ∷ [])
unfolding calls key_string decimal delete_keys_batch set_key_value set_key_values_batch remove
    insert
marks_after_calls = (refl, refl, refl)

calls-IsConsistent_example : IsConsistent (calls some_calls empty)
calls-IsConsistent_example = calls-IsConsistent some_calls (empty-IsConsistent ℕ)

report-is_current_example :
    (d : StateDiffs ℕ) × (process_state_diffs (calls some_calls empty)
      ≡ (ok d, record (calls some_calls empty) { deleted_keys = []; updated_keys = [] }))
    × ((s : String) → lookup s (apply d []) ≡ lookup s (calls some_calls empty).key_value_store)
unfolding key_string decimal
report-is_current_example =
    report-is_current some_calls empty refl refl (refl, (refl, (refl, (refl, tt))))

process_outcome_example : process_state_diffs (mark_updated missing after_calls) ≡ (
    if any unusable (mark_updated missing after_calls).updated_keys
    then (throw error, mark_updated missing after_calls)
    else (
      ok (report (mark_updated missing after_calls)),
      record (mark_updated missing after_calls) { deleted_keys = []; updated_keys = [] },
    ))
process_outcome_example = process_outcome (mark_updated missing after_calls)

write_during_process_example :
    (d : StateDiffs ℕ) × (c' : Cache ℕ) × (finish_process
        ([], [])
        (detached (set_key_value (string "a") 1 true) (empty {T = ℕ}))
      ≡ (ok d, c'))
    × (lookup "a" c'.key_value_store ≡ some 1)
    × (any (names "a") d.updated_keys ≡ false)
    × (d.deleted_keys ≡ (detached (set_key_value (string "a") 1 true) (empty {T = ℕ})).deleted_keys)
    × (c'.updated_keys ≡ [])
    × (c'.deleted_keys ≡ [])
unfolding key_string begin_process get_values_batch
write_during_process_example =
    write_during_process empty (string "a") 1 {read = ([], [])} refl refl refl
