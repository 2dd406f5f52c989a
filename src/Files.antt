-- ===== src/Files.antt =====
-- src/state/file.cache.ts and src/state/printer-files.store.ts. The files that a printer lists, and
-- the outcome of deleting one on it, are arguments, as are the printer cache's answers.
pub mod Counted
mod Tests
use d_hub.Base.{
  ℕ, ◌+◌, ◌*◌, String, Bool, not, ◌&&◌, Option, none, some, List, [], ◌∷◌, str_eq, ltb, ◌==◌,
  if◌then◌else◌, length, keep, drop_first, error, validation_exception, Result, ok, throw, Prog,
  ◌>>=◌, ◌>>◌, pure, fail, modify, detached,
}
use d_hub.Base.Dict.{Dict, lookup, insert, remove}

pub record FileDto : Type 0 where
  pub path : String
  pub date : ℕ  -- 0 where it is missing, which the code treats alike

pub record FileCache : Type 0 where
  pub printer_file_storage : Dict (List FileDto)
  pub total_file_count : ℕ

abbrev pub total : Dict (List FileDto) → ℕ
total [] = 0
total (e ∷ m) = length e.1 + total m

unfoldable pub update_cache_file_ref_count : FileCache → FileCache
update_cache_file_ref_count c = record c { total_file_count = total c.printer_file_storage }

unfoldable pub cache_printer_files : String → List FileDto → Prog FileCache (Unit {0})
unfolding update_cache_file_ref_count insert
cache_printer_files id files c = if str_eq id "" then (throw error, c) else (
  ok tt,
  update_cache_file_ref_count
      (record c { printer_file_storage = insert id files c.printer_file_storage }),
)

unfoldable pub get_printer_files : String → Prog FileCache (Option (List FileDto))
unfolding lookup
get_printer_files id c =
    if str_eq id "" then (throw error, c) else (ok (lookup id c.printer_file_storage), c)

-- The count is left as it was.
unfoldable pub purge_printer_id : String → Prog FileCache (Unit {0})
unfolding lookup remove
purge_printer_id id c =
    if str_eq id ""
    then (throw validation_exception, c)
    else elim (lookup id c.printer_file_storage) [
      | none ↦ (ok tt, c)
      | some files ↦ (ok tt, record c { printer_file_storage = remove id c.printer_file_storage })
    ]

-- The array is changed in place, and the count is left as it was.
unfoldable pub purge_file : String → String → Prog FileCache (Unit {0})
unfolding get_printer_files insert
purge_file id file_path = do
  found ← get_printer_files id
  elim found [
    | none ↦ pure tt
    | some files ↦ modify (λ c. record c {
      printer_file_storage =
          insert id (drop_first (λ f. str_eq f.path file_path) files) c.printer_file_storage;
    })
  ]

-- `loadFiles`, with what the printer answers; it caches the files by itself.
unfoldable pub load_files : String → Result (List FileDto) → Prog FileCache (List FileDto)
unfolding cache_printer_files
load_files id (throw e) = fail e
load_files id (ok files) = do cache_printer_files id files; pure files

-- `loadFilesStore`: the files are cached once more, and an exception is logged.
unfoldable pub load_files_store : List (String × Result (List FileDto)) → FileCache → FileCache
unfolding load_files
load_files_store [] c = c
load_files_store ((id, answer) ∷ printers) c =
    load_files_store printers
      (detached (load_files id answer >>= λ files. cache_printer_files id files) c)

-- `file.date + ageDaysMax * 86400 < Date.now() / 1000`, both sides in milliseconds.
abbrev pub is_outdated : ℕ → ℕ → FileDto → Bool
is_outdated age_days_max now f =
    not (f.date == 0) && ltb ((f.date + age_days_max * 86400) * 1000) now

unfoldable pub get_outdated_files : String → ℕ → ℕ → Prog FileCache (List FileDto)
unfolding get_printer_files
get_outdated_files id age_days_max now =
    if age_days_max == 0 then fail validation_exception else (do
      found ← get_printer_files id
      elim found [ none ↦ pure [] | some files ↦ pure (keep (is_outdated age_days_max now) files) ])

-- The loop of `deleteOutdatedFiles`: those that failed, and those that succeeded.
unfoldable pub delete_each_file :
    (String → Result (Unit {0})) → List FileDto → List FileDto × List FileDto
delete_each_file delete_file [] = ([], [])
delete_each_file delete_file (f ∷ files) =
    let (failed, succeeded) = delete_each_file delete_file files in
    elim (delete_file f.path) [ ok u ↦ (failed, f ∷ succeeded) | throw e ↦ (f ∷ failed, succeeded) ]

-- `get_by_id` is the making of the client, `printer_found` the look-up of the printer's name.
unfoldable pub delete_outdated_files :
    Result (Unit {0})
    → Result (Unit {0})
    → (String → Result (Unit {0}))
    → String
    → ℕ
    → ℕ
    → Prog FileCache (List FileDto × List FileDto)
unfolding get_outdated_files delete_each_file
delete_outdated_files get_by_id printer_found delete_file id age_days_max now = do
  _ ← λ c. (get_by_id, c)
  files ← get_outdated_files id age_days_max now
  _ ← λ c. (printer_found, c)
  pure (delete_each_file delete_file files)

unfoldable pub purge_printer_files : Result String → Prog FileCache (Unit {0})
unfolding purge_printer_id
purge_printer_files (throw e) c = (throw e, c)
purge_printer_files (ok id) c = purge_printer_id id c

-- Of the printers that `listCachedPrinters()` lists, which are those that are enabled.
unfoldable pub purge_files : List String → Prog FileCache (Unit {0})
unfolding purge_printer_id
purge_files [] = pure tt
purge_files (id ∷ ids) = do purge_printer_id id; purge_files ids

unfoldable pub delete_file : String → String → Prog FileCache (Unit {0})
unfolding purge_file
delete_file id file_path = purge_file id file_path
