-- ===== src/Files/Counted.antt =====
-- What the purges of src/state/file.cache.ts leave, and what src/state/printer-files.store.ts deletes.
use mathlib.Core.Option
use d_hub.Base.{
  ℕ, ◌+◌, ◌*◌, String, ◌≡◌, ◌↔◌, refl, inl, inr, Bool, true, false, not, ◌&&◌, none, List, [], ◌∷◌,
  arith, str_eq, str_eq_iff, str_eq_refl, ◌==◌, ltb, if◌then◌else◌, Option-cases, keep, drop_first,
  Result, ok, throw, ◌>>=◌,
}
use d_hub.Base.Dict.{lookup, insert, remove, lookup-insert, lookup-remove}
use d_hub.Files.{
  FileDto, FileCache, total, update_cache_file_ref_count, cache_printer_files, get_printer_files,
  purge_printer_id, purge_file, is_outdated, get_outdated_files, delete_each_file,
  delete_outdated_files,
}

-- After files are cached for a printer, whose id is not empty, and then purged, the call returns, the
-- printer has none, the others are as they were, and the count still has the files that are gone.
pub purge-cache :
    (id : String) (files : List FileDto) (c : FileCache)
    → str_eq id "" ≡ false
    → (c' : FileCache) × ((cache_printer_files id files >>= λ u. purge_printer_id id) c
        ≡ (ok tt, c'))
      × ((other : String)
          → lookup other c'.printer_file_storage
            ≡ (if str_eq id other then none else lookup other c.printer_file_storage))
      × (c'.total_file_count ≡ total (insert id files c.printer_file_storage))
unfolding cache_printer_files purge_printer_id update_cache_file_ref_count
purge-cache id files c h =
    let m = insert id files c.printer_file_storage in
    (
      record { printer_file_storage = remove id m; total_file_count = total m },
      ground (arith, h, lookup-insert id id files c.printer_file_storage, str_eq_refl id),
      (λ other.
          ground
            (arith, lookup-insert id other files c.printer_file_storage, lookup-remove id other m)),
      refl,
    )

-- Deleting a file of a printer, whose id is not empty, takes the first file with its path out of the
-- cached list, if there is one, and the other printers keep theirs.
pub lookup-purge_file :
    (id path other : String) (c : FileCache)
    → str_eq id "" ≡ false
    → lookup other (purge_file id path c).1.printer_file_storage ≡ (
        if str_eq id other
        then Option.map (drop_first (λ f. str_eq f.path path)) (lookup id c.printer_file_storage)
        else lookup other c.printer_file_storage)
unfolding purge_file get_printer_files
lookup-purge_file id path other c h = elim (Option-cases (lookup id c.printer_file_storage)) [
  | inl e ↦ ground (arith, h, e, str_eq_iff id other)
  | inr (files, e) ↦ ground (
    arith,
    h,
    e,
    lookup-insert id other (drop_first (λ f. str_eq f.path path) files) c.printer_file_storage,
  )
]

abbrev pub is_deleted : Result (Unit {0}) → Bool
is_deleted (ok u) = true
is_deleted (throw e) = false

delete_each_file_lem :
    (d : String → Result (Unit {0})) (fs : List FileDto)
    → delete_each_file d fs
      ≡ (keep (λ f. not (is_deleted (d f.path))) fs, keep (λ f. is_deleted (d f.path)) fs)
unfolding delete_each_file
delete_each_file_lem d [] = refl
delete_each_file_lem d (f ∷ fs) = ground (arith, delete_each_file_lem d fs)

-- A date that is there, and that lies more than the days given, of 86,400 seconds, before the time.
abbrev pub is_older : ℕ → ℕ → FileDto → Bool
is_older days now f = ltb 0 f.date && ltb (f.date * 1000 + days * 86400000) now

is_outdated_lem : (days now : ℕ) (f : FileDto) → is_outdated days now f ≡ is_older days now f
is_outdated_lem days now f = ground arith

keep-is_outdated :
    (days now : ℕ) (fs : List FileDto)
    → keep (is_outdated days now) fs ≡ keep (is_older days now) fs
keep-is_outdated days now [] = refl
keep-is_outdated days now (f ∷ fs) =
    ground (arith, is_outdated_lem days now f, keep-is_outdated days now fs)

-- Deleting the outdated files of a printer leaves the cache as it is, and answers exactly if the client
-- is made, the id is not empty, the number of days is not 0 and the printer is known. The answer is then
-- which deletions failed and which succeeded, of those cached files of the printer, and no others, that
-- have a date and are older than the days given.
pub delete_outdated_files_outcome :
    (g p : Result (Unit {0})) (d : String → Result (Unit {0})) (id : String) (days now : ℕ)
    (c : FileCache) (failed succeeded : List FileDto)
    → let tried = keep (is_older days now) (Option.get_or (lookup id c.printer_file_storage) []) in
      ((delete_outdated_files g p d id days now c).1 ≡ c)
      × (((delete_outdated_files g p d id days now c).0 ≡ ok (failed, succeeded)) ↔ (
          (g ≡ ok tt)
          × (p ≡ ok tt)
          × (str_eq id "" ≡ false)
          × ((days == 0) ≡ false)
          × (keep (λ f. not (is_deleted (d f.path))) tried ≡ failed)
          × (keep (λ f. is_deleted (d f.path)) tried ≡ succeeded)))
unfolding delete_outdated_files get_outdated_files get_printer_files
delete_outdated_files_outcome g p d id days now c failed succeeded =
    elim (Option-cases (lookup id c.printer_file_storage)) [
      | inl e ↦ (ground (arith, e), ground (arith, e, delete_each_file_lem d []))
      | inr (fs, e) ↦ (
        ground (arith, e),
        ground (
          arith,
          e,
          keep-is_outdated days now fs,
          delete_each_file_lem d (keep (is_older days now) fs),
        ),
      )
    ]
