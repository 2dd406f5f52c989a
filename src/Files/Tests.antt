-- ===== src/Files/Tests.antt =====
-- The file cache with one printer's files.
use d_hub.Base.{
  String, ◌≡◌, ◌↔◌, refl, ◌==◌, false, not, none, [], ◌∷◌, str_eq, if◌then◌else◌, keep, axios_error,
  Result, ok, throw, ◌>>=◌,
}
use d_hub.Base.Dict.{lookup, insert}
use d_hub.Files.{
  FileDto, FileCache, total, cache_printer_files, purge_printer_id, delete_outdated_files,
}
use d_hub.Files.Counted.{purge-cache, is_deleted, is_older, delete_outdated_files_outcome}

abbrev old_file : FileDto
old_file = record { path = "old.gcode"; date = 1000 }

abbrev new_file : FileDto
new_file = record { path = "new.gcode"; date = 900000 }

abbrev cached : FileCache
cached = record {
  printer_file_storage = ("1", old_file ∷ new_file ∷ []) ∷ [];
  total_file_count = 2;
}

purge-cache_example :
    (c' : FileCache) × ((cache_printer_files "2" (old_file ∷ []) >>= λ u. purge_printer_id "2")
        cached
      ≡ (ok tt, c'))
    × ((other : String)
        → lookup other c'.printer_file_storage
          ≡ (if str_eq "2" other then none else lookup other cached.printer_file_storage))
    × (c'.total_file_count ≡ total (insert "2" (old_file ∷ []) cached.printer_file_storage))
purge-cache_example = purge-cache "2" (old_file ∷ []) cached refl

abbrev refuse_new : String → Result (Unit {0})
refuse_new s = if str_eq s "new.gcode" then throw (axios_error none) else ok tt

delete_outdated_files_outcome_example :
    let tried = keep (is_older 1 1000000000) (old_file ∷ new_file ∷ []) in
    ((delete_outdated_files (ok tt) (ok tt) refuse_new "1" 1 1000000000 cached).1 ≡ cached)
    × (((delete_outdated_files (ok tt) (ok tt) refuse_new "1" 1 1000000000 cached).0
          ≡ ok (new_file ∷ [], old_file ∷ []))
        ↔ ((◌≡◌ {A = Result (Unit {0})} (ok tt) (ok tt))
            × (◌≡◌ {A = Result (Unit {0})} (ok tt) (ok tt))
            × (str_eq "1" "" ≡ false)
            × ((1 == 0) ≡ false)
            × (keep (λ f. not (is_deleted (refuse_new f.path))) tried ≡ new_file ∷ [])
            × (keep (λ f. is_deleted (refuse_new f.path)) tried ≡ old_file ∷ [])))
unfolding lookup
delete_outdated_files_outcome_example =
    delete_outdated_files_outcome (ok tt) (ok tt) refuse_new "1" 1 1000000000 cached (new_file ∷ [])
      (old_file ∷ [])
