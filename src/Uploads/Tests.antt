-- ===== src/Uploads/Tests.antt =====
-- Uploads of two files.
use d_hub.Base.{◌≡◌, refl, true, false, none, some, [], ◌∷◌, ◌++◌, type_error, ok, throw}
use d_hub.Uploads.{ProgressEvent, Uploads, add_upload_tracker, update_upload_progress}
use d_hub.Uploads.Moves.{added, update_upload_progress-add_upload_tracker}

abbrev one_upload : Uploads
one_upload = record {
  current_uploads = added "a" 5 "a.gcode" ∷ [];
  uploads_done = [];
  uploads_failed = [];
  listeners = "a" ∷ [];
}

abbrev done : ProgressEvent
done = record { is_complete = true; failed = false; bytes = 10 }

update_upload_progress-add_upload_tracker_example :
    update_upload_progress "b" done none 9 (add_upload_tracker "b" 6 "b.gcode" one_upload) ≡ (
      ok tt,
      record one_upload {
        uploads_done = [] ++ record (added "b" 6 "b.gcode") { failed_at = some 9 } ∷ [];
      },
    )
update_upload_progress-add_upload_tracker_example =
    update_upload_progress-add_upload_tracker "b" 6 9 "b.gcode" done one_upload refl refl refl

unknown_token :
    (update_upload_progress "c" (record done { is_complete = false }) none 9 one_upload).0
    ≡ throw type_error
unfolding update_upload_progress
unknown_token = refl
