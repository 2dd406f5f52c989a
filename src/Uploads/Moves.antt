-- ===== src/Uploads/Moves.antt =====
-- Where the trackers of src/state/file-upload-tracker.cache.ts go.
use d_hub.Base.{
  ℕ, ◌+◌, String, ◌≡◌, refl, inl, inr, Bool, true, false, Option, none, some, List, [], ◌∷◌, ◌++◌,
  arith, str_eq, str_eq_refl, Option-cases, length, find, any, drop_first, length-append,
  drop_first-append, ok,
}
use d_hub.Uploads.{
  ProgressEvent, Tracker, Uploads, has_token, get_upload, add_upload_tracker, mark_upload_done,
  progressed, update_upload_progress,
}
use d_hub.Orm.Lists.{find-append}

abbrev pub total : Uploads → ℕ
total u = length u.current_uploads + (length u.uploads_done + length u.uploads_failed)

length-drop_first :
    (p : Tracker → Bool) (ts : List Tracker) {t : Tracker}
    → find p ts ≡ some t
    → length (drop_first p ts) + 1 ≡ length ts
length-drop_first p [] h = absurd (cc)
length-drop_first p (x ∷ ts) {t} h = ground (arith, h, length-drop_first p ts {t = t})

length-progressed :
    (token : String) (p : ProgressEvent) (ts : List Tracker)
    → length (progressed token p ts) ≡ length ts
length-progressed token p [] = refl
length-progressed token p (t ∷ ts) = ground (arith, length-progressed token p ts)

-- No event of progress, whatever its token, changes how many trackers there are, the current ones, those
-- done and those failed taken together.
pub update_upload_progress-total :
    (token : String) (e : ProgressEvent) (reason : Option String) (now : ℕ) (u : Uploads)
    → (total (update_upload_progress token e reason now u).1 ≡ total u)
unfolding update_upload_progress mark_upload_done get_upload
update_upload_progress-total token e reason now u =
    elim (Option-cases (find (has_token token) u.current_uploads)) [
      | inl f ↦ ground (arith, f)
      | inr (t, f) ↦ ground (
        arith,
        f,
        length-drop_first (has_token token) u.current_uploads f,
        length-progressed token e u.current_uploads,
        length-append u.uploads_done (record t { failed_at = some now; reason = none } ∷ []),
        length-append u.uploads_failed (record t { succeeded_at = some now } ∷ []),
      )
    ]

abbrev pub added : String → ℕ → String → Tracker
added token now file = record {
  correlation_token = token;
  started_at = now;
  multer_file = file;
  progress = none;
  failed_at = none;
  succeeded_at = none;
  reason = none;
}

-- After a tracker is added under a new token, the event that completes it takes it and its listener out
-- again and puts it at the end of those done, with the time in `failedAt` and none in `succeededAt`.
pub update_upload_progress-add_upload_tracker :
    (token : String) (now later : ℕ) (file : String) (e : ProgressEvent) (u : Uploads)
    → any (has_token token) u.current_uploads ≡ false
    → any (λ s. str_eq s token) u.listeners ≡ false
    → e.is_complete ≡ true
    → update_upload_progress token e none later (add_upload_tracker token now file u) ≡ (
      ok tt,
      record u {
        uploads_done =
            u.uploads_done ++ record (added token now file) { failed_at = some later } ∷ [];
      },
    )
unfolding update_upload_progress mark_upload_done add_upload_tracker
update_upload_progress-add_upload_tracker token now later file e u h k c =
    let t = added token now file in
    ground (
      arith,
      c,
      find-append (has_token token) u.current_uploads t h (str_eq_refl token),
      drop_first-append (has_token token) u.current_uploads t h (str_eq_refl token),
      drop_first-append (λ s. str_eq s token) u.listeners token k (str_eq_refl token),
    )
