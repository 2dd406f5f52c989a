-- ===== src/Uploads.antt =====
-- src/state/file-upload-tracker.cache.ts. The listeners of the event bus are the tokens they listen
-- for; drawing a token is an argument.
pub mod Moves
mod Tests
use d_hub.Base.{
  ℕ, ◌-◌, ◌*◌, String, Bool, true, false, Option, none, some, List, [], ◌∷◌, ◌++◌, str_eq, ltb,
  if◌then◌else◌, keep, find, drop_first, type_error, ok, throw, Prog,
}

-- An event of axios: whether `progress` is 1, `failed`, and the rest.
pub record ProgressEvent : Type 0 where
  pub is_complete : Bool
  pub failed : Bool
  pub bytes : ℕ

pub record Tracker : Type 0 where
  pub correlation_token : String
  pub started_at : ℕ
  pub multer_file : String
  pub progress : Option ProgressEvent
  pub failed_at : Option ℕ
  pub succeeded_at : Option ℕ
  pub reason : Option String

pub record Uploads : Type 0 where
  pub current_uploads : List Tracker
  pub uploads_done : List Tracker
  pub uploads_failed : List Tracker
  pub listeners : List String

abbrev pub has_token : String → Tracker → Bool
has_token token t = str_eq t.correlation_token token

abbrev pub is_recent : ℕ → Tracker → Bool
is_recent now t = ltb (now - t.started_at) (60 * 60 * 1000)

-- `done` and `failed` of the last hour, or of all time.
unfoldable pub get_uploads : Bool → ℕ → Uploads → List Tracker × List Tracker × List Tracker
get_uploads filter_hour_old now u =
    if filter_hour_old
    then (
      u.current_uploads,
      keep (is_recent now) u.uploads_done,
      keep (is_recent now) u.uploads_failed,
    )
    else (u.current_uploads, u.uploads_done, u.uploads_failed)

unfoldable pub get_upload : String → Uploads → Option Tracker
get_upload token u = find (has_token token) u.current_uploads

unfoldable pub add_upload_tracker : String → ℕ → String → Uploads → Uploads
add_upload_tracker token now file u = record u {
  listeners = u.listeners ++ token ∷ [];
  current_uploads =
      u.current_uploads
      ++ record {
        correlation_token = token;
        started_at = now;
        multer_file = file;
        progress = none;
        failed_at = none;
        succeeded_at = none;
        reason = none;
      }
        ∷ [];
}

-- A success writes `failedAt`, a failure `succeededAt`.
unfoldable pub mark_upload_done : String → Bool → Option String → ℕ → Uploads → Uploads
mark_upload_done token success reason now u = elim (find (has_token token) u.current_uploads) [
  | none ↦ u
  | some t ↦
      let rest = drop_first (has_token token) u.current_uploads in
      if success
      then record u {
        current_uploads = rest;
        uploads_done = u.uploads_done ++ record t { failed_at = some now; reason = reason } ∷ [];
      }
      else record u {
        current_uploads = rest;
        uploads_failed = u.uploads_failed ++ record t { succeeded_at = some now } ∷ [];
      }
]

-- `upload.progress = …` on the first tracker with the token.
abbrev pub progressed : String → ProgressEvent → List Tracker → List Tracker
progressed token p [] = []
progressed token p (t ∷ ts) =
    if has_token token t then record t { progress = some p } ∷ ts else t ∷ progressed token p ts

abbrev pub off : String → Uploads → Uploads
off token u = record u { listeners = drop_first (λ s. str_eq s token) u.listeners }

unfoldable pub update_upload_progress :
    String → ProgressEvent → Option String → ℕ → Prog Uploads (Unit {0})
unfolding mark_upload_done get_upload
update_upload_progress token e reason now u =
    if e.is_complete
    then (ok tt, off token (mark_upload_done token true none now u))
    else if e.failed
    then (ok tt, off token (mark_upload_done token false reason now u))
    else elim (get_upload token u) [
      | none ↦ (throw type_error, u)
      | some t ↦ (ok tt, record u { current_uploads = progressed token e u.current_uploads })
    ]
