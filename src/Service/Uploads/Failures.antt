-- ===== src/Service/Uploads/Failures.antt =====
-- core/services/upload_service.py, lines 54-135, 197-265 and 308-335: when an upload is completed, and what
-- a storage that fails leaves behind.
use rendition.Common.{ℕ, String, Bool, true, false, Option, List, ◌≡◌, refl, nat_eq, string_eq}
use rendition.Api.{uploading, CompletedPart}
use rendition.Service.{UploadSession, Video, raises, returns}
use rendition.Service.Uploads.{
  get_active_upload_session, validate_completed_upload_parts, Completing, complete_video_upload,
  fail_session,
}
use rendition.Service.Uploads.Steps.{abort_video_upload, refresh_video_upload}
use rendition.Service.Uploads.Followed.{session_uploading}

abbrev missing : String
missing = "video upload is missing multipart state"

-- Every later call on the upload fails and changes nothing.
abbrev pub IsStuck : Video → Type 0
IsStuck v =
    (v.status ≡ uploading)
    × ((now : ℕ) (new_id : ℕ → String) (max_attempts : ℕ) (storage : Completing)
          (parts : List CompletedPart)
        → complete_video_upload now new_id max_attempts storage parts v ≡ (raises missing, v))
    × ((presign : ℕ → Option String) (part_count : ℕ)
        → refresh_video_upload presign part_count v ≡ (raises missing, v))
    × ((now : ℕ) (aborts : Bool) → abort_video_upload now aborts v ≡ (raises missing, v))

failed_session-IsStuck :
    (error : String) (session : UploadSession) (v : Video)
    → v.status ≡ uploading
    → IsStuck (fail_session error session v)
unfolding complete_video_upload refresh_video_upload abort_video_upload get_active_upload_session
failed_session-IsStuck error session v up = (
  up,
  (λ now new_id max_attempts storage parts. simp up refl),
  (λ presign part_count. simp up refl),
  (λ now aborts. simp up refl),
)

-- If the storage cannot put the parts of an upload together, or cannot abort it, then the upload can be
-- neither completed nor refreshed nor aborted from then on, whatever the storage answers later: each call
-- raises and changes nothing, and the video stays uploading.
pub storage_failure-IsStuck :
    (now : ℕ) (new_id : ℕ → String) (max_attempts : ℕ) (storage : Completing)
    (parts : List CompletedPart) (session : UploadSession) (v : Video)
    → get_active_upload_session v ≡ returns session
    → validate_completed_upload_parts session parts ≡ true
    → storage.completes ≡ false
    → IsStuck (complete_video_upload now new_id max_attempts storage parts v).1
      × IsStuck (abort_video_upload now false v).1
unfolding complete_video_upload abort_video_upload
storage_failure-IsStuck now new_id max_attempts storage parts session v active valid fails =
    let up = session_uploading v session active in
    (
      simp (active, valid, fails) (failed_session-IsStuck _ session v up),
      simp active (failed_session-IsStuck _ session v up),
    )
