-- ===== src/Service/Uploads.antt =====
-- core/services/upload_service.py, lines 54-335, with core/services/video_service.py, lines 22-87, and
-- core/services/outbox_service.py, lines 18-34: uploads of sources. What the storage answers is an argument.
-- A function may commit and then raise: it returns what it raises with the video that it leaves.
pub mod Steps
pub mod Fits
pub mod Failures
pub mod Followed
pub mod Whole
use Prim.Native.String.{◌++◌ as append}
use rendition.Common.{
  ℕ, zero, suc, ◌+◌, ◌*◌, String, Bool, true, false, not, ◌||◌, Option, none, some, List, [], ◌∷◌,
  ◌++◌, map, length, if◌then◌else◌, nat_eq, string_eq, ◌==◌, or_else,
}
use rendition.Api.{
  ProcessingStatus, uploading, pending, failed, CompletedPart, VideoState, VideoCreateResponse,
  MultipartUploadPart,
}
use rendition.Service.{UploadStatus, UploadSession, Job, Rendition, Video, Outcome, raises, returns}
use rendition.Service.Status.{is_empty}
use rendition.Service.Storage.{range, build_source_key, refresh_multipart_upload_urls}
use rendition.Service.Playback.Presets.{EncodingPreset, hls_presets}
use rendition.Service.Jobs.Finishing.{new_message}

abbrev is_uploading : ProcessingStatus → Bool
is_uploading uploading = true
is_uploading _ = false

abbrev is_active : UploadStatus → Bool
is_active UploadStatus.active = true
is_active _ = false

abbrev active_session : Option UploadSession → Outcome UploadSession
active_session none = raises "video upload is missing multipart state"
active_session (some session) =
    if is_active session.status
    then returns session
    else raises "video upload is missing multipart state"

-- _get_active_upload_session and _get_active_upload_session_for_update
unfoldable pub get_active_upload_session : Video → Outcome UploadSession
get_active_upload_session video =
    if not (is_uploading video.status)
    then raises "video upload is not active"
    else active_session video.upload_session

abbrev pub equal_lists : List ℕ → List ℕ → Bool
equal_lists [] [] = true
equal_lists (x ∷ xs) (y ∷ ys) = let rest = equal_lists xs ys in if x == y then rest else false
equal_lists _ _ = false

-- Whether the numbers are those from 1 to the part count, in order.
unfoldable pub validate_completed_upload_parts : UploadSession → List CompletedPart → Bool
validate_completed_upload_parts session parts =
    equal_lists (map (λ (p : CompletedPart). p.part_number) parts) (range 1 session.part_count)

pub record ObjectMetadata : Type 0 where
  pub content_length : ℕ
  pub content_type : Option String

abbrev is_type : Option String → String → Bool
is_type none t = false
is_type (some s) t = s == t

-- The error, if there is one.
unfoldable pub validate_completed_upload_metadata :
    UploadSession → Option ObjectMetadata → Option String
validate_completed_upload_metadata session none = some "completed upload object was not found"
validate_completed_upload_metadata session (some m) =
    if not (m.content_length == session.size_bytes)
    then some "completed upload size mismatch"
    else if not (is_type m.content_type session.content_type)
    then some "completed upload content type mismatch"
    else none

module _ (now : ℕ) (new_id : ℕ → String) (max_attempts : ℕ) where
  abbrev pub new_rendition : ℕ → EncodingPreset → Rendition
  new_rendition k preset = record {
    id = new_id (2 * k);
    resolution = preset.resolution;
    bitrate = preset.video_bitrate;
    status = pending;
    output_path = none;
    error = none;
    completed_at = none;
    job = record {
      id = new_id (2 * k + 1);
      status = pending;
      error = none;
      attempt_count = 0;
      max_attempts = max_attempts;
      worker_id = none;
      started_at = none;
      finished_at = none;
      heartbeat_at = none;
      next_run_at = none;
      outbox_message = some (new_message now);
    };
  }

  unfoldable pub new_renditions : ℕ → List EncodingPreset → List Rendition
  new_renditions k [] = []
  new_renditions k (preset ∷ presets) = new_rendition k preset ∷ new_renditions (suc k) presets

  -- Each job with its message, as create_outbox_messages makes it next.
  unfoldable pub create_renditions_and_jobs : Video → List Rendition
  create_renditions_and_jobs video =
      if is_empty video.renditions then new_renditions 0 hls_presets else video.renditions

-- get_video_state for a video that exists
unfoldable pub get_video_state : Video → VideoState
get_video_state video = record {
  video_id = video.id;
  status = video.status;
  renditions =
      map (λ (r : Rendition). record { resolution = r.resolution; status = r.status })
        video.renditions;
}

-- What the storage answers: whether it has put the parts together and whether it deletes the object; it
-- tells the object's metadata or raises.
pub record Completing : Type 0 where
  pub completes : Bool
  pub metadata : Outcome (Option ObjectMetadata)
  pub deletes : Bool

abbrev fail_session : String → UploadSession → Video → Video
fail_session error session video = record video {
  upload_session = some (record session { status = UploadStatus.failed; error = some error });
}

unfoldable pub upload_completed : ℕ → (ℕ → String) → ℕ → UploadSession → Video → Video
upload_completed now new_id max_attempts session video = record video {
  status = pending;
  uploaded_at = some now;
  upload_session =
      some (record session { status = UploadStatus.completed; completed_at = some now });
  renditions = create_renditions_and_jobs now new_id max_attempts video;
}

-- The object is there and wrong: it is deleted.
abbrev pub discard : Bool → String → UploadSession → Video → Outcome VideoState × Video
discard deletes error session video =
    if deletes then (raises error, fail_session error session video) else (
      raises "storage upload cleanup failed",
      fail_session (append error "; cleanup failed") session video,
    )

module _ (now : ℕ) (new_id : ℕ → String) (max_attempts : ℕ) (storage : Completing) where
  abbrev finish_upload : Option String → UploadSession → Video → Outcome VideoState × Video
  finish_upload (some error) session video = discard storage.deletes error session video
  finish_upload none session video =
      let video' = upload_completed now new_id max_attempts session video in
      (returns (get_video_state video'), video')

  abbrev with_metadata :
      Outcome (Option ObjectMetadata) → UploadSession → Video → Outcome VideoState × Video
  with_metadata (raises e) session video = (
    raises "storage upload completion failed",
    fail_session "storage upload completion failed" session video,
  )
  with_metadata (returns m) session video =
      finish_upload (validate_completed_upload_metadata session m) session video

  abbrev complete_session :
      List CompletedPart → Outcome UploadSession → Video → Outcome VideoState × Video
  complete_session parts (raises e) video = (raises e, video)
  complete_session parts (returns session) video =
      if not (validate_completed_upload_parts session parts)
      then (raises "upload parts must be ordered and complete from 1 to part_count", video)
      else if storage.completes
      then with_metadata storage.metadata session video
      else (
        raises "storage upload completion failed",
        fail_session "storage upload completion failed" session video,
      )

  -- complete_video_upload with the video that it has found
  unfoldable pub complete_video_upload : List CompletedPart → Video → Outcome VideoState × Video
  complete_video_upload parts video = complete_session parts (get_active_upload_session video) video
