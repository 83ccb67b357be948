-- ===== src/Service/Uploads/Steps.antt =====
-- core/services/upload_service.py, lines 137-194 and 268-335: creating, refreshing and aborting an upload,
-- and the calls of all functions of the service that change the database, in any order.
use rendition.Common.{
  ℕ, String, Bool, true, not, Option, none, some, List, [], ◌∷◌, ◌++◌, if◌then◌else◌, nat_eq,
  string_eq, ◌==◌,
}
use rendition.Api.{uploading, failed, CompletedPart, VideoCreateResponse, MultipartUploadPart}
use rendition.Service.{UploadStatus, UploadSession, Video, Outcome, raises, returns}
use rendition.Service.Storage.{build_source_key, refresh_multipart_upload_urls}
use rendition.Service.Jobs
use rendition.Service.Jobs.Steps.{Reply}
use rendition.Service.Uploads.{
  get_active_upload_session, complete_video_upload, Completing, fail_session,
}

pub record Source : Type 0 where
  pub filename : String
  pub content_type : String
  pub size_bytes : ℕ
  pub part_count : ℕ

abbrev pub new_session : String → String → String → Source → UploadSession
new_session bucket key upload_id source = record {
  bucket = bucket;
  object_key = key;
  object_upload_id = upload_id;
  filename = source.filename;
  content_type = source.content_type;
  size_bytes = source.size_bytes;
  part_count = source.part_count;
  status = UploadStatus.active;
  error = none;
  completed_at = none;
  aborted_at = none;
}

abbrev pub new_video : String → String → String → String → Source → Video
new_video video_id bucket key upload_id source = record {
  id = video_id;
  source = key;
  source_bucket = some bucket;
  source_filename = some source.filename;
  source_content_type = some source.content_type;
  source_size_bytes = some source.size_bytes;
  uploaded_at = none;
  upload_session = some (new_session bucket key upload_id source);
  source_metadata = none;
  playback_path = none;
  status = uploading;
  renditions = [];
}

abbrev pub response : UploadSession → String → List MultipartUploadPart → VideoCreateResponse
response session video_id parts = record {
  video_id = video_id;
  bucket = session.bucket;
  key = session.object_key;
  upload_id = session.object_upload_id;
  parts = parts;
}

-- The storage begins an upload and gives its id, or does not; then it signs the parts.
abbrev pub begun :
    (ℕ → Option String) → Option String → ℕ → Outcome (String × List MultipartUploadPart)
begun presign none part_count = raises "failed to create multipart upload"
begun presign (some upload_id) part_count =
    elim (refresh_multipart_upload_urls presign part_count) [
      | raises e ↦ raises e
      | returns parts ↦ returns (upload_id, parts)
    ]

abbrev pub add_video :
    String
    → String
    → String
    → Source
    → Outcome (String × List MultipartUploadPart)
    → List Video
    → Outcome VideoCreateResponse × List Video
add_video video_id bucket key source (raises e) db = (raises "storage upload creation failed", db)
add_video video_id bucket key source (returns (upload_id, parts)) db =
    let video = new_video video_id bucket key upload_id source in
    (returns (response (new_session bucket key upload_id source) video_id parts), db ++ video ∷ [])

abbrev pub with_key :
    String
    → String
    → (ℕ → Option String)
    → Option String
    → Source
    → Outcome String
    → List Video
    → Outcome VideoCreateResponse × List Video
with_key video_id bucket presign upload_id source (raises e) db = (raises e, db)
with_key video_id bucket presign upload_id source (returns key) db =
    add_video video_id bucket key source (begun presign upload_id source.part_count) db

-- The id is the new one of the row.
unfoldable pub create_video_upload :
    String
    → String
    → (ℕ → Option String)
    → Option String
    → Source
    → List Video
    → Outcome VideoCreateResponse × List Video
create_video_upload video_id bucket presign upload_id source db =
    with_key video_id bucket presign upload_id source (build_source_key video_id source.filename) db

abbrev pub refreshed :
    (ℕ → Option String) → ℕ → Outcome UploadSession → Video → Outcome VideoCreateResponse
refreshed presign part_count (raises e) video = raises e
refreshed presign part_count (returns session) video =
    if not (part_count == session.part_count)
    then raises "refresh part count must match upload session"
    else elim (refresh_multipart_upload_urls presign part_count) [
      | raises e ↦ raises "storage upload URL refresh failed"
      | returns parts ↦ returns (response session video.id parts)
    ]

-- refresh_video_upload changes nothing.
unfoldable pub refresh_video_upload :
    (ℕ → Option String) → ℕ → Video → Outcome VideoCreateResponse × Video
refresh_video_upload presign part_count video =
    (refreshed presign part_count (get_active_upload_session video) video, video)

abbrev pub aborted : ℕ → Bool → Outcome UploadSession → Video → Outcome Bool × Video
aborted now aborts (raises e) video = (raises e, video)
aborted now aborts (returns session) video =
    if aborts
    then (
      returns true,
      record video {
        status = failed;
        upload_session =
            some (record session { status = UploadStatus.aborted; aborted_at = some now });
      },
    )
    else (
      raises "storage upload abort failed",
      fail_session "storage upload abort failed" session video,
    )

unfoldable pub abort_video_upload : ℕ → Bool → Video → Outcome Bool × Video
abort_video_upload now aborts video = aborted now aborts (get_active_upload_session video) video

-- The function with the video of the id; without one it returns none.
unfoldable pub with_video {ℓ} :
    {A : Type ℓ}
    → String
    → (Video → Outcome A × Video)
    → List Video
    → Option (Outcome A) × List Video
with_video video_id f [] = (none, [])
with_video video_id f (v ∷ vs) =
    let rest = with_video video_id f vs in
    if v.id == video_id
    then (let changed = f v in (some changed.0, changed.1 ∷ vs))
    else (rest.0, v ∷ rest.1)

pub data Event : Type 0 where
  create : String → (ℕ → Option String) → Option String → Source → Event
  complete : ℕ → (ℕ → String) → ℕ → Completing → String → List CompletedPart → Event
  abort : ℕ → Bool → String → Event
  job : Jobs.Steps.Event → Event

module _ (accepts : String → String → Bool) (backoffs : List ℕ) (bucket : String) where
  -- The database after a call.
  unfoldable pub step : Event → List Video → List Video
  step (create video_id presign upload_id source) db =
      (create_video_upload video_id bucket presign upload_id source db).1
  step (complete now new_id max_attempts storage video_id parts) db =
      (with_video video_id (complete_video_upload now new_id max_attempts storage parts) db).1
  step (abort now aborts video_id) db = (with_video video_id (abort_video_upload now aborts) db).1
  step (job ev) db = (Jobs.Steps.step accepts backoffs ev db).1

  unfoldable pub run : List Event → List Video → List Video
  run [] db = db
  run (ev ∷ evs) db = run evs (step ev db)
