-- ===== src/Examples.antt =====
-- A small file, its limits, the service's answers and the events of its upload, for the examples below.
pub mod Texts
pub mod Transfers
pub mod Rows
pub mod Reports
pub mod Pages
pub mod Playback
pub mod Service
pub mod Worker
pub mod Encoding
pub mod Contract
use rendition.Common.{ℕ, ◌*◌, ◌/◌, String, true, Option, none, some, List, [], ◌∷◌}
use rendition.Api.{
  MultipartUploadPart, VideoCreateResponse, UploadConfigResponse, ProcessingStatus, VideoState,
  VideoListItem,
}
use rendition.Api.Http.{ok, err, error}
use rendition.Uploads.Multipart.{File, Options, on_progress, on_load, on_error}
use rendition.Uploads.Multipart.Steps as Upload
use rendition.Uploads.Dashboard.{Browser}

abbrev pub clip : File
clip = record { name = "clip.mp4"; type = ""; content = 11 ∷ 12 ∷ 13 ∷ 14 ∷ 15 ∷ [] }

abbrev pub limits : UploadConfigResponse
limits = record {
  max_size_bytes = 100;
  max_part_count = 10;
  part_size_bytes = 2;
  allowed_content_types = "video/mp4" ∷ [];
}

abbrev pub percent : ℕ → ℕ → ℕ
percent loaded total = loaded * 100 / total

abbrev pub browser : Browser
browser = record { format_date = λ s. s; percent = percent }

abbrev pub clip_upload : Options
clip_upload = record { file = clip; upload_config = limits; row_id = "row"; percent = percent }

abbrev pub part : ℕ → MultipartUploadPart
part n = record { part_number = n; upload_url = "https://storage/part" }

abbrev pub created_clip : VideoCreateResponse
created_clip = record {
  video_id = "v1";
  bucket = "videos";
  key = "v1/source";
  upload_id = "u1";
  parts = part 2 ∷ part 1 ∷ part 3 ∷ [];
}

abbrev pub running_clip : VideoState
running_clip = record { video_id = "v1"; status = ProcessingStatus.running; renditions = [] }

abbrev pub done_clip : VideoState
done_clip = record { video_id = "v1"; status = ProcessingStatus.done; renditions = [] }

-- All parts are sent, the second one last, and the upload is completed.
abbrev pub transfer : List Upload.Event
transfer =
    Upload.start
    ∷ Upload.created 0 (ok created_clip)
    ∷ Upload.xhr 0 1 (on_progress true 1)
    ∷ Upload.xhr 0 0 (on_load 200 (some "e1"))
    ∷ Upload.xhr 0 2 (on_load 200 (some "e3"))
    ∷ Upload.xhr 0 1 (on_load 200 (some "e2"))
    ∷ Upload.completed 0 (ok running_clip)
    ∷ []

-- The second part fails and is sent again.
abbrev pub retried_transfer : List Upload.Event
retried_transfer =
    Upload.start
    ∷ Upload.created 0 (ok created_clip)
    ∷ Upload.xhr 0 0 (on_load 200 (some "e1"))
    ∷ Upload.xhr 0 1 on_error
    ∷ Upload.xhr 0 2 (on_load 200 (some "e3"))
    ∷ Upload.retry_failed_parts
    ∷ Upload.refreshed 1 (ok created_clip)
    ∷ Upload.xhr 1 0 (on_load 200 (some "e2"))
    ∷ Upload.completed 1 (ok running_clip)
    ∷ []

abbrev pub listed_clip : VideoListItem
listed_clip = record {
  video_id = "v1";
  title = "clip";
  uploaded_at = none;
  created_at = "2024-05-01";
  status = ProcessingStatus.done;
  size_bytes = some 5;
  renditions = [];
}
