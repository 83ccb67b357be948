-- ===== src/Uploads/Dashboard/Listing.antt =====
-- frontend/src/components/uploads/upload-dashboard.tsx, lines 28-68: listed videos as rows of the table.
-- `format_date` is the date format of the browser, `Intl.DateTimeFormat`.
use rendition.Common.{
  ℕ, String, Bool, true, false, Option, none, some, ◌≡◌, arith, if◌then◌else◌, ◌==◌, string_eq,
}
use rendition.Api.{ProcessingStatus, VideoListItem}
use rendition.Uploads.{VideoStatus, pending, processing, partial, done, failed, UploadedVideo}
use rendition.Uploads.Utils.{format_bytes, rendition_progress_from_renditions}

unfoldable pub format_upload_date : (String → String) → Option String → String
format_upload_date format_date none = "Not uploaded"
format_upload_date format_date (some value) =
    if value == "" then "Not uploaded" else format_date value

unfoldable pub map_video_status : ProcessingStatus → VideoStatus
map_video_status ProcessingStatus.running = processing
map_video_status ProcessingStatus.partial = partial
map_video_status ProcessingStatus.done = done
map_video_status ProcessingStatus.skipped = done
map_video_status ProcessingStatus.failed = failed
map_video_status _ = pending

unfoldable pub progress_for_video_status : ProcessingStatus → ℕ
progress_for_video_status ProcessingStatus.done = 100
progress_for_video_status ProcessingStatus.skipped = 100
progress_for_video_status ProcessingStatus.failed = 0
progress_for_video_status ProcessingStatus.partial = 75
progress_for_video_status _ = 25

unfoldable pub is_pollable_status : VideoStatus → Bool
is_pollable_status pending = true
is_pollable_status processing = true
is_pollable_status partial = true
is_pollable_status _ = false

-- `a ?? b` for texts that may be null
abbrev first_text : Option String → String → Option String
first_text none b = some b
first_text (some a) b = some a

abbrev size_text : Option ℕ → String
size_text none = "-"
size_text (some n) = format_bytes n

unfoldable pub to_uploaded_video : (String → String) → VideoListItem → UploadedVideo
to_uploaded_video format_date video = record {
  id = video.video_id;
  video_id = some video.video_id;
  title = video.title;
  uploaded_at = format_upload_date format_date (first_text video.uploaded_at video.created_at);
  status = map_video_status video.status;
  size = size_text video.size_bytes;
  progress = progress_for_video_status video.status;
  rendition_progress = some (rendition_progress_from_renditions video.renditions);
  can_retry = false;
  can_cancel = false;
}

-- A listed video is asked for again until it is done, skipped or failed, and its bar is full exactly when
-- it is done or skipped.
pub to_uploaded_video_polling :
    (format_date : String → String) (video : VideoListItem)
    → (is_pollable_status (to_uploaded_video format_date video).status ≡ elim video.status [
      | ProcessingStatus.done ↦ false
      | ProcessingStatus.skipped ↦ false
      | ProcessingStatus.failed ↦ false
      | _ ↦ true
    ])
      × ((to_uploaded_video format_date video).progress ≡ 100
          → (to_uploaded_video format_date video).status ≡ done)
      × ((to_uploaded_video format_date video).status ≡ done
          → (to_uploaded_video format_date video).progress ≡ 100)
unfolding to_uploaded_video map_video_status progress_for_video_status is_pollable_status
to_uploaded_video_polling format_date video = (ground arith, ground arith, ground arith)
