-- ===== src/Uploads/StatusCell.antt =====
-- frontend/src/components/uploads/status-badge.tsx and status-cell.tsx: what a row says of its status.
-- Layout classes are left out; the badge's colours are kept.
use Prim.Native.String.{◌++◌ as append}
use rendition.Common.{ℕ, String, Option, none, some}
use rendition.Common.Text.{show}
use rendition.Uploads.{
  VideoStatus, uploading, upload_failed, pending, processing, partial, done, failed,
  RenditionProgress, UploadedVideo,
}

unfoldable pub status_labels : VideoStatus → String
status_labels done = "Done"
status_labels pending = "Queued"
status_labels processing = "Processing"
status_labels partial = "Partial"
status_labels uploading = "Uploading"
status_labels failed = "Failed"
status_labels upload_failed = "Upload failed"

unfoldable pub status_styles : VideoStatus → String
status_styles done = "border-emerald-200 bg-emerald-50 text-emerald-700"
status_styles pending = "border-stone-200 bg-stone-50 text-stone-600"
status_styles processing = "border-sky-200 bg-sky-50 text-sky-700"
status_styles partial = "border-amber-200 bg-amber-50 text-amber-700"
status_styles uploading = "border-sky-200 bg-sky-50 text-sky-700"
status_styles failed = "border-red-200 bg-red-50 text-red-700"
status_styles upload_failed = "border-red-200 bg-red-50 text-red-700"

pub record Badge : Type 0 where
  pub label : String
  pub style : String

unfoldable pub status_badge : VideoStatus → Badge
status_badge status = record { label = status_labels status; style = status_styles status }

-- A bar with its label and percentage, a count of renditions, or a badge.
pub data Cell : Type 0 where
  bar : String → String → ℕ → Cell
  count : String → Cell
  badge : Badge → Cell

abbrev progress_or_zero : Option RenditionProgress → RenditionProgress
progress_or_zero none = record { completed = 0; total = 0 }
progress_or_zero (some p) = p

renditions_done : RenditionProgress → Cell
renditions_done p =
    count (append (show p.completed) (append "/" (append (show p.total) " renditions done")))

by_status : VideoStatus → UploadedVideo → Cell
by_status uploading video =
    bar (status_labels video.status) (append (show video.progress) "%") video.progress
by_status pending video = renditions_done (progress_or_zero video.rendition_progress)
by_status processing video = renditions_done (progress_or_zero video.rendition_progress)
by_status partial video = renditions_done (progress_or_zero video.rendition_progress)
by_status done video = badge (status_badge video.status)
by_status failed video = badge (status_badge video.status)
by_status upload_failed video = badge (status_badge video.status)

unfoldable pub status_cell : UploadedVideo → Cell
unfolding by_status renditions_done
status_cell video = by_status video.status video
