-- ===== src/Uploads/Table/Controls.antt =====
-- What the table offers for a row, against what the row says of itself.
use rendition.Common.{false, ◌||◌, List, [], ◌∷◌, map, ◌≡◌, arith, if◌then◌else◌}
use rendition.Uploads.{uploading, upload_failed, UploadedVideo}
use rendition.Uploads.Multipart.{is_uploading, is_upload_failed}
use rendition.Uploads.Multipart.Rows.{IsCoherent}
use rendition.Uploads.Table.{
  Control, Effect, on_cancel_upload, on_retry_upload, row_controls, retry_control, cancel_control,
  menu,
}

abbrev pub effects : List Control → List Effect
effects = map λ (c : Control). c.effect

-- Of a row that the upload controller hands out: while it uploads only "Cancel" is offered; when it has
-- failed, "Cancel" is offered, and "Retry" before it exactly if the row can be retried; in every other
-- status the menu of a stored video is offered.
pub row_controls_of_coherent :
    (row : UploadedVideo)
    → IsCoherent row
    → (row.status ≡ uploading → effects (row_controls row) ≡ on_cancel_upload row.id ∷ [])
      × (row.status ≡ upload_failed
          → effects (row_controls row) ≡ (
              if row.can_retry
              then on_retry_upload row.id ∷ on_cancel_upload row.id ∷ []
              else on_cancel_upload row.id ∷ []))
      × ((is_uploading row.status || is_upload_failed row.status) ≡ false
          → row_controls row ≡ menu row)
unfolding row_controls retry_control cancel_control
row_controls_of_coherent row h = (
  λ e. ground (arith, h.cancel, h.retry),
  λ e. ground (arith, h.cancel, h.retry),
  λ e. ground (arith, h.cancel, h.retry),
)
