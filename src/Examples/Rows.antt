-- ===== src/Examples/Rows.antt =====
-- The dashboard on a small file, and the controls of its rows.
use rendition.Common.{
  ℕ, ◌≤◌, true, false, ◌||◌, none, some, List, [], ◌∷◌, ◌≡◌, ◌≢◌, ◌↔◌, refl, arith, All, any,
  string_eq, nat_eq, ◌==◌, is_some, if◌then◌else◌,
}
use rendition.Common.Text.{last_segment}
use rendition.Api.Http.{ok}
use rendition.Api.Requests.{create_video_upload}
use rendition.Uploads.{UploadedVideo, uploading, upload_failed, done}
use rendition.Uploads.Multipart.{
  size, normalize_content_type, get_part_count, is_uploading, is_upload_failed,
}
use rendition.Uploads.Multipart.Steps as Upload
use rendition.Uploads.Dashboard.{
  Dashboard, Toast, success, initial, refusal, handle_file, to_uploaded_video, is_pollable_status,
  to_uploaded_video_polling,
}
use rendition.Uploads.Dashboard.Checks.{refusal-none_iff, handle_file_outcome}
use rendition.Uploads.Dashboard.Steps.{
  Event, mounted, config_reply, videos_reply, file_chosen, cancel_clicked, upload, registered, step,
  run,
}
use rendition.Uploads.Dashboard.Registered.{upload_rows_registered}
use rendition.Uploads.Dashboard.Cancelling.{IsGone, cancelled_stays_away}
use rendition.Uploads.Table.{row_controls, menu, on_cancel_upload, on_retry_upload}
use rendition.Uploads.Table.Controls.{effects, row_controls_of_coherent}
use rendition.Uploads.Dropzone.{
  Props, on_event, drop, input_change, drag_over, on_dragging_change, on_file_selected, selects,
  on_event_disabled,
}
use rendition.Uploads.Dropzone as Zone
use rendition.Examples.{clip, limits, browser, created_clip, listed_clip}

abbrev begun : List Event
begun =
    mounted
    ∷ config_reply 0 (ok limits)
    ∷ videos_reply 1 (ok (listed_clip ∷ []))
    ∷ file_chosen "row" (some clip)
    ∷ upload "row" (Upload.created 0 (ok created_clip))
    ∷ []

abbrev later : List Event
later =
    upload "row" (Upload.xhr 0 0 rendition.Uploads.Multipart.on_abort)
    ∷ file_chosen "other" (some clip)
    ∷ []

to_uploaded_video_polling_example :
    (is_pollable_status (to_uploaded_video (λ s. s) listed_clip).status ≡ false)
    × ((to_uploaded_video (λ s. s) listed_clip).progress ≡ 100
        → (to_uploaded_video (λ s. s) listed_clip).status ≡ done)
    × ((to_uploaded_video (λ s. s) listed_clip).status ≡ done
        → (to_uploaded_video (λ s. s) listed_clip).progress ≡ 100)
to_uploaded_video_polling_example = to_uploaded_video_polling (λ s. s) listed_clip

refusal-none_iff_example : (refusal limits clip ≡ none) ↔ (
    (any (λ t. t == normalize_content_type clip) limits.allowed_content_types ≡ true)
    × (size clip ≤ limits.max_size_bytes)
    × (get_part_count clip limits.part_size_bytes ≤ limits.max_part_count))
refusal-none_iff_example = refusal-none_iff limits clip

abbrev ready : Dashboard
ready = record initial { upload_config = some limits }

handle_file_outcome_example :
    (refusal limits clip ≡ none
      → ((handle_file browser "row" (some clip) ready).calls
          ≡ create_video_upload (record {
            filename = clip.name;
            content_type = normalize_content_type clip;
            size_bytes = size clip;
            part_count = get_part_count clip limits.part_size_bytes;
          })
            ∷ ready.calls)
        × ((handle_file browser "row" (some clip) ready).awaits ≡ ready.awaits)
        × ((handle_file browser "row" (some clip) ready).toasts
            ≡ record { kind = success; title = "Upload started"; description = some clip.name }
              ∷ ready.toasts))
    × ((t : Toast)
        → refusal limits clip ≡ some t
        → handle_file browser "row" (some clip) ready ≡ record ready { toasts = t ∷ ready.toasts })
handle_file_outcome_example = handle_file_outcome browser "row" clip limits ready refl

passes : refusal limits clip ≡ none
unfolding refusal normalize_content_type last_segment
passes = refl

upload_rows_registered_example :
    All
      (λ (r : UploadedVideo). is_some (registered r.id (run browser begun initial)) ≡ true)
      (run browser begun initial).upload_rows
upload_rows_registered_example = upload_rows_registered browser begun

cancelled_stays_away_example :
    IsGone "row"
      (run browser later (step browser (cancel_clicked "row") (run browser begun initial)))
cancelled_stays_away_example = cancelled_stays_away browser begun "row" later (tt, (refl, tt))

abbrev failed_row : UploadedVideo
failed_row = record {
  id = "row";
  video_id = none;
  title = "clip.mp4";
  uploaded_at = "Now";
  status = upload_failed;
  size = "0.0 MB";
  progress = 40;
  rendition_progress = none;
  can_retry = true;
  can_cancel = true;
}

row_controls_of_coherent_example :
    (failed_row.status ≡ uploading
      → effects (row_controls failed_row) ≡ on_cancel_upload "row" ∷ [])
    × (failed_row.status ≡ upload_failed
        → effects (row_controls failed_row) ≡ (
            if failed_row.can_retry
            then on_retry_upload "row" ∷ on_cancel_upload "row" ∷ []
            else on_cancel_upload "row" ∷ []))
    × ((is_uploading failed_row.status || is_upload_failed failed_row.status) ≡ false
        → row_controls failed_row ≡ menu failed_row)
row_controls_of_coherent_example =
    row_controls_of_coherent failed_row
      (record { cancel = refl; retry = λ e. refl; percent = omega arith })

abbrev closed : Props
closed = record { is_dragging = false; allowed_content_types = []; disabled = true }

on_event_disabled_example :
    (closed.disabled ≡ true
      → (ev : Zone.Event ℕ)
      → (selects (on_event closed ev) ≡ []) × (on_event closed ev ≢ on_dragging_change true ∷ []))
    × (closed.disabled ≡ false
        → (f : ℕ) (fs : List ℕ)
        → (on_event closed (drop (f ∷ fs))
            ≡ on_dragging_change false ∷ on_file_selected (some f) ∷ [])
          × (selects (on_event closed (input_change (some (f ∷ fs)))) ≡ some f ∷ []))
on_event_disabled_example = on_event_disabled closed
