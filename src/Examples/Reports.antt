-- ===== src/Examples/Reports.antt =====
-- What requests and polls report of a small file.
use rendition.Common.{◌≤◌, some, [], ◌∷◌, ◌≡◌, refl, arith, All, map}
use rendition.Common.Sorting.{sort_by}
use rendition.Api.{ProcessingStatus, status_text}
use rendition.Api.Http.{ok}
use rendition.Uploads.Multipart.{
  size, loaded_bytes, create_multipart_upload_controller, emit, resume, upload_missing_parts,
  upload_part, part_blob, next_part, join, complete_upload, caught, map_video_status,
  get_part_count,
}
use rendition.Uploads.Multipart.Steps.{
  run, step, start_upload, at_phase, create_answered, xhr_event, part_outcome, report_progress,
  complete_answered, finish,
}
use rendition.Uploads.Multipart.Progress.Reached.{Truthful, loaded_bytes_le_size}
use rendition.Uploads.Dashboard as Dashboard
use rendition.Uploads.Dashboard.{Dashboard, to_uploaded_video}
use rendition.Uploads.Dashboard.Steps.{states_answered, file_chosen, unmounted}
use rendition.Uploads.Dashboard.Steps as Page
use rendition.Uploads.Dashboard.Polls.{map_video_status-same, refreshed, states_answered-refreshed}
use rendition.Uploads.Dashboard.Leaving.{IsAborted, unmounted-aborts}
use rendition.Examples.{clip, clip_upload, limits, browser, transfer, listed_clip, running_clip}

truthful : Truthful clip_upload transfer (create_multipart_upload_controller clip_upload)
unfolding step start_upload at_phase create_answered create_multipart_upload_controller emit resume
    upload_missing_parts sort_by xhr_event part_outcome upload_part part_blob report_progress
    next_part join complete_upload caught complete_answered finish get_part_count
truthful = (tt, (tt, (omega arith, (tt, (tt, (tt, (tt, tt)))))))

loaded_bytes_le_size_example :
    loaded_bytes (run clip_upload transfer (create_multipart_upload_controller clip_upload))
    ≤ size clip
loaded_bytes_le_size_example = loaded_bytes_le_size clip_upload transfer truthful

map_video_status-same_example :
    Dashboard.map_video_status ProcessingStatus.skipped
    ≡ map_video_status (status_text ProcessingStatus.skipped)
map_video_status-same_example = map_video_status-same ProcessingStatus.skipped

abbrev listing : Dashboard
listing = record Dashboard.initial { videos = map (to_uploaded_video (λ s. s)) (listed_clip ∷ []) }

states_answered-refreshed_example :
    (states_answered (ok (running_clip ∷ [])) listing).videos
    ≡ map (to_uploaded_video (λ s. s)) (map (refreshed (running_clip ∷ [])) (listed_clip ∷ []))
states_answered-refreshed_example =
    states_answered-refreshed (λ s. s) (running_clip ∷ []) (listed_clip ∷ []) listing (refl, tt)
      refl

abbrev uploading : Dashboard
uploading =
    Page.step browser (file_chosen "row" (some clip))
      (record Dashboard.initial { upload_config = some limits })

unmounted-aborts_example :
    All (λ id. IsAborted id (Page.step browser unmounted uploading)) uploading.upload_controllers
unmounted-aborts_example = unmounted-aborts browser uploading
