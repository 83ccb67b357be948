-- ===== src/Examples/Transfers.antt =====
-- The upload of a small file in three parts.
use rendition.Common.{
  ℕ, ◌≤◌, ◌<◌, true, some, List, [], ◌∷◌, ◌≡◌, refl, arith, All, length, map, take, filter,
  get_elem?, false, none,
}
use rendition.Common.Sorting.{sort_by, IsAscending}
use rendition.Api.Http.{
  Response, Fetched, ok, err, error, answered, request_json, request_json-ok_iff,
}
use rendition.Api.{status_text, MultipartUploadPart}
use rendition.Api.Requests.{abort_video_upload}
use rendition.Uploads.{processing}
use rendition.Uploads.Multipart.{
  upload_part, next_part, join, complete_upload, caught, map_video_status, Controller, call,
  part_blob, get_part_count, create_multipart_upload_controller, emit, on_load, on_abort, resume,
  upload_missing_parts, Pool, begin_worker,
}
use rendition.Uploads.Multipart.Steps.{
  xhr_event, part_outcome, report_progress, part_failed, retry_upload, refresh_answered,
  complete_answered, finish, Event, start, cancel, created, xhr, step, run, start_upload, at_phase,
  create_answered, cancel_upload,
}
use rendition.Uploads.Multipart.Numbers.{numbers}
use rendition.Uploads.Multipart.Tiling.{blobs, blobs-numbers, length-part_blob}
use rendition.Uploads.Multipart.Completion.{IsInOrder}
use rendition.Uploads.Multipart.Completion.Reached.{FromService, complete_calls-IsInOrder}
use rendition.Uploads.Multipart.Pools.{Manned}
use rendition.Uploads.Multipart.Pools.Reached.{pools-Manned}
use rendition.Uploads.Multipart.Rows.{IsCoherentOutput, rows-IsCoherent}
use rendition.Uploads.Multipart.Cancel.{cancel_upload-ends_requests, cancel_before_created}
use mathlib.Core.List.{Perm}
use rendition.Uploads.Multipart.Retry.{had_failed, refresh_answered-resends}
use rendition.Uploads.Multipart.Pools.Ending.{left, run_left, answer-shortens_run}
use rendition.Examples.{part, clip, clip_upload, created_clip, transfer, retried_transfer}

two_parts_sent : part_blob clip 2 2 ≡ 13 ∷ 14 ∷ []
unfolding part_blob
two_parts_sent = refl

blobs-numbers_example : blobs clip 2 (numbers 0 (get_part_count clip 2)) ≡ clip.content
blobs-numbers_example = blobs-numbers clip 2 (omega arith)

length-part_blob_example :
    (0 < length (part_blob clip 2 2))
    × (length (part_blob clip 2 2) ≤ 2)
    × (2 < get_part_count clip 2 → length (part_blob clip 2 2) ≡ 2)
unfolding get_part_count
length-part_blob_example = length-part_blob clip 2 1 (omega arith) (omega arith)

in_range : All (FromService clip_upload) retried_transfer
unfolding get_part_count
in_range = (tt, (listed, (tt, (tt, (tt, (tt, (listed, (tt, (tt, tt)))))))))
  where
    listed : FromService clip_upload (created 0 (ok created_clip))
    listed =
        ((omega arith, omega arith), ((omega arith, omega arith), ((omega arith, omega arith), tt)))

complete_calls-IsInOrder_example :
    All
      (IsInOrder clip_upload)
      (run clip_upload retried_transfer (create_multipart_upload_controller clip_upload)).log
complete_calls-IsInOrder_example = complete_calls-IsInOrder clip_upload retried_transfer in_range

pools-Manned_example :
    All Manned (run clip_upload transfer (create_multipart_upload_controller clip_upload)).runs
pools-Manned_example = pools-Manned clip_upload transfer

rows-IsCoherent_example :
    All IsCoherentOutput
      (run clip_upload retried_transfer (create_multipart_upload_controller clip_upload)).log
rows-IsCoherent_example = rows-IsCoherent clip_upload retried_transfer

abbrev sending : Controller
sending =
    run clip_upload (start ∷ created 0 (ok created_clip) ∷ [])
      (create_multipart_upload_controller clip_upload)

abbrev late_answers : List Event
late_answers = xhr 0 0 (on_load 200 (some "e1")) ∷ xhr 0 1 on_abort ∷ []

cancel_upload-ends_requests_example :
    (run clip_upload late_answers (cancel_upload sending) ≡ cancel_upload sending)
    × ((cancel_upload sending).aborted ≡ true)
    × ((cancel_upload sending).log ≡ call (abort_video_upload "v1") ∷ sending.log)
unfolding run step start_upload at_phase create_answered create_multipart_upload_controller emit
    resume upload_missing_parts sort_by
cancel_upload-ends_requests_example =
    cancel_upload-ends_requests clip_upload sending late_answers refl
      ((refl, (refl, (refl, tt))), tt)
      ((0, 0, on_load 200 (some "e1"), refl), ((0, 1, on_abort, refl), tt))

abbrev waiting : Controller
waiting = step clip_upload start (create_multipart_upload_controller clip_upload)

cancel_before_created_example :
    step clip_upload (created 0 (ok created_clip)) (step clip_upload cancel waiting)
    ≡ record (step clip_upload (created 0 (ok created_clip)) waiting) { aborted = true }
unfolding step start_upload create_multipart_upload_controller emit
cancel_before_created_example =
    cancel_before_created clip_upload created_clip waiting refl refl (omega arith)

abbrev fetched : Fetched ℕ
fetched = answered (record { status = 201; json = ok 7; error_json = err (error "none") })

request_json-ok_iff_example :
    ((request_json fetched ≡ ok 7)
      → (r : Response ℕ) × (fetched ≡ answered r)
        × (200 ≤ r.status)
        × (r.status ≤ 299)
        × (r.json ≡ ok 7))
    × (((r : Response ℕ) × (fetched ≡ answered r)
          × (200 ≤ r.status)
          × (r.status ≤ 299)
          × (r.json ≡ ok 7))
        → (request_json fetched ≡ ok 7))
request_json-ok_iff_example = request_json-ok_iff fetched 7

completes_after_retry :
    (run clip_upload retried_transfer (create_multipart_upload_controller clip_upload)).status
    ≡ processing
unfolding run step start_upload at_phase create_answered create_multipart_upload_controller emit
    resume upload_missing_parts sort_by xhr_event part_outcome upload_part part_blob report_progress
    part_failed next_part join complete_upload caught retry_upload refresh_answered
    complete_answered finish map_video_status get_part_count status_text
completes_after_retry = refl

abbrev sending_pool : Pool
sending_pool = record {
  queue = part 1 ∷ part 2 ∷ part 3 ∷ [];
  next_index = 3;
  workers = begin_worker 1 (part 1) ∷ begin_worker 1 (part 2) ∷ begin_worker 1 (part 3) ∷ [];
  rejected = false;
}

answer-shortens_run_example :
    run_left (get_elem? (step clip_upload (xhr 0 1 (on_load 500 none)) sending).runs 0)
    < left sending_pool
unfolding run step start_upload at_phase create_answered create_multipart_upload_controller emit
    resume upload_missing_parts sort_by
answer-shortens_run_example =
    answer-shortens_run clip_upload sending 0 1 sending_pool (record { part = part 2; signal = 1 })
      (on_load 500 none) refl refl refl refl

abbrev asked_again : Controller
asked_again =
    run clip_upload (take 6 retried_transfer) (create_multipart_upload_controller clip_upload)

abbrev resent : Pool
resent = record {
  queue = part 2 ∷ [];
  next_index = 1;
  workers = begin_worker 2 (part 2) ∷ [];
  rejected = false;
}

refresh_answered-resends_example :
    Perm resent.queue (filter (had_failed asked_again) created_clip.parts)
    × All (λ p. had_failed asked_again p ≡ true) resent.queue
    × IsAscending (λ (p : MultipartUploadPart). p.part_number) 0 resent.queue
    × (resent.workers ≡ map (begin_worker 2) (take 1 resent.queue))
unfolding run step start_upload at_phase create_answered create_multipart_upload_controller emit
    resume upload_missing_parts sort_by xhr_event part_outcome upload_part part_blob report_progress
    part_failed next_part join caught retry_upload refresh_answered
refresh_answered-resends_example =
    refresh_answered-resends clip_upload 1 created_clip asked_again resent refl
