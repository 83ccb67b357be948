-- ===== src/Examples/Contract.antt =====
-- The client's upload of a small file against the service's list of its parts.
use rendition.Common.{
  ℕ, String, Option, some, List, [], ◌∷◌, refl, All, true, get_elem?, Distinct, arith, ◌≡◌,
}
use rendition.Common.Sorting.{sort_by}
use rendition.Api.Requests.{complete_video_upload}
use rendition.Api.{MultipartUploadPart, CompletedPart, VideoCreateResponse}
use rendition.Api.Http.{ok}
use rendition.Service.{UploadSession}
use rendition.Service.Storage.{range, signed_parts, refresh_multipart_upload_urls}
use rendition.Service.Schemas.{is_part_etag}
use rendition.Service.Uploads.Steps.{new_session}
use rendition.Service.Uploads.Fits.{IsAccepted, client_calls-IsAccepted}
use rendition.Uploads.Multipart.{
  part_count, on_load, create_multipart_upload_controller, get_part_count, on_progress, completing,
  call, Output, emit, resume, upload_missing_parts, upload_part, etag_outcome, next_part, part_blob,
}
use rendition.Uploads.Multipart.Steps.{
  Event, start_upload, at_phase, create_answered, xhr_event, part_outcome, report_progress, step,
  start, created, xhr, completed, run,
}
use rendition.Uploads.Multipart.Success.Served.{Serves, success, all_served, progress}
use rendition.Uploads.Multipart.Success.Completed.{successes_complete, answered}
use rendition.Examples.{clip_upload, part, running_clip}

abbrev presign : ℕ → Option String
presign n = some "https://storage/part"

abbrev signed_clip : VideoCreateResponse
signed_clip = record {
  video_id = "v1";
  bucket = "videos";
  key = "v1/source";
  upload_id = "u1";
  parts = part 1 ∷ part 2 ∷ part 3 ∷ [];
}

abbrev tag : String
tag = "d41d8cd98f00b204e9800998ecf8427e"

abbrev quoted_tag : String
quoted_tag = "\"0CC175B9C0F1B6A831C399E269772661\""

abbrev story : List Event
story =
    start
    ∷ created 0 (ok signed_clip)
    ∷ xhr 0 2 (on_load 200 (some tag))
    ∷ xhr 0 0 (on_load 200 (some quoted_tag))
    ∷ xhr 0 1 (on_load 200 (some tag))
    ∷ completed 0 (ok running_clip)
    ∷ []

abbrev session : UploadSession
session =
    new_session "videos" "v1/source" "u1"
      (record { filename = "clip.mp4"; content_type = "video/mp4"; size_bytes = 5; part_count = 3 })

client_calls-IsAccepted_example :
    All
      (IsAccepted session)
      (run clip_upload story (create_multipart_upload_controller clip_upload)).log
unfolding get_part_count range signed_parts refresh_multipart_upload_urls is_part_etag
client_calls-IsAccepted_example =
    client_calls-IsAccepted clip_upload presign session refl (omega arith) story
      (tt, (refl, (tt, (tt, (tt, (tt, tt))))))
      (tt, (tt, ((λ _. refl), ((λ _. refl), ((λ _. refl), (tt, tt))))))

abbrev successes : List Event
successes =
    xhr 0 1 (on_progress true 1)
    ∷ xhr 0 2 (on_load 200 (some "e3"))
    ∷ xhr 0 0 (on_load 200 (some "e1"))
    ∷ xhr 0 1 (on_load 200 (some "e2"))
    ∷ []

all_succeed :
    Serves clip_upload 0 (part_count clip_upload) successes (answered clip_upload signed_clip)
unfolding get_part_count run step start_upload at_phase create_answered
    create_multipart_upload_controller emit resume upload_missing_parts sort_by xhr_event
    part_outcome report_progress upload_part etag_outcome next_part part_blob
all_succeed = progress 1 true 1 (
    success 2 200 "e3" _ _ refl refl refl refl (
      success 0 200 "e1" _ _ refl refl refl refl
        (success 1 200 "e2" _ _ refl refl refl refl all_served)))

successes_complete_example :
    let c = run clip_upload successes (answered clip_upload signed_clip) in
    (get_elem? c.runs 0 ≡ some completing)
    × (ps : List CompletedPart) × (log : List Output) × (c.log
        ≡ call (complete_video_upload "v1" ps) ∷ log)
unfolding get_part_count
successes_complete_example =
    successes_complete clip_upload signed_clip successes refl refl distinct all_succeed
  where
    distinct : Distinct (λ (p : MultipartUploadPart). p.part_number) signed_clip.parts
    distinct = (
      (λ e. omega (arith, e), (λ e. omega (arith, e), tt)),
      ((λ e. omega (arith, e), tt), (tt, tt)),
    )
