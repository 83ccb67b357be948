-- ===== src/Uploads/Multipart/Steps.antt =====
-- frontend/src/components/uploads/multipart-upload.ts, lines 174-304: the methods of the controller and
-- the continuations of its `await`s, one step for each event. An event that nobody waits for changes
-- nothing.
use rendition.Common.{
  ℕ, ◌+◌, Bool, true, false, ◌||◌, Option, none, some, List, [], ◌∷◌, ◌++◌, ◌==◌, nat_eq,
  if◌then◌else◌, length, get_elem?, set, map, filter, any,
}
use rendition.Common.Maps.{put}
use rendition.Api.{MultipartUploadPart, VideoCreateResponse, VideoState, CompletedPart, status_text}
use rendition.Api.Requests.{create_video_upload, refresh_video_upload, abort_video_upload}
use rendition.Api.Http.{Failure, Result, ok, err}
use rendition.Uploads.{uploading}
use rendition.Uploads.Multipart.{
  Options, InFlight, Pool, Phase, creating, refreshing, transferring, completing, settled, change,
  call, Controller, XhrEvent, XhrOutcome, reports, resolves, rejects, silent, size,
  normalize_content_type, map_video_status, part_blob, upload_part, part_count, output, set_run,
  emit, caught, present, resume, upload_missing_parts, next_part, add_failed,
}

pub data Event : Type 0 where
  start : Event
  retry_failed_parts : Event
  cancel : Event
  created : ℕ → Result VideoCreateResponse → Event
  refreshed : ℕ → Result VideoCreateResponse → Event
  xhr : ℕ → ℕ → XhrEvent → Event
  completed : ℕ → Result VideoState → Event

-- start(), up to its first `await`
unfoldable pub start_upload : Options → Controller → Controller
start_upload o c =
    let c' = emit o (record c { signal = c.signal + 1; aborted = false }) in
    output
      (call (
        create_video_upload (record {
          filename = o.file.name;
          content_type = normalize_content_type o.file;
          size_bytes = size o.file;
          part_count = part_count o;
        })))
      (record c' { runs = c'.runs ++ creating ∷ [] })

-- failedPartNumbers.forEach((n) => partProgress.set(n, 0))
abbrev pub reset_progress : List ℕ → List (ℕ × ℕ) → List (ℕ × ℕ)
reset_progress [] m = m
reset_progress (n ∷ ns) m = reset_progress ns (put n 0 m)

-- retryFailedParts(), up to its first `await`
unfoldable pub retry_upload : Options → Controller → Controller
retry_upload o c = elim (present c.video_id) [
  | none ↦ c
  | some v ↦
      let retried = emit o (record c {
        signal = c.signal + 1;
        aborted = false;
        status = uploading;
        part_progress = reset_progress c.failed_part_numbers c.part_progress;
      }) in
      if length c.failed_part_numbers == 0
      then c
      else output (call (refresh_video_upload v (part_count o)))
          (record retried { runs = retried.runs ++ refreshing ∷ [] })
]

-- The abort event of a signal: the requests that listen to it are rejected, and since the controller is
-- aborted their workers throw.
abbrev pub listens : ℕ → Option InFlight → Bool
listens signal none = false
listens signal (some w) = w.signal == signal

abbrev pub abort_worker : ℕ → Option InFlight → Option InFlight
abort_worker signal w = if listens signal w then none else w

unfoldable pub abort_pool : ℕ → Pool → Pool
abort_pool signal pool = record pool {
  workers = map (abort_worker signal) pool.workers;
  rejected = pool.rejected || any (listens signal) pool.workers;
}

unfoldable pub abort_run : ℕ → Phase → Phase
abort_run signal (transferring pool) = transferring (abort_pool signal pool)
abort_run signal creating = creating
abort_run signal refreshing = refreshing
abort_run signal completing = completing
abort_run signal settled = settled

-- cancel(); a second `abort` of the same controller does nothing, and the answer to the call changes nothing.
unfoldable pub cancel_upload : Controller → Controller
cancel_upload c =
    let c' =
      if c.aborted
      then c
      else record c { aborted = true; runs = map (abort_run c.signal) c.runs } in
    elim (present c.video_id) [ none ↦ c' | some v ↦ output (call (abort_video_upload v)) c' ]

-- start() behind `createVideoUpload`
unfoldable pub create_answered : Options → ℕ → Result VideoCreateResponse → Controller → Controller
create_answered o i (err e) c = caught o i e c
create_answered o i (ok upload) c =
    upload_missing_parts o i upload.parts
      (record c { video_id = some upload.video_id; upload_parts = upload.parts })

-- retryFailedParts() behind `refreshVideoUpload`
unfoldable pub refresh_answered : Options → ℕ → Result VideoCreateResponse → Controller → Controller
refresh_answered o i (err e) c = caught o i e c
refresh_answered o i (ok upload) c =
    upload_missing_parts o i
      (filter (λ (p : MultipartUploadPart). any (λ n. n == p.part_number) c.failed_part_numbers)
        upload.parts)
      (record c { upload_parts = upload.parts })

-- The row of an upload that the service has taken.
unfoldable pub finish : VideoState → Controller → Controller
finish video c =
    let status = map_video_status (status_text video.status) in
    let row = record c.row {
      video_id = some video.video_id;
      status = status;
      progress = 100;
      can_cancel = false;
      can_retry = false;
    } in
    output (change row) (record c { status = status; row = row })

-- completeUpload() behind `completeVideoUpload`
unfoldable pub complete_answered : Options → ℕ → Result VideoState → Controller → Controller
complete_answered o i (err e) c = caught o i e c
complete_answered o i (ok video) c = finish video (set_run i settled c)

-- The `catch` of a worker's round.
unfoldable pub part_failed : Options → ℕ → ℕ → Pool → InFlight → Failure → Controller → Controller
part_failed o i slot pool w e c =
    let thrown = record pool { workers = set pool.workers slot none; rejected = true } in
    if c.aborted
    then set_run i (transferring thrown) c
    else resume o i (next_part c.signal slot pool)
        (record c { failed_part_numbers = add_failed w.part.part_number c.failed_part_numbers })

-- partProgress.set(n, loaded); emit()
unfoldable pub report_progress : Options → ℕ → ℕ → Controller → Controller
report_progress o n loaded c = emit o (record c { part_progress = put n loaded c.part_progress })

unfoldable pub part_outcome :
    Options → ℕ → ℕ → Pool → InFlight → XhrOutcome → Controller → Controller
part_outcome o i slot pool w (reports loaded) c = report_progress o w.part.part_number loaded c
part_outcome o i slot pool w (resolves loaded etag) c =
    let n = w.part.part_number in
    let done : CompletedPart = record { part_number = n; etag = etag } in
    let c' = report_progress o n loaded c in
    resume o i (next_part c.signal slot pool)
      (report_progress o n loaded (record c' { completed_parts = put n done c'.completed_parts }))
part_outcome o i slot pool w (rejects e) c = part_failed o i slot pool w e c
part_outcome o i slot pool w silent c = c

-- An event of the request that the worker in `slot` of run `i` awaits.
unfoldable pub xhr_event :
    Options → ℕ → ℕ → Pool → Option InFlight → XhrEvent → Controller → Controller
xhr_event o i slot pool none ev c = c
xhr_event o i slot pool (some w) ev c =
    let blob = part_blob o.file w.part.part_number o.upload_config.part_size_bytes in
    part_outcome o i slot pool w (upload_part (length blob) ev) c

abbrev pub flatten_option {ℓ} : {A : Type ℓ} → Option (Option A) → Option A
flatten_option none = none
flatten_option (some o) = o

-- The event at the run that it names, if that run awaits it.
unfoldable pub at_phase : Options → Event → Option Phase → Controller → Controller
at_phase o (created i reply) (some creating) c = create_answered o i reply c
at_phase o (refreshed i reply) (some refreshing) c = refresh_answered o i reply c
at_phase o (completed i reply) (some completing) c = complete_answered o i reply c
at_phase o (xhr i slot ev) (some (transferring pool)) c =
    xhr_event o i slot pool (flatten_option (get_elem? pool.workers slot)) ev c
at_phase o _ _ c = c

abbrev pub run_of : Event → ℕ
run_of (created i reply) = i
run_of (refreshed i reply) = i
run_of (xhr i slot ev) = i
run_of (completed i reply) = i
run_of _ = 0

unfoldable pub step : Options → Event → Controller → Controller
step o start c = start_upload o c
step o retry_failed_parts c = retry_upload o c
step o cancel c = cancel_upload c
step o ev c = at_phase o ev (get_elem? c.runs (run_of ev)) c

-- Any interleaving of calls, answers and request events.
unfoldable pub run : Options → List Event → Controller → Controller
run o [] c = c
run o (ev ∷ evs) c = run o evs (step o ev c)
