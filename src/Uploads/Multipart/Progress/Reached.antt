-- ===== src/Uploads/Multipart/Progress/Reached.antt =====
-- The bytes that the progress counts, over any events.
use rendition.Common.{
  ℕ, ◌≤◌, Option, none, some, List, [], ◌∷◌, arith, length, get_elem?, if_cases, option_cases,
  nat_eq, ◌==◌, ltb, leb, string_eq, String, ◌||◌,
}
use rendition.Api.{VideoCreateResponse, VideoState}
use rendition.Api.Http.{Result, ok, err, Failure}
use rendition.Uploads.Multipart.{
  Options, Controller, InFlight, Pool, Phase, creating, refreshing, transferring, completing, size,
  XhrEvent, on_progress, on_load, on_error, on_abort, XhrOutcome, reports, resolves, rejects,
  silent, upload_part, present, loaded_bytes, emit, create_multipart_upload_controller,
}
use rendition.Uploads.Multipart.Parts.{etag_outcome}
use rendition.Uploads.Multipart.Steps.{
  Event, start, retry_failed_parts, cancel, created, refreshed, xhr, completed, start_upload,
  retry_upload, cancel_upload, create_answered, refresh_answered, complete_answered, finish,
  part_failed, part_outcome, xhr_event, at_phase, step, run, flatten_option, run_of,
}
use rendition.Uploads.Multipart.Progress.{
  blob_size, sum-IsCounted, reset_progress-IsCounted, Counted, caught-Counted, resume-Counted,
  upload_missing_parts-Counted, report_progress-Counted,
}

-- A request reports at most as many bytes as it sends.
abbrev pub ReportsAtMost : ℕ → XhrEvent → Type 0
ReportsAtMost n (on_progress length_computable loaded) = loaded ≤ n
ReportsAtMost n (on_load status etag) = Unit {0}
ReportsAtMost n on_error = Unit {0}
ReportsAtMost n on_abort = Unit {0}

abbrev OutcomeFits : ℕ → XhrOutcome → Type 0
OutcomeFits n (reports loaded) = loaded ≤ n
OutcomeFits n (resolves loaded etag) = loaded ≤ n
OutcomeFits n (rejects e) = Unit {0}
OutcomeFits n silent = Unit {0}

etag_outcome-Fits : (n : ℕ) (etag : Option String) → OutcomeFits n (etag_outcome n etag)
unfolding etag_outcome
etag_outcome-Fits n none = tt
etag_outcome-Fits n (some etag) =
    if_cases (OutcomeFits n) (etag == "") _ _ (λ _. tt) (λ _. omega arith)

upload_part-Fits : (n : ℕ) (ev : XhrEvent) → ReportsAtMost n ev → OutcomeFits n (upload_part n ev)
unfolding upload_part
upload_part-Fits n (on_progress length_computable loaded) h =
    if_cases (OutcomeFits n) length_computable _ _ (λ _. h) (λ _. tt)
upload_part-Fits n (on_load status etag) h =
    if_cases (OutcomeFits n) (ltb status 200 || leb 300 status) _ _ (λ _. tt)
      (λ _. etag_outcome-Fits n etag)
upload_part-Fits n on_error h = tt
upload_part-Fits n on_abort h = tt

module _ (o : Options) where
  -- What the event reports of the request that awaits it is at most the size of that request's part.
  abbrev WorkerReports : XhrEvent → Option InFlight → Type 0
  WorkerReports ev none = Unit {0}
  WorkerReports ev (some w) = ReportsAtMost (blob_size o w.part.part_number) ev

  abbrev PhaseReports : Event → Option Phase → Type 0
  PhaseReports (xhr i slot ev) (some (transferring pool)) =
      WorkerReports ev (flatten_option (get_elem? pool.workers slot))
  PhaseReports _ _ = Unit {0}

  -- Each event of a request, when it comes, reports at most the size of the part.
  abbrev pub Truthful : List Event → Controller → Type 0
  Truthful [] c = Unit {0}
  Truthful (ev ∷ evs) c =
      PhaseReports ev (get_elem? c.runs (run_of ev)) × Truthful evs (step o ev c)

  part_failed-Counted :
      (i slot : ℕ) (pool : Pool) (w : InFlight) (e : Failure) (c : Controller)
      → Counted o c
      → Counted o (part_failed o i slot pool w e c)
  unfolding part_failed
  part_failed-Counted i slot pool w e c h =
      if_cases (Counted o) c.aborted _ _ (λ _. h) (λ _. resume-Counted o i _ _ h)

  part_outcome-Counted :
      (i slot : ℕ) (pool : Pool) (w : InFlight) (x : XhrOutcome) (c : Controller)
      → OutcomeFits (blob_size o w.part.part_number) x
      → Counted o c
      → Counted o (part_outcome o i slot pool w x c)
  unfolding part_outcome
  part_outcome-Counted i slot pool w (reports loaded) c f h =
      report_progress-Counted o _ loaded c f h
  part_outcome-Counted i slot pool w (resolves loaded etag) c f h = resume-Counted o i _ _ (
      report_progress-Counted o _ loaded _ f
        (report_progress-Counted o w.part.part_number loaded c f h))
  part_outcome-Counted i slot pool w (rejects e) c f h = part_failed-Counted i slot pool w e c h
  part_outcome-Counted i slot pool w silent c f h = h

  xhr_event-Counted :
      (i slot : ℕ) (pool : Pool) (w : Option InFlight) (ev : XhrEvent) (c : Controller)
      → WorkerReports ev w
      → Counted o c
      → Counted o (xhr_event o i slot pool w ev c)
  unfolding xhr_event
  xhr_event-Counted i slot pool none ev c f h = h
  xhr_event-Counted i slot pool (some w) ev c f h =
      part_outcome-Counted i slot pool w _ c (upload_part-Fits _ ev f) h

  create_answered-Counted :
      (i : ℕ) (reply : Result VideoCreateResponse) (c : Controller)
      → Counted o c
      → Counted o (create_answered o i reply c)
  unfolding create_answered
  create_answered-Counted i (err e) c h = caught-Counted o i e c h
  create_answered-Counted i (ok upload) c h = upload_missing_parts-Counted o i upload.parts _ h

  refresh_answered-Counted :
      (i : ℕ) (reply : Result VideoCreateResponse) (c : Controller)
      → Counted o c
      → Counted o (refresh_answered o i reply c)
  unfolding refresh_answered
  refresh_answered-Counted i (err e) c h = caught-Counted o i e c h
  refresh_answered-Counted i (ok upload) c h = upload_missing_parts-Counted o i _ _ h

  complete_answered-Counted :
      (i : ℕ) (reply : Result VideoState) (c : Controller)
      → Counted o c
      → Counted o (complete_answered o i reply c)
  unfolding complete_answered finish
  complete_answered-Counted i (err e) c h = caught-Counted o i e c h
  complete_answered-Counted i (ok video) c h = h

  cancel_upload-Counted : (c : Controller) → Counted o c → Counted o (cancel_upload c)
  unfolding cancel_upload
  cancel_upload-Counted c h =
      let w = if_cases (Counted o) c.aborted c _ (λ _. h) (λ _. h) in
      option_cases (Counted o) (present c.video_id) _ _ (λ _. w) (λ id _. w)

  retry_upload-Counted : (c : Controller) → Counted o c → Counted o (retry_upload o c)
  unfolding retry_upload emit
  retry_upload-Counted c h =
      option_cases (Counted o) (present c.video_id) _ _ (λ _. h)
        λ id _.
          if_cases (Counted o) (length c.failed_part_numbers == 0) _ _ (λ _. h)
            (λ _. reset_progress-IsCounted o c.failed_part_numbers c.part_progress h)

  at_phase-Counted :
      (ev : Event) (phase : Option Phase) (c : Controller)
      → PhaseReports ev phase
      → Counted o c
      → Counted o (at_phase o ev phase c)
  unfolding at_phase
  at_phase-Counted (created i reply) (some creating) c f h = create_answered-Counted i reply c h
  at_phase-Counted (refreshed i reply) (some refreshing) c f h =
      refresh_answered-Counted i reply c h
  at_phase-Counted (completed i reply) (some completing) c f h =
      complete_answered-Counted i reply c h
  at_phase-Counted (xhr i slot ev) (some (transferring pool)) c f h =
      xhr_event-Counted i slot pool _ ev c f h
  at_phase-Counted _ _ c f h = h

  step-Counted :
      (ev : Event) (c : Controller)
      → PhaseReports ev (get_elem? c.runs (run_of ev))
      → Counted o c
      → Counted o (step o ev c)
  unfolding step start_upload emit
  step-Counted start c f h = h
  step-Counted retry_failed_parts c f h = retry_upload-Counted c h
  step-Counted cancel c f h = cancel_upload-Counted c h
  step-Counted ev c f h = at_phase-Counted ev _ c f h

  run-Counted :
      (evs : List Event) (c : Controller) → Truthful evs c → Counted o c → Counted o (run o evs c)
  unfolding run
  run-Counted [] c f h = h
  run-Counted (ev ∷ evs) c f h = run-Counted evs (step o ev c) f.1 (step-Counted ev c f.0 h)

  -- If each request, whenever it reports, reports at most the size of its part, then whatever calls and
  -- answers come in whatever order, the progress counts at most as many bytes as the file has.
  pub loaded_bytes_le_size :
      (evs : List Event)
      → Truthful evs (create_multipart_upload_controller o)
      → loaded_bytes (run o evs (create_multipart_upload_controller o)) ≤ size o.file
  unfolding create_multipart_upload_controller
  loaded_bytes_le_size evs f =
      sum-IsCounted o _ (run-Counted evs _ f (record { fits = tt; distinct = tt }))
