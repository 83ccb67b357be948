-- ===== src/Uploads/Multipart/Outputs.antt =====
-- Induction over what the controller puts out: a property of its row and its log that each kind of output
-- keeps holds after any events.
use rendition.Common.{
  ℕ, Option, none, some, List, [], ◌∷◌, ◌≡◌, refl, length, ◌==◌, nat_eq, if_cases, option_cases,
}
use rendition.Api.Http.{Result, ok, err, Failure}
use rendition.Api.{MultipartUploadPart, VideoState, VideoCreateResponse}
use rendition.Uploads.Multipart.Cases.{complete_upload_cases}
use rendition.Uploads.Multipart.{
  Phase, creating, refreshing, completing, set_run, transferring, has_failed, present, InFlight,
  XhrEvent, XhrOutcome, reports, resolves, rejects, silent, Options, Controller, call, throws, emit,
  caught, complete_upload, join, resume, upload_missing_parts, Pool, output,
}
use rendition.Api.Requests.{Request}
use rendition.Uploads.Multipart.Steps.{
  finish, Event, start, retry_failed_parts, cancel, created, refreshed, xhr, completed,
  start_upload, retry_upload, cancel_upload, create_answered, refresh_answered, complete_answered,
  report_progress, part_failed, part_outcome, xhr_event, at_phase, step, run,
}

-- A property of the row and the log that every output keeps.
pub record KeepsOutputs (o : Options) (P : Controller → Type 0) : Type 0 where
  pub quiet : (c d : Controller) → d.row ≡ c.row → d.log ≡ c.log → P c → P d
  pub emits : (c : Controller) → P c → P (emit o c)
  pub calls : (r : Request) (c : Controller) → P c → P (output (call r) c)
  pub throwing : (i : ℕ) (e : Failure) (c : Controller) → P c → P (output (throws i e) c)
  pub finishes : (video : VideoState) (c : Controller) → P c → P (finish video c)

module _ (o : Options) (P : Controller → Type 0) (k : KeepsOutputs o P) where
  caught_keeps : (i : ℕ) (e : Failure) (c : Controller) → P c → P (caught o i e c)
  unfolding caught
  caught_keeps i e c h =
      if_cases P c.aborted _ _ (λ _. k.quiet c _ refl refl h)
        λ _. k.throwing i e _ (k.emits _ (k.quiet c _ refl refl h))

  complete_upload_keeps : (i : ℕ) (c : Controller) → P c → P (complete_upload o i c)
  complete_upload_keeps i c h =
      complete_upload_cases P o i c (k.quiet c _ refl refl h) (λ e. caught_keeps i e c h)
        (λ id full. k.calls _ _ (k.quiet c _ refl refl h))

  join_keeps : (i : ℕ) (c : Controller) → P c → P (join o i c)
  unfolding join
  join_keeps i c h =
      if_cases P (has_failed c) _ _ (λ _. caught_keeps i _ c h) (λ _. complete_upload_keeps i c h)

  resume_keeps : (i : ℕ) (pool : Pool) (c : Controller) → P c → P (resume o i pool c)
  unfolding resume
  resume_keeps i pool c h =
      let w = k.quiet c (set_run i (transferring pool) c) refl refl h in
      if_cases P _ _ _ (λ _. join_keeps i _ w) (λ _. w)

  report_progress_keeps : (n loaded : ℕ) (c : Controller) → P c → P (report_progress o n loaded c)
  unfolding report_progress
  report_progress_keeps n loaded c h = k.emits _ (k.quiet c _ refl refl h)

  part_failed_keeps :
      (i slot : ℕ) (pool : Pool) (w : InFlight) (e : Failure) (c : Controller)
      → P c
      → P (part_failed o i slot pool w e c)
  unfolding part_failed
  part_failed_keeps i slot pool w e c h =
      if_cases P c.aborted _ _ (λ _. k.quiet c _ refl refl h)
        (λ _. resume_keeps i _ _ (k.quiet c _ refl refl h))

  part_outcome_keeps :
      (i slot : ℕ) (pool : Pool) (w : InFlight) (x : XhrOutcome) (c : Controller)
      → P c
      → P (part_outcome o i slot pool w x c)
  unfolding part_outcome
  part_outcome_keeps i slot pool w (reports loaded) c h =
      report_progress_keeps w.part.part_number loaded c h
  part_outcome_keeps i slot pool w (resolves loaded etag) c h = resume_keeps i _ _ (
      report_progress_keeps _ loaded _
        (k.quiet _ _ refl refl (report_progress_keeps w.part.part_number loaded c h)))
  part_outcome_keeps i slot pool w (rejects e) c h = part_failed_keeps i slot pool w e c h
  part_outcome_keeps i slot pool w silent c h = h

  xhr_event_keeps :
      (i slot : ℕ) (pool : Pool) (w : Option InFlight) (ev : XhrEvent) (c : Controller)
      → P c
      → P (xhr_event o i slot pool w ev c)
  unfolding xhr_event
  xhr_event_keeps i slot pool none ev c h = h
  xhr_event_keeps i slot pool (some w) ev c h = part_outcome_keeps i slot pool w _ c h

  upload_missing_parts_keeps :
      (i : ℕ) (parts : List MultipartUploadPart) (c : Controller)
      → P c
      → P (upload_missing_parts o i parts c)
  unfolding upload_missing_parts
  upload_missing_parts_keeps i parts c h = resume_keeps i _ _ (k.quiet c _ refl refl h)

  complete_answered_keeps :
      (i : ℕ) (reply : Result VideoState) (c : Controller) → P c → P (complete_answered o i reply c)
  unfolding complete_answered
  complete_answered_keeps i (err e) c h = caught_keeps i e c h
  complete_answered_keeps i (ok video) c h = k.finishes video _ (k.quiet c _ refl refl h)

  create_answered_keeps :
      (i : ℕ) (reply : Result VideoCreateResponse) (c : Controller)
      → P c
      → P (create_answered o i reply c)
  unfolding create_answered
  create_answered_keeps i (err e) c h = caught_keeps i e c h
  create_answered_keeps i (ok upload) c h =
      upload_missing_parts_keeps i upload.parts _ (k.quiet c _ refl refl h)

  refresh_answered_keeps :
      (i : ℕ) (reply : Result VideoCreateResponse) (c : Controller)
      → P c
      → P (refresh_answered o i reply c)
  unfolding refresh_answered
  refresh_answered_keeps i (err e) c h = caught_keeps i e c h
  refresh_answered_keeps i (ok upload) c h =
      upload_missing_parts_keeps i _ _ (k.quiet c _ refl refl h)

  retry_upload_keeps : (c : Controller) → P c → P (retry_upload o c)
  unfolding retry_upload
  retry_upload_keeps c h =
      option_cases P (present c.video_id) _ _ (λ _. h)
        λ v _.
          if_cases P (length c.failed_part_numbers == 0) _ _ (λ _. h)
            λ _. k.calls _ _ (k.quiet _ _ refl refl (k.emits _ (k.quiet c _ refl refl h)))

  cancel_upload_keeps : (c : Controller) → P c → P (cancel_upload c)
  unfolding cancel_upload
  cancel_upload_keeps c h =
      let w = if_cases P c.aborted c _ (λ _. h) (λ _. k.quiet c _ refl refl h) in
      option_cases P (present c.video_id) _ _ (λ _. w) (λ id _. k.calls _ _ w)

  at_phase_keeps :
      (ev : Event) (phase : Option Phase) (c : Controller) → P c → P (at_phase o ev phase c)
  unfolding at_phase
  at_phase_keeps (created i reply) (some creating) c h = create_answered_keeps i reply c h
  at_phase_keeps (refreshed i reply) (some refreshing) c h = refresh_answered_keeps i reply c h
  at_phase_keeps (completed i reply) (some completing) c h = complete_answered_keeps i reply c h
  at_phase_keeps (xhr i slot ev) (some (transferring pool)) c h =
      xhr_event_keeps i slot pool _ ev c h
  at_phase_keeps _ _ c h = h

  step_keeps : (ev : Event) (c : Controller) → P c → P (step o ev c)
  unfolding step start_upload
  step_keeps start c h = k.calls _ _ (k.quiet _ _ refl refl (k.emits _ (k.quiet c _ refl refl h)))
  step_keeps retry_failed_parts c h = retry_upload_keeps c h
  step_keeps cancel c h = cancel_upload_keeps c h
  step_keeps ev c h = at_phase_keeps ev _ c h

  pub run_keeps : (evs : List Event) (c : Controller) → P c → P (run o evs c)
  unfolding run
  run_keeps [] c h = h
  run_keeps (ev ∷ evs) c h = run_keeps evs (step o ev c) (step_keeps ev c h)
