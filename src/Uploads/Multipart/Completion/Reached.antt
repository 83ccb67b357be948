-- ===== src/Uploads/Multipart/Completion/Reached.antt =====
-- What reached controllers send to complete an upload.
use rendition.Common.{
  String, some, string_eq, ◌==◌, if_cases, ℕ, zero, suc, true, Option, none, List, [], ◌∷◌, ◌++◌,
  refl, length, All, All-append, All-filter, map, get_elem?, option_cases, nat_eq, All-map,
  All-mono,
}
use rendition.Api.{VideoCreateResponse, VideoState}
use rendition.Api.Requests.{create_video_upload, refresh_video_upload, abort_video_upload}
use rendition.Api.Http.{Result, ok, err}
use rendition.Uploads.Multipart.{
  XhrEvent, on_load, Options, Controller, InFlight, Pool, Phase, creating, refreshing, transferring,
  completing, settled, set_run, present, create_multipart_upload_controller,
}
use rendition.Uploads.Multipart.Steps.{
  finish, Event, start, retry_failed_parts, cancel, created, refreshed, xhr, completed,
  start_upload, retry_upload, cancel_upload, create_answered, refresh_answered, complete_answered,
  xhr_event, at_phase, step, run, abort_pool, abort_run, abort_worker, listens, flatten_option,
}
use rendition.Uploads.Multipart.Completion.{
  PartInRange, WorkerInRange, PhaseInRange, NotEmpty, IsOrdered, IsInOrder, Inv, emit-Inv,
  set_run-Inv, log-Inv, frame_Inv, caught-Inv,
}
use rendition.Uploads.Multipart.Completion.Tags.{Names, upload_part-BringsTag}
use rendition.Uploads.Multipart.Completion.Transfers.{part_outcome-Inv, upload_missing_parts-Inv}

module _ (o : Options) where
  -- The service lists parts from 1 to the part count.
  abbrev pub ReplyInRange : Result VideoCreateResponse → Type 0
  ReplyInRange (ok upload) = All (PartInRange o) upload.parts
  ReplyInRange (err e) = Unit {0}

  abbrev pub FromService : Event → Type 0
  FromService (created i reply) = ReplyInRange reply
  FromService (refreshed i reply) = ReplyInRange reply
  FromService _ = Unit {0}

-- The ETags in the storage's answers are `T`.
abbrev pub TagsOf : (String → Type 0) → Event → Type 0
TagsOf T (xhr i slot ev) = Names T ev
TagsOf T _ = Unit {0}

module _ (o : Options) (T : String → Type 0) where
  create_answered-Inv :
      (i : ℕ) (reply : Result VideoCreateResponse) (c : Controller)
      → ReplyInRange o reply
      → Inv o T c
      → Inv o T (create_answered o i reply c)
  unfolding create_answered
  create_answered-Inv i (err e) c h v = caught-Inv o T i e c v
  create_answered-Inv i (ok upload) c h v =
      upload_missing_parts-Inv o T i upload.parts _ h (frame_Inv o T c _ refl refl refl v)

  refresh_answered-Inv :
      (i : ℕ) (reply : Result VideoCreateResponse) (c : Controller)
      → ReplyInRange o reply
      → Inv o T c
      → Inv o T (refresh_answered o i reply c)
  unfolding refresh_answered
  refresh_answered-Inv i (err e) c h v = caught-Inv o T i e c v
  refresh_answered-Inv i (ok upload) c h v =
      upload_missing_parts-Inv o T i _ _ (All-filter (PartInRange o) _ upload.parts h)
        (frame_Inv o T c _ refl refl refl v)

  complete_answered-Inv :
      (i : ℕ) (reply : Result VideoState) (c : Controller)
      → Inv o T c
      → Inv o T (complete_answered o i reply c)
  unfolding complete_answered finish
  complete_answered-Inv i (err e) c v = caught-Inv o T i e c v
  complete_answered-Inv i (ok video) c v =
      log-Inv o T _ _ tt
        (frame_Inv o T (set_run i settled c) _ refl refl refl (set_run-Inv o T i settled c tt v))

  xhr_event-Inv :
      (i slot : ℕ) (pool : Pool) (w : Option InFlight) (ev : XhrEvent) (c : Controller)
      → Names T ev
      → WorkerInRange o w
      → PhaseInRange o (transferring pool)
      → Inv o T c
      → Inv o T (xhr_event o i slot pool w ev c)
  unfolding xhr_event
  xhr_event-Inv i slot pool none ev c t hw h v = v
  xhr_event-Inv i slot pool (some w) ev c t hw h v =
      part_outcome-Inv o T i slot pool w _ c (upload_part-BringsTag T _ ev t) hw h v

  worker-InRange :
      (ws : List (Option InFlight)) (slot : ℕ)
      → All (WorkerInRange o) ws
      → WorkerInRange o (flatten_option (get_elem? ws slot))
  worker-InRange [] slot h = tt
  worker-InRange (w ∷ ws) zero h = h.0
  worker-InRange (w ∷ ws) (suc slot) h = worker-InRange ws slot h.1

  abbrev MaybeInRange : Option Phase → Type 0
  MaybeInRange none = Unit {0}
  MaybeInRange (some phase) = PhaseInRange o phase

  maybe-InRange :
      (phases : List Phase) (i : ℕ)
      → All (PhaseInRange o) phases
      → MaybeInRange (get_elem? phases i)
  maybe-InRange [] i h = tt
  maybe-InRange (p ∷ ps) zero h = h.0
  maybe-InRange (p ∷ ps) (suc i) h = maybe-InRange ps i h.1

  at_phase-Inv :
      (ev : Event) (phase : Option Phase) (c : Controller)
      → FromService o ev
      → TagsOf T ev
      → MaybeInRange phase
      → Inv o T c
      → Inv o T (at_phase o ev phase c)
  unfolding at_phase
  at_phase-Inv (created i reply) (some creating) c f t h v = create_answered-Inv i reply c f v
  at_phase-Inv (refreshed i reply) (some refreshing) c f t h v = refresh_answered-Inv i reply c f v
  at_phase-Inv (completed i reply) (some completing) c f t h v = complete_answered-Inv i reply c v
  at_phase-Inv (xhr i slot ev) (some (transferring pool)) c f t h v =
      xhr_event-Inv i slot pool _ ev c t (worker-InRange pool.workers slot h.1) h v
  at_phase-Inv _ _ c f t h v = v

  abort_workers-InRange :
      (signal : ℕ) (ws : List (Option InFlight))
      → All (WorkerInRange o) ws
      → All (WorkerInRange o) (map (abort_worker signal) ws)
  abort_workers-InRange signal [] h = tt
  abort_workers-InRange signal (w ∷ ws) h = (
    if_cases (WorkerInRange o) (listens signal w) none w (λ _. tt) (λ _. h.0),
    abort_workers-InRange signal ws h.1,
  )

  abort_run-InRange :
      (signal : ℕ) (phase : Phase) → PhaseInRange o phase → PhaseInRange o (abort_run signal phase)
  unfolding abort_run abort_pool
  abort_run-InRange signal (transferring pool) h =
      (h.0, abort_workers-InRange signal pool.workers h.1)
  abort_run-InRange signal creating h = tt
  abort_run-InRange signal refreshing h = tt
  abort_run-InRange signal completing h = tt
  abort_run-InRange signal settled h = tt

  abort-Inv :
      (c : Controller)
      → Inv o T c
      → Inv o T (record c { aborted = true; runs = map (abort_run c.signal) c.runs })
  abort-Inv c v = record {
    entries = v.entries;
    distinct = v.distinct;
    phases =
        All-map (PhaseInRange o) (abort_run c.signal) c.runs
          (All-mono _ _ (abort_run-InRange c.signal) c.runs v.phases);
    calls = v.calls;
  }

  cancel_upload-Inv : (c : Controller) → Inv o T c → Inv o T (cancel_upload c)
  unfolding cancel_upload abort_video_upload
  cancel_upload-Inv c v =
      let w = if_cases (Inv o T) c.aborted c _ (λ _. v) (λ _. abort-Inv c v) in
      option_cases (Inv o T) (present c.video_id) _ _ (λ _. w) (λ id _. log-Inv o T _ _ tt w)

  add_run-Inv :
      (phase : Phase) (c : Controller)
      → PhaseInRange o phase
      → Inv o T c
      → Inv o T (record c { runs = c.runs ++ phase ∷ [] })
  add_run-Inv phase c h v = record {
    entries = v.entries;
    distinct = v.distinct;
    phases = All-append (PhaseInRange o) c.runs (phase ∷ []) v.phases (h, tt);
    calls = v.calls;
  }

  retry_upload-Inv : (c : Controller) → Inv o T c → Inv o T (retry_upload o c)
  unfolding retry_upload refresh_video_upload
  retry_upload-Inv c v =
      option_cases (Inv o T) (present c.video_id) _ _ (λ _. v)
        λ id _.
          if_cases (Inv o T) (length c.failed_part_numbers == 0) _ _ (λ _. v)
            λ _.
              log-Inv o T _ _ tt
                (add_run-Inv refreshing _ tt (emit-Inv o T _ (frame_Inv o T c _ refl refl refl v)))

  start_upload-Inv : (c : Controller) → Inv o T c → Inv o T (start_upload o c)
  unfolding start_upload create_video_upload
  start_upload-Inv c v =
      log-Inv o T _ _ tt
        (add_run-Inv creating _ tt (emit-Inv o T _ (frame_Inv o T c _ refl refl refl v)))

  step-Inv :
      (ev : Event) (c : Controller)
      → FromService o ev
      → TagsOf T ev
      → Inv o T c
      → Inv o T (step o ev c)
  unfolding step
  step-Inv start c f t v = start_upload-Inv c v
  step-Inv retry_failed_parts c f t v = retry_upload-Inv c v
  step-Inv cancel c f t v = cancel_upload-Inv c v
  step-Inv ev c f t v = at_phase-Inv ev _ c f t (maybe-InRange c.runs _ v.phases) v

  run-Inv :
      (evs : List Event) (c : Controller)
      → All (FromService o) evs
      → All (TagsOf T) evs
      → Inv o T c
      → Inv o T (run o evs c)
  unfolding run
  run-Inv [] c f t v = v
  run-Inv (ev ∷ evs) c f t v = run-Inv evs (step o ev c) f.1 t.1 (step-Inv ev c f.0 t.0 v)

  init-Inv : Inv o T (create_multipart_upload_controller o)
  unfolding create_multipart_upload_controller
  init-Inv = record { entries = tt; distinct = tt; phases = tt; calls = tt }

  -- The same of the calls with such ETags.
  pub complete_calls-IsOrdered :
      (evs : List Event)
      → All (FromService o) evs
      → All (TagsOf T) evs
      → All (IsOrdered o T) (run o evs (create_multipart_upload_controller o)).log
  complete_calls-IsOrdered evs f t = (run-Inv evs _ f t init-Inv).calls

-- The controller takes no other.
TagsOf-NotEmpty : (ev : Event) → TagsOf NotEmpty ev
TagsOf-NotEmpty (xhr i slot (on_load status (some etag))) = λ e. e
TagsOf-NotEmpty _ = tt

module _ (o : Options) where
  -- If the service lists only parts from 1 to the part count, then whatever calls, answers, failures and
  -- request events come in whatever order, each call that completes the upload lists every part from 1 to
  -- the part count once and in order, each with an ETag that is not empty.
  pub complete_calls-IsInOrder :
      (evs : List Event)
      → All (FromService o) evs
      → All (IsInOrder o) (run o evs (create_multipart_upload_controller o)).log
  complete_calls-IsInOrder evs f =
      complete_calls-IsOrdered o NotEmpty evs f
        (All-mono (FromService o) (TagsOf NotEmpty) (λ ev _. TagsOf-NotEmpty ev) evs f)
