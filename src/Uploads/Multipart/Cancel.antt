-- ===== src/Uploads/Multipart/Cancel.antt =====
-- frontend/src/components/uploads/multipart-upload.ts, lines 215-220: what `cancel` does to the requests of
-- the parts, and to a run that still waits for the service to create the upload.
use rendition.Common.{
  ℕ, zero, suc, ◌<◌, min, true, false, Option, none, some, List, [], ◌∷◌, ◌≡◌, refl, sym, ◌∙◌, ap,
  subst, arith, length, All, All-map, All-mono, get_elem?, take, map, if_cases, option_cases,
  if◌then◌else◌, nat_eq,
}
use rendition.Common.Sorting.{sort_by, length-sort_by}
use rendition.Api.{MultipartUploadPart, VideoCreateResponse}
use rendition.Api.Requests.{abort_video_upload}
use rendition.Api.Http.{ok}
use rendition.Uploads.Multipart.{
  Options, Controller, call, InFlight, Phase, creating, refreshing, transferring, completing,
  settled, XhrEvent, present, resume, upload_missing_parts, begin_worker, all_idle,
}
use rendition.Uploads.Multipart.Steps.{
  Event, cancel, created, xhr, cancel_upload, create_answered, xhr_event, at_phase, step, run,
  abort_pool, abort_run, abort_worker, flatten_option,
}

-- Every request of the run listens to the signal.
abbrev Listening : ℕ → Option InFlight → Type 0
Listening signal none = Unit {0}
Listening signal (some w) = w.signal ≡ signal

abbrev pub RunListening : ℕ → Phase → Type 0
RunListening signal (transferring pool) = All (Listening signal) pool.workers
RunListening signal creating = Unit {0}
RunListening signal refreshing = Unit {0}
RunListening signal completing = Unit {0}
RunListening signal settled = Unit {0}

-- The run has no request on its way.
abbrev Quiet : Phase → Type 0
Quiet (transferring pool) = All (λ w. w ≡ none) pool.workers
Quiet creating = Unit {0}
Quiet refreshing = Unit {0}
Quiet completing = Unit {0}
Quiet settled = Unit {0}

abort_workers-Quiet :
    (signal : ℕ) (ws : List (Option InFlight))
    → All (Listening signal) ws
    → All (λ w. w ≡ none) (map (abort_worker signal) ws)
abort_workers-Quiet signal [] h = tt
abort_workers-Quiet signal (none ∷ ws) h = (refl, abort_workers-Quiet signal ws h.1)
abort_workers-Quiet signal (some w ∷ ws) h =
    (ground (arith, h.0), abort_workers-Quiet signal ws h.1)

abort_run-Quiet :
    (signal : ℕ) (phase : Phase) → RunListening signal phase → Quiet (abort_run signal phase)
unfolding abort_run abort_pool
abort_run-Quiet signal (transferring pool) h = abort_workers-Quiet signal pool.workers h
abort_run-Quiet signal creating h = tt
abort_run-Quiet signal refreshing h = tt
abort_run-Quiet signal completing h = tt
abort_run-Quiet signal settled h = tt

cancel_upload-Quiet :
    (c : Controller)
    → c.aborted ≡ false
    → All (RunListening c.signal) c.runs
    → All Quiet (cancel_upload c).runs
unfolding cancel_upload
cancel_upload-Quiet c a h =
    let quiet =
      All-map Quiet (abort_run c.signal) c.runs
        (All-mono _ _ (abort_run-Quiet c.signal) c.runs h) in
    let w = if_cases (λ (d : Controller). All Quiet d.runs) c.aborted c _ (λ e. cc) (λ _. quiet) in
    option_cases (λ (d : Controller). All Quiet d.runs) (present c.video_id) _ _ (λ _. w)
      (λ id _. w)

no_worker :
    (ws : List (Option InFlight)) (slot : ℕ)
    → All (λ w. w ≡ none) ws
    → flatten_option (get_elem? ws slot) ≡ none
no_worker [] slot h = refl
no_worker (w ∷ ws) zero h = h.0
no_worker (w ∷ ws) (suc slot) h = no_worker ws slot h.1

at_phase-Quiet :
    (o : Options) (i slot : ℕ) (ev : XhrEvent) (phases : List Phase) (k : ℕ) (c : Controller)
    → All Quiet phases
    → at_phase o (xhr i slot ev) (get_elem? phases k) c ≡ c
unfolding at_phase xhr_event
at_phase-Quiet o i slot ev [] k c h = refl
at_phase-Quiet o i slot ev (transferring pool ∷ ps) zero c h =
    rw (no_worker pool.workers slot h.0) refl
at_phase-Quiet o i slot ev (creating ∷ ps) zero c h = refl
at_phase-Quiet o i slot ev (refreshing ∷ ps) zero c h = refl
at_phase-Quiet o i slot ev (completing ∷ ps) zero c h = refl
at_phase-Quiet o i slot ev (settled ∷ ps) zero c h = refl
at_phase-Quiet o i slot ev (p ∷ ps) (suc k) c h = at_phase-Quiet o i slot ev ps k c h.1

-- The event is one of a part's request.
abbrev pub OfRequest : Event → Type 0
OfRequest ev = (i : ℕ) × (slot : ℕ) × (x : XhrEvent) × (ev ≡ xhr i slot x)

run-Quiet :
    (o : Options) (evs : List Event) (c : Controller)
    → All Quiet c.runs
    → All OfRequest evs
    → run o evs c ≡ c
unfolding run step
run-Quiet o [] c h f = refl
run-Quiet o (ev ∷ evs) c h ((i, slot, x, e), f) =
    let same : step o ev c ≡ c =
      ap (λ ev. step o ev c) e ∙ at_phase-Quiet o i slot x c.runs i c h in
    ap (run o evs) same ∙ run-Quiet o evs c h f

-- If no cancellation is in force and the requests on their way all listen to the current signal, then
-- after `cancel` nothing that a request still reports has an effect; and `cancel` puts out the call that
-- aborts the upload if the service has given it an id that is not empty, and otherwise nothing.
pub cancel_upload-ends_requests :
    (o : Options) (c : Controller) (evs : List Event)
    → c.aborted ≡ false
    → All (RunListening c.signal) c.runs
    → All OfRequest evs
    → (run o evs (cancel_upload c) ≡ cancel_upload c)
      × ((cancel_upload c).aborted ≡ true)
      × ((cancel_upload c).log ≡ elim (present c.video_id) [
        | none ↦ c.log
        | some v ↦ call (abort_video_upload v) ∷ c.log
      ])
unfolding cancel_upload
cancel_upload-ends_requests o c evs a h f = (
  run-Quiet o evs (cancel_upload c) (cancel_upload-Quiet c a h) f,
  ground (arith, a),
  ground (arith, a),
)

busy_pool :
    (signal n : ℕ) (queue : List MultipartUploadPart)
    → 0 < n
    → 0 < length queue
    → all_idle (map (begin_worker signal) (take n queue)) ≡ false
busy_pool signal zero queue hn hq = absurd (omega arith)
busy_pool signal (suc n) [] hn hq = absurd (omega arith)
busy_pool signal (suc n) (p ∷ ps) hn hq = refl

upload_missing_parts-flag :
    (o : Options) (i : ℕ) (parts : List MultipartUploadPart) (c : Controller)
    → 0 < length parts
    → upload_missing_parts o i parts (record c { aborted = true })
      ≡ record (upload_missing_parts o i parts c) { aborted = true }
unfolding upload_missing_parts resume
upload_missing_parts-flag o i parts c h =
    let queue = sort_by (λ (p : MultipartUploadPart). p.part_number) parts in
    let some_part : 0 < length queue =
      omega (arith, length-sort_by (λ (p : MultipartUploadPart). p.part_number) parts) in
    rw (busy_pool c.signal (min 3 (length queue)) queue (omega arith) some_part) refl

cancel_upload-flag :
    (c : Controller)
    → present c.video_id ≡ none
    → c.runs ≡ creating ∷ []
    → cancel_upload c ≡ record c { aborted = true }
unfolding cancel_upload abort_run
cancel_upload-flag c e runs =
    let same : map (abort_run c.signal) c.runs ≡ c.runs =
      ap (map (abort_run c.signal)) runs ∙ sym runs in
    let set : (if c.aborted
          then c
          else record c { aborted = true; runs = map (abort_run c.signal) c.runs })
        ≡ record c { aborted = true } =
      if_cases (λ d. d ≡ record c { aborted = true }) c.aborted c _
        (λ a. ap (λ b. record c { aborted = b }) a)
        (λ _. ap (λ r. record c { aborted = true; runs = r }) same) in
    option_cases (λ d. d ≡ record c { aborted = true }) (present c.video_id) _ _ (λ _. set)
      (λ v e'. cc)

created-flag :
    (o : Options) (upload : VideoCreateResponse) (c : Controller)
    → c.runs ≡ creating ∷ []
    → 0 < length upload.parts
    → step o (created 0 (ok upload)) (record c { aborted = true })
      ≡ record (step o (created 0 (ok upload)) c) { aborted = true }
unfolding step at_phase create_answered
created-flag o upload c runs h =
    let ev = created 0 (ok upload) in
    subst
      (λ ps.
        at_phase o ev (get_elem? ps 0) (record c { aborted = true })
        ≡ record (at_phase o ev (get_elem? ps 0) c) { aborted = true })
      (sym runs)
      (upload_missing_parts-flag o 0 upload.parts
        (record c { video_id = some upload.video_id; upload_parts = upload.parts }) h)

-- While the first call still waits for the service to create the upload, `cancel` only sets a flag: if the
-- service then answers with an upload of at least one part, the controller sends the parts just as if it
-- had not been cancelled.
pub cancel_before_created :
    (o : Options) (upload : VideoCreateResponse) (c : Controller)
    → present c.video_id ≡ none
    → c.runs ≡ creating ∷ []
    → 0 < length upload.parts
    → step o (created 0 (ok upload)) (step o cancel c)
      ≡ record (step o (created 0 (ok upload)) c) { aborted = true }
unfolding step
cancel_before_created o upload c e runs h =
    ap (step o (created 0 (ok upload))) (cancel_upload-flag c e runs)
    ∙ created-flag o upload c runs h
