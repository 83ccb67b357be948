-- ===== src/Uploads/Multipart/Pools/Reached.antt =====
-- How the pools of workers fare over any events.
use rendition.Common.{
  ℕ, zero, suc, true, false, ◌||◌, Option, none, some, List, [], ◌∷◌, ◌≡◌, refl, ◌∙◌, ap, subst,
  arith, length, All, All-map, All-mono, All-set, All-append, get_elem?, map, any, if_cases,
  option_cases, nat_eq, ◌==◌, length-map, length-set,
}
use rendition.Api.{VideoCreateResponse, VideoState}
use rendition.Api.Http.{Result, ok, err, Failure}
use rendition.Uploads.Multipart.{
  Options, Controller, InFlight, Pool, Phase, creating, refreshing, transferring, completing,
  settled, XhrEvent, XhrOutcome, reports, resolves, rejects, silent, present, emit, all_idle,
  is_idle, create_multipart_upload_controller,
}
use rendition.Uploads.Multipart.Steps.{
  Event, start, retry_failed_parts, cancel, created, refreshed, xhr, completed, start_upload,
  retry_upload, cancel_upload, create_answered, refresh_answered, complete_answered, finish,
  part_failed, part_outcome, xhr_event, at_phase, step, run, abort_pool, abort_run, abort_worker,
  listens,
}
use rendition.Uploads.Multipart.Pools.{
  IsManned, Manned, AllManned, others_manned, caught-Manned, resume-Manned, next_part-Fits,
  upload_missing_parts-Manned, report_progress-Manned,
}

part_failed-Manned :
    (o : Options) (i slot : ℕ) (pool : Pool) (w : InFlight) (e : Failure) (c : Controller)
    → IsManned pool
    → AllManned c
    → AllManned (part_failed o i slot pool w e c)
unfolding part_failed
part_failed-Manned o i slot pool w e c m h =
    let fits = next_part-Fits c.signal slot pool m in
    if_cases AllManned c.aborted _ _
      (λ _.
        All-set Manned c.runs i _
          (record {
            few = omega (arith, length-set pool.workers slot none, m.few);
            used = λ r. cc;
            busy = λ r. cc;
          })
          h)
      (λ _. resume-Manned o i _ _ fits.0 fits.1 h)

part_outcome-Manned :
    (o : Options) (i slot : ℕ) (pool : Pool) (w : InFlight) (x : XhrOutcome) (c : Controller)
    → IsManned pool
    → AllManned c
    → AllManned (part_outcome o i slot pool w x c)
unfolding part_outcome
part_outcome-Manned o i slot pool w (reports loaded) c m h = report_progress-Manned o _ loaded c h
part_outcome-Manned o i slot pool w (resolves loaded etag) c m h =
    let fits = next_part-Fits c.signal slot pool m in
    resume-Manned o i _ _ fits.0 fits.1
      (report_progress-Manned o _ loaded _ (report_progress-Manned o w.part.part_number loaded c h))
part_outcome-Manned o i slot pool w (rejects e) c m h = part_failed-Manned o i slot pool w e c m h
part_outcome-Manned o i slot pool w silent c m h = h

xhr_event-Manned :
    (o : Options) (i slot : ℕ) (pool : Pool) (w : Option InFlight) (ev : XhrEvent) (c : Controller)
    → IsManned pool
    → AllManned c
    → AllManned (xhr_event o i slot pool w ev c)
unfolding xhr_event
xhr_event-Manned o i slot pool none ev c m h = h
xhr_event-Manned o i slot pool (some w) ev c m h = part_outcome-Manned o i slot pool w _ c m h

create_answered-Manned :
    (o : Options) (i : ℕ) (reply : Result VideoCreateResponse) (c : Controller)
    → AllManned c
    → AllManned (create_answered o i reply c)
unfolding create_answered
create_answered-Manned o i (err e) c h = caught-Manned o i e c (others_manned i c h)
create_answered-Manned o i (ok upload) c h = upload_missing_parts-Manned o i upload.parts _ h

refresh_answered-Manned :
    (o : Options) (i : ℕ) (reply : Result VideoCreateResponse) (c : Controller)
    → AllManned c
    → AllManned (refresh_answered o i reply c)
unfolding refresh_answered
refresh_answered-Manned o i (err e) c h = caught-Manned o i e c (others_manned i c h)
refresh_answered-Manned o i (ok upload) c h = upload_missing_parts-Manned o i _ _ h

complete_answered-Manned :
    (o : Options) (i : ℕ) (reply : Result VideoState) (c : Controller)
    → AllManned c
    → AllManned (complete_answered o i reply c)
unfolding complete_answered finish
complete_answered-Manned o i (err e) c h = caught-Manned o i e c (others_manned i c h)
complete_answered-Manned o i (ok video) c h = others_manned i c h settled tt

unheard :
    (signal : ℕ) (ws : List (Option InFlight))
    → any (listens signal) ws ≡ false
    → map (abort_worker signal) ws ≡ ws
unheard signal [] h = refl
unheard signal (w ∷ ws) h = ground (arith, h, unheard signal ws)

abort_run-Manned : (signal : ℕ) (phase : Phase) → Manned phase → Manned (abort_run signal phase)
unfolding abort_run abort_pool
abort_run-Manned signal (transferring pool) m =
    let same = λ (r : (pool.rejected || any (listens signal) pool.workers) ≡ false).
      unheard signal pool.workers (ground (arith, r)) in
    record {
      few = omega (arith, length-map (abort_worker signal) pool.workers, m.few);
      used = λ r i. m.used (ground (arith, r)) (subst (λ ws. any is_idle ws ≡ true) (same r) i);
      busy = λ r. ap all_idle (same r) ∙ m.busy (ground (arith, r));
    }
abort_run-Manned signal creating m = tt
abort_run-Manned signal refreshing m = tt
abort_run-Manned signal completing m = tt
abort_run-Manned signal settled m = tt

cancel_upload-Manned : (c : Controller) → AllManned c → AllManned (cancel_upload c)
unfolding cancel_upload
cancel_upload-Manned c h =
    let aborted =
      All-map Manned (abort_run c.signal) c.runs
        (All-mono _ _ (abort_run-Manned c.signal) c.runs h) in
    let w = if_cases AllManned c.aborted c _ (λ _. h) (λ _. aborted) in
    option_cases AllManned (present c.video_id) _ _ (λ _. w) (λ id _. w)

retry_upload-Manned : (o : Options) (c : Controller) → AllManned c → AllManned (retry_upload o c)
unfolding retry_upload emit
retry_upload-Manned o c h =
    option_cases AllManned (present c.video_id) _ _ (λ _. h)
      λ id _.
        if_cases AllManned (length c.failed_part_numbers == 0) _ _ (λ _. h)
          (λ _. All-append Manned c.runs (refreshing ∷ []) h (tt, tt))

start_upload-Manned : (o : Options) (c : Controller) → AllManned c → AllManned (start_upload o c)
unfolding start_upload emit
start_upload-Manned o c h = All-append Manned c.runs (creating ∷ []) h (tt, tt)

abbrev MaybeManned : Option Phase → Type 0
MaybeManned none = Unit {0}
MaybeManned (some phase) = Manned phase

get_elem?-Manned : (ps : List Phase) (i : ℕ) → All Manned ps → MaybeManned (get_elem? ps i)
get_elem?-Manned [] i h = tt
get_elem?-Manned (p ∷ ps) zero h = h.0
get_elem?-Manned (p ∷ ps) (suc i) h = get_elem?-Manned ps i h.1

at_phase-Manned :
    (o : Options) (ev : Event) (phase : Option Phase) (c : Controller)
    → MaybeManned phase
    → AllManned c
    → AllManned (at_phase o ev phase c)
unfolding at_phase
at_phase-Manned o (created i reply) (some creating) c m h = create_answered-Manned o i reply c h
at_phase-Manned o (refreshed i reply) (some refreshing) c m h =
    refresh_answered-Manned o i reply c h
at_phase-Manned o (completed i reply) (some completing) c m h =
    complete_answered-Manned o i reply c h
at_phase-Manned o (xhr i slot ev) (some (transferring pool)) c m h =
    xhr_event-Manned o i slot pool _ ev c m h
at_phase-Manned o _ _ c m h = h

step-Manned : (o : Options) (ev : Event) (c : Controller) → AllManned c → AllManned (step o ev c)
unfolding step
step-Manned o start c h = start_upload-Manned o c h
step-Manned o retry_failed_parts c h = retry_upload-Manned o c h
step-Manned o cancel c h = cancel_upload-Manned c h
step-Manned o ev c h = at_phase-Manned o ev _ c (get_elem?-Manned c.runs _ h) h

run-Manned :
    (o : Options) (evs : List Event) (c : Controller) → AllManned c → AllManned (run o evs c)
unfolding run
run-Manned o [] c h = h
run-Manned o (ev ∷ evs) c h = run-Manned o evs (step o ev c) (step-Manned o ev c h)

-- Whatever calls, answers and request events come in whatever order, each run that transfers parts has at
-- most three workers; as long as none of them has left by a cancellation, at least one of them has a request
-- on its way, so the run is not stuck, and a worker has stopped only if all parts have been taken.
pub pools-Manned :
    (o : Options) (evs : List Event)
    → All Manned (run o evs (create_multipart_upload_controller o)).runs
unfolding create_multipart_upload_controller
pools-Manned o evs = run-Manned o evs _ tt
