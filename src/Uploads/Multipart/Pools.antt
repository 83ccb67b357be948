-- ===== src/Uploads/Multipart/Pools.antt =====
-- frontend/src/components/uploads/multipart-upload.ts, lines 222-257: what the workers of one call of
-- `uploadMissingParts` do at any moment.
pub mod Reached
pub mod Ending
use rendition.Common.{
  ℕ, zero, suc, ◌+◌, ◌≤◌, ◌<◌, min, Bool, true, false, not, ◌&&◌, ◌||◌, Option, none, some, List,
  [], ◌∷◌, ◌++◌, ◌≡◌, refl, sym, ◌∙◌, ap, subst, arith, length, All, All-map, All-mono, All-set,
  All-append, get_elem?, set, take, map, any, if_cases, option_cases, if◌then◌else◌, nat_eq, ◌==◌,
  length-map, length-take, length-set,
}
use rendition.Common.Sorting.{sort_by}
use rendition.Api.{MultipartUploadPart, VideoCreateResponse, VideoState}
use rendition.Api.Http.{Result, ok, err, Failure}
use rendition.Uploads.Multipart.Cases.{complete_upload_cases}
use rendition.Uploads.Multipart.{
  Options, Controller, InFlight, Pool, Phase, creating, refreshing, transferring, completing,
  settled, XhrEvent, XhrOutcome, reports, resolves, rejects, silent, present, emit, caught,
  complete_upload, join, resume, upload_missing_parts, next_part, set_run, begin_worker, all_idle,
  is_idle, has_failed, create_multipart_upload_controller,
}
use rendition.Uploads.Multipart.Steps.{
  Event, start, retry_failed_parts, cancel, created, refreshed, xhr, completed, start_upload,
  retry_upload, cancel_upload, create_answered, refresh_answered, complete_answered, finish,
  report_progress, part_failed, part_outcome, xhr_event, at_phase, step, run, abort_pool, abort_run,
  abort_worker, listens,
}

-- At most three workers; a pool that no worker has left by a failure has a request on its way, and one of
-- its workers stops only when the queue is used up.
pub record IsManned (pool : Pool) : Type 0 where
  pub few : length pool.workers ≤ 3
  pub used :
      pool.rejected ≡ false → any is_idle pool.workers ≡ true → length pool.queue ≤ pool.next_index
  pub busy : pool.rejected ≡ false → all_idle pool.workers ≡ false

abbrev pub Manned : Phase → Type 0
Manned (transferring pool) = IsManned pool
Manned creating = Unit {0}
Manned refreshing = Unit {0}
Manned completing = Unit {0}
Manned settled = Unit {0}

abbrev pub AllManned : Controller → Type 0
AllManned c = All Manned c.runs

set-set : (ps : List Phase) (i : ℕ) (p q : Phase) → set (set ps i p) i q ≡ set ps i q
set-set [] i p q = refl
set-set (x ∷ ps) zero p q = refl
set-set (x ∷ ps) (suc i) p q = ap (◌∷◌ x) (set-set ps i p q)

-- Once the run itself is rewritten, all runs are manned.
abbrev OthersManned : ℕ → Controller → Type 0
OthersManned i c = (phase : Phase) → Manned phase → All Manned (set c.runs i phase)

pub others_manned : (i : ℕ) (c : Controller) → AllManned c → OthersManned i c
others_manned i c h phase m = All-set Manned c.runs i phase m h

pub caught-Manned :
    (o : Options) (i : ℕ) (e : Failure) (c : Controller)
    → OthersManned i c
    → AllManned (caught o i e c)
unfolding caught emit
caught-Manned o i e c h = if_cases AllManned c.aborted _ _ (λ _. h settled tt) (λ _. h settled tt)

complete_upload-Manned :
    (o : Options) (i : ℕ) (c : Controller) → OthersManned i c → AllManned (complete_upload o i c)
complete_upload-Manned o i c h =
    complete_upload_cases AllManned o i c (h settled tt) (λ e. caught-Manned o i e c h)
      (λ id full. h completing tt)

join-Manned : (o : Options) (i : ℕ) (c : Controller) → OthersManned i c → AllManned (join o i c)
unfolding join
join-Manned o i c h =
    if_cases AllManned (has_failed c) _ _ (λ _. caught-Manned o i _ c h)
      (λ _. complete_upload-Manned o i c h)

pub resume-Manned :
    (o : Options) (i : ℕ) (pool : Pool) (c : Controller)
    → length pool.workers ≤ 3
    → (pool.rejected ≡ false
        → any is_idle pool.workers ≡ true
        → length pool.queue ≤ pool.next_index)
    → AllManned c
    → AllManned (resume o i pool c)
unfolding resume
resume-Manned o i pool c few used h =
    if_cases AllManned (all_idle pool.workers && not pool.rejected) _ _
      (λ _. join-Manned o i _ λ phase m.
        subst (All Manned) (sym (set-set c.runs i (transferring pool) phase))
          (All-set Manned c.runs i phase m h))
      (λ going.
        All-set Manned c.runs i (transferring pool)
          (record { few = few; used = used; busy = λ r. ground (arith, going, r) }) h)

idle_after :
    (ws : List (Option InFlight)) (slot signal : ℕ) (part : MultipartUploadPart)
    → any is_idle (set ws slot (begin_worker signal part)) ≡ true
    → any is_idle ws ≡ true
idle_after [] slot signal part h = h
idle_after (none ∷ ws) slot signal part h = refl
idle_after (some w ∷ ws) zero signal part h = h
idle_after (some w ∷ ws) (suc slot) signal part h = idle_after ws slot signal part h

beyond : (ps : List MultipartUploadPart) (i : ℕ) → get_elem? ps i ≡ none → length ps ≤ i
beyond [] i e = omega arith
beyond (p ∷ ps) zero e = cc
beyond (p ∷ ps) (suc i) e = omega (arith, beyond ps i e)

abbrev pub Fits : Pool → Type 0
Fits pool =
    (length pool.workers ≤ 3)
    × (pool.rejected ≡ false
        → any is_idle pool.workers ≡ true
        → length pool.queue ≤ pool.next_index)

pub next_part-Fits :
    (signal slot : ℕ) (pool : Pool) → IsManned pool → Fits (next_part signal slot pool)
unfolding next_part
next_part-Fits signal slot pool h =
    option_cases Fits (get_elem? pool.queue pool.next_index) _ _
      (λ e. (omega (arith, length-set pool.workers slot none, h.few), λ r i. beyond _ _ e))
      (λ part e. (
        omega (arith, length-set pool.workers slot (begin_worker signal part), h.few),
        λ r i. omega (arith, h.used r (idle_after pool.workers slot signal part i)),
      ))

none_idle :
    (signal n : ℕ) (queue : List MultipartUploadPart)
    → any is_idle (map (begin_worker signal) (take n queue)) ≡ false
none_idle signal zero queue = refl
none_idle signal (suc n) [] = refl
none_idle signal (suc n) (p ∷ ps) = none_idle signal n ps

pub upload_missing_parts-Manned :
    (o : Options) (i : ℕ) (parts : List MultipartUploadPart) (c : Controller)
    → AllManned c
    → AllManned (upload_missing_parts o i parts c)
unfolding upload_missing_parts
upload_missing_parts-Manned o i parts c h =
    let queue = sort_by (λ (p : MultipartUploadPart). p.part_number) parts in
    let n = min 3 (length queue) in
    resume-Manned o i _ _
      (omega (arith, length-map (begin_worker c.signal) (take n queue), length-take n queue))
      (λ r i. cc (none_idle c.signal n queue, i)) h

pub report_progress-Manned :
    (o : Options) (n loaded : ℕ) (c : Controller)
    → AllManned c
    → AllManned (report_progress o n loaded c)
unfolding report_progress emit
report_progress-Manned o n loaded c h = h
