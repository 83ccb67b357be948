-- ===== src/Uploads/Multipart/Pools/Ending.antt =====
-- frontend/src/components/uploads/multipart-upload.ts, lines 227-252: why the workers' loops end.
use rendition.Common.{
  ℕ, zero, suc, ◌+◌, ◌-◌, ◌≤◌, ◌<◌, Bool, true, false, not, ◌&&◌, ◌||◌, Option, none, some, List,
  [], ◌∷◌, ◌≡◌, refl, sym, ap, subst, arith, length, get_elem?, set, if_cases, option_cases, ltb,
  leb, string_eq, String, ◌==◌,
}
use rendition.Api.{MultipartUploadPart}
use rendition.Api.Http.{Failure}
use rendition.Uploads.Multipart.{
  Options, Controller, InFlight, Pool, Phase, creating, refreshing, transferring, completing,
  settled, XhrEvent, on_progress, on_load, on_error, on_abort, XhrOutcome, reports, resolves,
  rejects, silent, emit, caught, join, resume, next_part, set_run, all_idle, has_failed, part_blob,
  upload_part, etag_outcome, add_failed,
}
use rendition.Uploads.Multipart.Cases.{complete_upload_cases}
use rendition.Uploads.Multipart.Steps.{
  xhr, part_failed, part_outcome, xhr_event, at_phase, step, flatten_option,
}

abbrev pub busy : List (Option InFlight) → ℕ
busy [] = 0
busy (none ∷ ws) = busy ws
busy (some w ∷ ws) = suc (busy ws)

-- The requests that a pool has on its way or has still to begin.
abbrev pub left : Pool → ℕ
left pool = busy pool.workers + (length pool.queue - pool.next_index)

-- The requests that a run waits for; none, if it transfers no parts.
abbrev pub run_left : Option Phase → ℕ
run_left none = 0
run_left (some (transferring pool)) = left pool
run_left (some creating) = 0
run_left (some refreshing) = 0
run_left (some completing) = 0
run_left (some settled) = 0

run_left-set :
    (ps : List Phase) (i : ℕ) (phase : Phase)
    → run_left (get_elem? (set ps i phase) i) ≤ run_left (some phase)
run_left-set [] i phase = omega arith
run_left-set (p ∷ ps) zero phase = omega arith
run_left-set (p ∷ ps) (suc i) phase = run_left-set ps i phase

pub busy-set-none :
    (ws : List (Option InFlight)) (slot : ℕ) (w : InFlight)
    → get_elem? ws slot ≡ some (some w)
    → busy (set ws slot none) + 1 ≡ busy ws
busy-set-none [] slot w e = cc
busy-set-none (none ∷ ws) zero w e = cc
busy-set-none (some v ∷ ws) zero w e = omega arith
busy-set-none (none ∷ ws) (suc slot) w e = busy-set-none ws slot w e
busy-set-none (some v ∷ ws) (suc slot) w e = omega (arith, busy-set-none ws slot w e)

pub busy-set-some :
    (ws : List (Option InFlight)) (slot : ℕ) (w v : InFlight)
    → get_elem? ws slot ≡ some (some w)
    → busy (set ws slot (some v)) ≡ busy ws
busy-set-some [] slot w v e = cc
busy-set-some (none ∷ ws) zero w v e = cc
busy-set-some (some u ∷ ws) zero w v e = refl
busy-set-some (none ∷ ws) (suc slot) w v e = busy-set-some ws slot w v e
busy-set-some (some u ∷ ws) (suc slot) w v e = ap suc (busy-set-some ws slot w v e)

pub within :
    (ps : List MultipartUploadPart) (i : ℕ) (p : MultipartUploadPart)
    → get_elem? ps i ≡ some p
    → i < length ps
within [] i p e = cc
within (q ∷ ps) zero p e = omega arith
within (q ∷ ps) (suc i) p e = omega (arith, within ps i p e)

left-next_part :
    (signal slot : ℕ) (pool : Pool) (w : InFlight)
    → get_elem? pool.workers slot ≡ some (some w)
    → left (next_part signal slot pool) < left pool
unfolding next_part
left-next_part signal slot pool w e =
    option_cases (λ p. left p < left pool) (get_elem? pool.queue pool.next_index) _ _
      (λ _. omega (arith, busy-set-none pool.workers slot w e))
      (λ part there. omega (
        arith,
        busy-set-some pool.workers slot w (record { part = part; signal = signal }) e,
        within pool.queue pool.next_index part there,
      ))

-- A failure or a success, and no mere progress.
abbrev ends : XhrOutcome → Bool
ends (reports loaded) = false
ends (resolves loaded etag) = true
ends (rejects e) = true
ends silent = false

abbrev pub is_answer : XhrEvent → Bool
is_answer (on_progress length_computable loaded) = false
is_answer (on_load status etag) = true
is_answer on_error = true
is_answer on_abort = true

etag_outcome-ends : (n : ℕ) (etag : Option String) → ends (etag_outcome n etag) ≡ true
unfolding etag_outcome
etag_outcome-ends n none = refl
etag_outcome-ends n (some etag) =
    if_cases (λ x. ends x ≡ true) (etag == "") _ _ (λ _. refl) (λ _. refl)

upload_part-ends : (n : ℕ) (ev : XhrEvent) → is_answer ev ≡ true → ends (upload_part n ev) ≡ true
unfolding upload_part
upload_part-ends n (on_progress length_computable loaded) h = cc
upload_part-ends n (on_load status etag) h =
    if_cases (λ x. ends x ≡ true) (ltb status 200 || leb 300 status) _ _ (λ _. refl)
      (λ _. etag_outcome-ends n etag)
upload_part-ends n on_error h = refl
upload_part-ends n on_abort h = refl

module _ (o : Options) (i : ℕ) where
  abbrev AtMost : ℕ → Controller → Type 0
  AtMost n c = run_left (get_elem? c.runs i) ≤ n

  caught-over : (e : Failure) (c : Controller) → AtMost 0 (caught o i e c)
  unfolding caught emit
  caught-over e c =
      if_cases (AtMost 0) c.aborted _ _ (λ _. run_left-set c.runs i settled)
        (λ _. run_left-set c.runs i settled)

  join-over : (c : Controller) → AtMost 0 (join o i c)
  unfolding join
  join-over c =
      if_cases (AtMost 0) (has_failed c) _ _ (λ _. caught-over _ c)
        (λ _.
          complete_upload_cases (AtMost 0) o i c (run_left-set c.runs i settled)
            (λ e. caught-over e c) (λ id full. run_left-set c.runs i completing))

  resume-left : (pool : Pool) (c : Controller) → AtMost (left pool) (resume o i pool c)
  unfolding resume
  resume-left pool c =
      if_cases (AtMost (left pool)) (all_idle pool.workers && not pool.rejected) _ _
        (λ _. omega (arith, join-over (set_run i (transferring pool) c)))
        (λ _. run_left-set c.runs i (transferring pool))

  abbrev Below : ℕ → Controller → Type 0
  Below n c = run_left (get_elem? c.runs i) < n

  part_failed-left :
      (slot : ℕ) (pool : Pool) (w : InFlight) (e : Failure) (c : Controller)
      → c.aborted ≡ false
      → get_elem? pool.workers slot ≡ some (some w)
      → Below (left pool) (part_failed o i slot pool w e c)
  unfolding part_failed
  part_failed-left slot pool w e c live at =
      if_cases (Below (left pool)) c.aborted _ _ (λ a. cc)
        λ _. omega (
          arith,
          left-next_part c.signal slot pool w at,
          resume-left (next_part c.signal slot pool) (record c {
            failed_part_numbers = add_failed w.part.part_number c.failed_part_numbers;
          }),
        )

  part_outcome-left :
      (slot : ℕ) (pool : Pool) (w : InFlight) (x : XhrOutcome) (c : Controller)
      → ends x ≡ true
      → c.aborted ≡ false
      → get_elem? pool.workers slot ≡ some (some w)
      → Below (left pool) (part_outcome o i slot pool w x c)
  unfolding part_outcome
  part_outcome-left slot pool w (reports loaded) c f live at = cc
  part_outcome-left slot pool w (resolves loaded etag) c f live at =
      shorter (resume-left (next_part c.signal slot pool) _)
    where
      shorter : {n : ℕ} → n ≤ left (next_part c.signal slot pool) → n < left pool
      shorter le = omega (arith, le, left-next_part c.signal slot pool w at)
  part_outcome-left slot pool w (rejects e) c f live at = part_failed-left slot pool w e c live at
  part_outcome-left slot pool w silent c f live at = cc

-- As long as no cancellation is in force, each answer or failure of a request that a worker of a run awaits
-- brings that run nearer to its end: the number of requests that it has on its way or has still to begin
-- becomes smaller.
pub answer-shortens_run :
    (o : Options) (c : Controller) (i slot : ℕ) (pool : Pool) (w : InFlight) (ev : XhrEvent)
    → c.aborted ≡ false
    → get_elem? c.runs i ≡ some (transferring pool)
    → get_elem? pool.workers slot ≡ some (some w)
    → is_answer ev ≡ true
    → run_left (get_elem? (step o (xhr i slot ev) c).runs i) < left pool
unfolding step at_phase xhr_event
answer-shortens_run o c i slot pool w ev live running at final =
    let blob = part_blob o.file w.part.part_number o.upload_config.part_size_bytes in
    subst (λ phase. Below o i (left pool) (at_phase o (xhr i slot ev) phase c)) (sym running)
      (subst (λ v. Below o i (left pool) (xhr_event o i slot pool (flatten_option v) ev c)) (sym at)
        (part_outcome-left o i slot pool w (upload_part (length blob) ev) c
          (upload_part-ends (length blob) ev final) live at))
