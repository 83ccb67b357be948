-- ===== src/Service/Jobs/Rows.antt =====
-- core/services/job_service.py, lines 92-410: a rendition and its job agree.
use rendition.Common.{
  ℕ, ◌≤◌, ◌<◌, String, Bool, true, Option, none, some, false, ◌||◌, List, ◌≡◌, refl, arith, subst,
  All, is_some,
}
use rendition.Api.{ProcessingStatus, pending, running, done, failed}
use rendition.Service.{OutboxMessage, Rendition, Video}
use rendition.Service.Status.{is_running, is_running-eq, is_pending-eq, is_done, is_skipped}
use rendition.Service.Jobs.{
  is_claimable, has_exhausted_attempts, mark_job_attempts_exhausted, mark_job_running,
}
use rendition.Service.Jobs.Finishing.{succeeded, skipped_for, retried, given_up, should_retry}
use rendition.Service.Jobs.Steps.{Event, run}
use rendition.Service.Jobs.Outbox.{with_message, map_message}
use rendition.Service.Jobs.Changes.{
  Replaced, here, there, Turn, claims, exhausts, succeeds, skips, retries, gives_up, Change, stays,
  beats, queues, turns, beaten,
}
use rendition.Service.Jobs.Histories.{run-keeps}

-- What a job's status says of its rendition's, of whether it has a worker, a heartbeat and a message, and of
-- its attempts.
abbrev Agrees : ProcessingStatus → ProcessingStatus → Bool → Bool → Bool → ℕ → ℕ → Type 0
Agrees pending s worker beat queued n m =
    (s ≡ pending) × (worker ≡ false) × (beat ≡ false) × (queued ≡ true) × (n ≤ m)
Agrees running s worker beat queued n m =
    (s ≡ running) × (worker ≡ true) × (beat ≡ true) × (0 < n) × (n ≤ m)
Agrees done s worker beat queued n m =
    ((is_done s || is_skipped s) ≡ true) × (worker ≡ false) × (beat ≡ false) × (0 < n) × (n ≤ m)
Agrees failed s worker beat queued n m = (s ≡ failed) × (worker ≡ false) × (beat ≡ false) × (n ≡ m)
Agrees _ s worker beat queued n m = ⊥

abbrev pub IsConsistent : Rendition → Type 0
IsConsistent r =
    Agrees r.job.status r.status (is_some r.job.worker_id) (is_some r.job.heartbeat_at)
      (is_some r.job.outbox_message) r.job.attempt_count r.job.max_attempts

in_status :
    (s : ProcessingStatus) (r : Rendition)
    → r.job.status ≡ s
    → IsConsistent r
    → Agrees s r.status
        (is_some r.job.worker_id)
        (is_some r.job.heartbeat_at)
        (is_some r.job.outbox_message)
        r.job.attempt_count
        r.job.max_attempts
in_status s r e =
    subst
      (λ x.
        Agrees x r.status (is_some r.job.worker_id) (is_some r.job.heartbeat_at)
          (is_some r.job.outbox_message) r.job.attempt_count r.job.max_attempts)
      e

Turn-IsConsistent : {r r' : Rendition} → Turn r r' → IsConsistent r → IsConsistent r'
unfolding is_claimable has_exhausted_attempts mark_job_attempts_exhausted mark_job_running succeeded
    skipped_for retried given_up should_retry
Turn-IsConsistent {r} (claims now w free under) h = (refl, refl, refl, omega arith, ground arith)
Turn-IsConsistent {r} (exhausts now free over) h =
    let a = in_status pending r (is_pending-eq _ (ground arith)) h in
    (refl, refl, refl, ground (arith, a))
Turn-IsConsistent {r} (succeeds now path busy) h =
    let a = in_status running r (is_running-eq _ busy) h in (refl, refl, refl, a.3, a.4)
Turn-IsConsistent {r} (skips now reason busy) h =
    let a = in_status running r (is_running-eq _ busy) h in (refl, refl, refl, a.3, a.4)
Turn-IsConsistent {r} (retries backoffs now error busy again) h =
    let a = in_status running r (is_running-eq _ busy) h in (refl, refl, refl, refl, a.4)
Turn-IsConsistent {r} (gives_up now error busy over) h =
    let a = in_status running r (is_running-eq _ busy) h in (refl, refl, refl, ground (arith, a))

beaten-IsConsistent :
    (now : ℕ) (r : Rendition)
    → is_running r.job.status ≡ true
    → IsConsistent r
    → IsConsistent (beaten now r)
beaten-IsConsistent now r busy h =
    let e = is_running-eq _ busy in
    let a = in_status running r e h in simp e (a.0, a.1, refl, a.3, a.4)

pub All-Replaced {ℓ κ} :
    {A : Type ℓ} (P : A → Type κ) {x y : A} {xs ys : List A}
    → (P x → P y)
    → Replaced x y xs ys
    → All P xs
    → All P ys
All-Replaced P f here h = (f h.0, h.1)
All-Replaced P f (there q) h = (h.0, All-Replaced P f q h.1)

is_some-map_message :
    (f : OutboxMessage → OutboxMessage) (m : Option OutboxMessage)
    → is_some (map_message f m) ≡ is_some m
is_some-map_message f none = refl
is_some-map_message f (some m) = refl

with_message-IsConsistent :
    (f : OutboxMessage → OutboxMessage) (r : Rendition)
    → IsConsistent r
    → IsConsistent (with_message f r)
with_message-IsConsistent f r h = rw (is_some-map_message f r.job.outbox_message) h

pub Change-IsConsistent :
    (v w : Video) → Change v w → All IsConsistent v.renditions → All IsConsistent w.renditions
Change-IsConsistent v _ stays h = h
Change-IsConsistent v w (queues r f q same path) h =
    All-Replaced IsConsistent (with_message-IsConsistent f r) q h
Change-IsConsistent v w (beats r now busy q same path) h =
    All-Replaced IsConsistent (beaten-IsConsistent now r busy) q h
Change-IsConsistent v w (turns r r' t q status p) h =
    All-Replaced IsConsistent (Turn-IsConsistent t) q h

-- The rows agree whatever transactions come: a job waits exactly with its rendition, has a message, no worker
-- and has not used more attempts than it has; a job that runs has a worker, a heartbeat and an attempt that
-- counts; a job that is done has its rendition done or skipped; and a job has failed only with its
-- rendition, and when all its attempts are used. No job is in another state.
pub rows-IsConsistent :
    (accepts : String → String → Bool) (backoffs : List ℕ) (evs : List Event) (db : List Video)
    → All (λ (v : Video). All IsConsistent v.renditions) db
    → All (λ (v : Video). All IsConsistent v.renditions) (run accepts backoffs evs db).1
rows-IsConsistent accepts backoffs =
    run-keeps accepts backoffs (λ v. All IsConsistent v.renditions) Change-IsConsistent
