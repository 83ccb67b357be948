-- ===== src/Service/Jobs/Stages.antt =====
-- core/services/job_service.py, lines 92-410: what the queue promises of a rendition, as a machine of five
-- stages, and that the code keeps to it.
use rendition.Common.{ℕ, suc, ◌-◌, String, Bool, Option, List, ◌≡◌, arith, or_else}
use rendition.Api.{ProcessingStatus, pending, running, done, skipped}
use rendition.Service.{Rendition, Video}
use rendition.Service.Status.{is_running-eq, is_pending-eq}
use rendition.Service.Jobs.{
  is_claimable, has_exhausted_attempts, mark_job_attempts_exhausted, mark_job_running,
}
use rendition.Service.Jobs.Finishing.{succeeded, skipped_for, retried, given_up, should_retry}
use rendition.Service.Jobs.Steps.{Event, run}
use rendition.Service.Jobs.Changes.{
  Replaced, here, there, Turn, claims, exhausts, succeeds, skips, retries, gives_up, Change, stays,
  beats, queues, turns,
}
use rendition.Service.Jobs.Histories.{
  Pairwise, cons, Star, unmoved, then_one, Pairwise-refl, Pairwise-trans, Pairwise-map, Star-trans,
  run-Changes,
}

-- The numbers are attempts that are left.
pub data Stage : Type 0 where
  waiting : ℕ → Stage
  encoding : String → ℕ → Stage
  encoded left_out lost : Stage

pub data Move : Stage → Stage → Type 0 where
  start : (worker : String) (n : ℕ) → Move (waiting (suc n)) (encoding worker n)
  finish : (worker : String) (n : ℕ) → Move (encoding worker n) encoded
  leave_out : (worker : String) (n : ℕ) → Move (encoding worker n) left_out
  try_again : (worker : String) (n : ℕ) → Move (encoding worker (suc n)) (waiting (suc n))
  lose : (worker : String) → Move (encoding worker 0) lost
  refuse : Move (waiting 0) lost

abbrev pub stage_of : ProcessingStatus → ProcessingStatus → Option String → ℕ → Stage
stage_of pending status worker n = waiting n
stage_of running status worker n = encoding (or_else worker "") n
stage_of done skipped worker n = left_out
stage_of done _ worker n = encoded
stage_of _ status worker n = lost

abbrev pub stage : Rendition → Stage
stage r = stage_of r.job.status r.status r.job.worker_id (r.job.max_attempts - r.job.attempt_count)

pub Turn-Move : {r r' : Rendition} → Turn r r' → Move (stage r) (stage r')
unfolding is_claimable has_exhausted_attempts mark_job_attempts_exhausted mark_job_running succeeded
    skipped_for retried given_up should_retry
Turn-Move {r} (claims now w free under) =
    let e : r.job.status ≡ pending = is_pending-eq _ (ground arith) in
    let k : r.job.max_attempts - r.job.attempt_count
        ≡ suc (r.job.max_attempts - suc r.job.attempt_count) =
      ground arith in
    simp (e, k) (start w _)
Turn-Move {r} (exhausts now free over) =
    let e : r.job.status ≡ pending = is_pending-eq _ (ground arith) in
    let k : r.job.max_attempts - r.job.attempt_count ≡ 0 = ground arith in simp (e, k) refuse
Turn-Move {r} (succeeds now path h) = simp (is_running-eq _ h) (finish _ _)
Turn-Move {r} (skips now reason h) = simp (is_running-eq _ h) (leave_out _ _)
Turn-Move {r} (retries backoffs now error h more) =
    let k : r.job.max_attempts - r.job.attempt_count
        ≡ suc (r.job.max_attempts - suc r.job.attempt_count) =
      ground arith in
    simp (is_running-eq _ h, k) (try_again _ _)
Turn-Move {r} (gives_up now error h over) =
    let k : r.job.max_attempts - r.job.attempt_count ≡ 0 = ground arith in
    simp (is_running-eq _ h, k) (lose _)

abbrev pub Moves : Rendition → Rendition → Type 0
Moves r r' = Star Move (stage r) (stage r')

Replaced-Moves :
    {r r' : Rendition} {rs rs' : List Rendition}
    → Moves r r'
    → Replaced r r' rs rs'
    → Pairwise Moves rs rs'
Replaced-Moves h (here {xs}) = cons h (Pairwise-refl (λ _. unmoved) xs)
Replaced-Moves h (there q) = cons unmoved (Replaced-Moves h q)

abbrev pub VideoMoves : Video → Video → Type 0
VideoMoves v v' = Pairwise Moves v.renditions v'.renditions

Change-Moves : {v v' : Video} → Change v v' → VideoMoves v v'
Change-Moves {v} stays = Pairwise-refl (λ _. unmoved) v.renditions
Change-Moves (queues r f q same path) = Replaced-Moves unmoved q
Change-Moves (beats r now busy q same path) = Replaced-Moves unmoved q
Change-Moves (turns r r' t q status h) = Replaced-Moves (then_one unmoved (Turn-Move t)) q

Changes-Moves : (v v' : Video) → Star Change v v' → VideoMoves v v'
Changes-Moves v _ unmoved = Pairwise-refl (λ _. unmoved) v.renditions
Changes-Moves v _ (then_one {y} hs c) =
    Pairwise-trans (λ _ _ _. Star-trans) (Changes-Moves v y hs) (Change-Moves c)

-- Whatever transactions come in whatever order, and whatever the storage takes, no video and no rendition
-- comes or goes, and each rendition only makes moves of the machine: it is handed out while attempts are
-- left, its worker finishes it, leaves it out or loses it, it is tried again only while attempts are left,
-- and it is lost only when none is.
pub run_refines_moves :
    (accepts : String → String → Bool) (backoffs : List ℕ) (evs : List Event) (db : List Video)
    → Pairwise VideoMoves db (run accepts backoffs evs db).1
run_refines_moves accepts backoffs evs db =
    Pairwise-map Changes-Moves (run-Changes accepts backoffs evs db)
