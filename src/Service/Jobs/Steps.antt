-- ===== src/Service/Jobs/Steps.antt =====
-- core/services/job_service.py, lines 170-410, and core/services/outbox_service.py, lines 37-101: the transactions on the database, one after
-- another in any order.
use rendition.Common.{
  ℕ, String, Bool, true, false, ◌&&◌, Option, none, some, List, [], ◌∷◌, take, filter, length,
  if◌then◌else◌, ltb, or_else, string_eq,
}
use rendition.Common.Sorting.{sort_by}
use rendition.Service.{Job, Rendition, SourceMetadata, Video, Outcome, returns}
use rendition.Service.Status.{is_running}
use rendition.Service.Jobs.{EncodingJobContext, claim_encoding_job, heartbeat_encoding_job}
use rendition.Service.Jobs.Database.{with_job, all_jobs}
use rendition.Service.Jobs.Outbox.{Publisher, publish_pending_outbox_messages}
use rendition.Service.Jobs.Finishing.{
  mark_encoding_job_succeeded, mark_encoding_job_skipped, mark_encoding_job_failed, reap_job,
}

abbrev beats_before : ℕ → Option ℕ → Bool
beats_before stale_before none = true
beats_before stale_before (some heartbeat_at) = ltb heartbeat_at stale_before

unfoldable pub is_stale : ℕ → Job → Bool
is_stale stale_before job = is_running job.status && beats_before stale_before job.heartbeat_at

-- The query of `reap_stale_encoding_jobs`: a running job has been started.
unfoldable pub stale_jobs : ℕ → ℕ → List Video → List Job
stale_jobs stale_before limit db = take limit (
    sort_by (λ (job : Job). or_else job.started_at 0)
      (filter (is_stale stale_before) (all_jobs db)))

module _ (backoffs : List ℕ) where
  -- The loop has the rows that the query found: a row is the one with the id that meets its condition.
  abbrev pub reap_one : ℕ → ℕ → Video → Rendition → Outcome Bool × Video
  reap_one now stale_before video r =
      if is_stale stale_before r.job
      then (returns true, reap_job backoffs now video r)
      else (returns false, video)

  unfoldable pub reap_jobs : ℕ → ℕ → List Job → List Video → List Video
  reap_jobs now stale_before [] db = db
  reap_jobs now stale_before (job ∷ jobs) db =
      reap_jobs now stale_before jobs (with_job job.id (reap_one now stale_before) db).1

  unfoldable pub reap_stale_encoding_jobs : ℕ → ℕ → ℕ → List Video → ℕ × List Video
  reap_stale_encoding_jobs now stale_before limit db =
      let jobs = stale_jobs stale_before limit db in
      (length jobs, reap_jobs now stale_before jobs db)

-- The calls of the functions, with the moment of each.
pub data Event : Type 0 where
  claim : ℕ → String → String → String → String → Event
  heartbeat : ℕ → String → String → Event
  succeed : ℕ → String → String → Option String → Option SourceMetadata → Event
  skip : ℕ → String → String → String → Option SourceMetadata → Event
  fail : ℕ → String → String → String → Event
  reap : ℕ → ℕ → ℕ → Event
  publish : ℕ → Publisher → ℕ → Option (List String) → Event

pub data Reply : Type 0 where
  claimed : Outcome (Option EncodingJobContext) → Reply
  updated : Outcome Bool → Reply
  failed_with : Outcome (Option Bool) → Reply
  reaped : ℕ → Reply
  published : ℕ → Reply

abbrev reply {ℓ κ} : {A : Type ℓ} {B : Type κ} → (A → Reply) → A × B → Reply × B
reply f (a, b) = (f a, b)

module _ (accepts : String → String → Bool) (backoffs : List ℕ) where
  unfoldable pub step : Event → List Video → Reply × List Video
  step (claim now job_id video_id rendition_id worker_id) db =
      reply claimed (with_job job_id (claim_encoding_job now video_id rendition_id worker_id) db)
  step (heartbeat now job_id worker_id) db =
      reply updated (with_job job_id (heartbeat_encoding_job now worker_id) db)
  step (succeed now job_id worker_id output_path metadata) db =
      reply updated (
        with_job job_id (mark_encoding_job_succeeded accepts now worker_id output_path metadata) db)
  step (skip now job_id worker_id reason metadata) db =
      reply updated
        (with_job job_id (mark_encoding_job_skipped accepts now worker_id reason metadata) db)
  step (fail now job_id worker_id error) db =
      reply failed_with
        (with_job job_id (mark_encoding_job_failed accepts backoffs now worker_id error) db)
  step (reap now stale_before limit) db =
      reply reaped (reap_stale_encoding_jobs backoffs now stale_before limit db)
  step (publish now publisher limit ids) db =
      reply published (publish_pending_outbox_messages now publisher limit ids db)

  -- The replies, oldest first, and the database at the end.
  unfoldable pub run : List Event → List Video → List Reply × List Video
  run [] db = ([], db)
  run (ev ∷ evs) db =
      let (answer, next) = step ev db in
      let (answers, last) = run evs next in (answer ∷ answers, last)
