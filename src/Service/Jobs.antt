-- ===== src/Service/Jobs.antt =====
-- core/services/job_service.py, lines 92-410: encoding jobs. A function is a transaction that holds the lock
-- of its job, and transactions come one after another: what one reads, no other has begun to change. The
-- database is the list of videos. `datetime.now` is the argument `now`; a transaction that raises has
-- changed nothing.
pub mod Finishing
pub mod Database
pub mod Outbox
pub mod Steps
pub mod Changes
pub mod Transactions
pub mod Histories
pub mod Stages
pub mod Rows
pub mod Videos
pub mod Attempts
pub mod Owners
pub mod Reports
pub mod Delivery
use rendition.Common.{
  ℕ, suc, ◌+◌, ◌-◌, ◌*◌, String, Bool, true, false, not, ◌&&◌, ◌||◌, Option, none, some, List, [],
  ◌∷◌, map, if◌then◌else◌, ltb, leb, nat_eq, string_eq, ◌==◌, length, get_elem?, find?, or_else,
}
use rendition.Api.{ProcessingStatus, pending, running, done, skipped, failed}
use rendition.Service.{
  OutboxStatus, OutboxMessage, Job, Rendition, SourceMetadata, Video, Outcome, raises, returns,
  statuses,
}
use rendition.Service.Status.{derive_video_status, is_pending, is_running}
use rendition.Service.Playback.{publish_master_playlist_if_ready}

pub record EncodingJobContext : Type 0 where
  pub job_id : String
  pub video_id : String
  pub rendition_id : String
  pub source : String
  pub source_bucket : Option String
  pub source_filename : Option String
  pub resolution : String
  pub bitrate : ℕ
  pub attempt_count : ℕ
  pub max_attempts : ℕ
  pub worker_id : String

abbrev pub has_job : String → Rendition → Bool
has_job job_id r = r.job.id == job_id

-- The rendition with this job, whose id no other has, is replaced by what it has become.
abbrev pub replace : Rendition → List Rendition → List Rendition
replace new [] = []
replace new (r ∷ rs) = if has_job new.job.id r then new ∷ rs else r ∷ replace new rs

-- `job.rendition` and `job` have changed, and the video's status is derived again.
unfoldable pub with_rendition : Rendition → Video → Video
with_rendition new video =
    let renditions = replace new video.renditions in
    record video { renditions = renditions; status = derive_video_status (statuses renditions) }

unfoldable pub has_passed : ℕ → Option ℕ → Bool
has_passed now none = true
has_passed now (some next_run_at) = leb next_run_at now

unfoldable pub is_claimable : ℕ → Job → Bool
is_claimable now job = is_pending job.status && has_passed now job.next_run_at

unfoldable pub has_exhausted_attempts : Job → Bool
has_exhausted_attempts job = leb job.max_attempts job.attempt_count

unfoldable pub mark_job_attempts_exhausted : ℕ → Rendition → Rendition
mark_job_attempts_exhausted now r = record r {
  status = failed;
  job = record r.job {
    status = failed;
    worker_id = none;
    heartbeat_at = none;
    next_run_at = none;
    finished_at = some now;
    error = some "encoding job exceeded maximum attempts";
  };
}

unfoldable pub mark_job_running : ℕ → String → Rendition → Rendition
mark_job_running now worker_id r = record r {
  status = running;
  error = none;
  job = record r.job {
    status = running;
    worker_id = some worker_id;
    heartbeat_at = some now;
    attempt_count = suc r.job.attempt_count;
    started_at = some now;
    finished_at = none;
    error = none;
    next_run_at = none;
  };
}

unfoldable pub build_encoding_context : Video → Rendition → EncodingJobContext
build_encoding_context video r = record {
  job_id = r.job.id;
  video_id = video.id;
  rendition_id = r.id;
  source = video.source;
  source_bucket = video.source_bucket;
  source_filename = video.source_filename;
  resolution = r.resolution;
  bitrate = r.bitrate;
  attempt_count = r.job.attempt_count;
  max_attempts = r.job.max_attempts;
  worker_id = or_else r.job.worker_id "";
}

-- claim_encoding_job with the job that it has found: what it returns, and the video afterwards.
unfoldable pub claim_encoding_job :
    ℕ → String → String → String → Video → Rendition → Outcome (Option EncodingJobContext) × Video
claim_encoding_job now video_id rendition_id worker_id video r =
    if not (video.id == video_id) || not (r.id == rendition_id)
    then (raises "encoding job message does not match job", video)
    else if not (is_claimable now r.job)
    then (returns none, video)
    else if has_exhausted_attempts r.job
    then (returns none, with_rendition (mark_job_attempts_exhausted now r) video)
    else let r' = mark_job_running now worker_id r in
      (returns (some (build_encoding_context video r')), with_rendition r' video)

abbrev is_worker : Option String → String → Bool
is_worker none worker_id = false
is_worker (some w) worker_id = w == worker_id

unfoldable pub owns_running_job : Job → String → Bool
owns_running_job job worker_id = is_running job.status && is_worker job.worker_id worker_id

-- No status is derived again.
unfoldable pub heartbeat_encoding_job : ℕ → String → Video → Rendition → Outcome Bool × Video
heartbeat_encoding_job now worker_id video r =
    if not (owns_running_job r.job worker_id) then (returns false, video) else (
      returns true,
      record video {
        renditions =
            replace (record r { job = record r.job { heartbeat_at = some now } }) video.renditions;
      },
    )
