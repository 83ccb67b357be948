-- ===== src/Service/Jobs/Finishing.antt =====
-- core/services/job_service.py, lines 222-407: the end of a job's attempt, by its worker or by the reaper.
use rendition.Common.{
  ℕ, ◌+◌, ◌-◌, String, Bool, true, false, not, Option, none, some, List, if◌then◌else◌, ltb, leb,
  length, get_elem?, or_else,
}
use rendition.Api.{ProcessingStatus, pending, done, skipped, failed}
use rendition.Service.{
  OutboxStatus, OutboxMessage, Job, Rendition, SourceMetadata, Video, Outcome, raises, returns,
}
use rendition.Service.Jobs.{owns_running_job, with_rendition}
use rendition.Service.Playback.{publish_master_playlist_if_ready}

-- settings.job_retry_backoff_seconds is not empty: `values or [0]`.
unfoldable pub retry_backoff_for_attempt : List ℕ → ℕ → ℕ
retry_backoff_for_attempt backoffs attempt_count =
    let index = attempt_count - 1 in
    let last = length backoffs - 1 in
    or_else (get_elem? backoffs (if leb (length backoffs) index then last else index)) 0

-- `created_at` is the database's clock.
abbrev pub new_message : ℕ → OutboxMessage
new_message now = record {
  exchange = "rendition";
  routing_key = "job.encode";
  status = OutboxStatus.pending;
  attempt_count = 0;
  last_error = none;
  created_at = now;
  published_at = none;
}

-- _queue_job_for_publish
unfoldable pub queued_message : ℕ → Option OutboxMessage → OutboxMessage
queued_message now none = new_message now
queued_message now (some message) = record message {
  status = OutboxStatus.pending;
  published_at = none;
  last_error = none;
}

-- The job when it is over.
abbrev pub end_job : ℕ → ProcessingStatus → Option String → Job → Job
end_job now status error job = record job {
  status = status;
  worker_id = none;
  heartbeat_at = none;
  next_run_at = none;
  finished_at = some now;
  error = error;
}

abbrev pub or_kept {ℓ} : {A : Type ℓ} → Option A → Option A → Option A
or_kept none old = old
or_kept (some a) old = some a

unfoldable pub succeeded : ℕ → Option String → Rendition → Rendition
succeeded now output_path r = record r {
  status = done;
  completed_at = some now;
  error = none;
  output_path = or_kept output_path r.output_path;
  job = end_job now done none r.job;
}

unfoldable pub skipped_for : ℕ → String → Rendition → Rendition
skipped_for now reason r = record r {
  status = skipped;
  completed_at = some now;
  error = some reason;
  output_path = none;
  job = end_job now done (some reason) r.job;
}

-- The attempt is lost, and another one follows.
unfoldable pub retried : List ℕ → ℕ → String → Rendition → Rendition
retried backoffs now error r = record r {
  status = pending;
  error = some error;
  job = record (end_job now pending (some error) r.job) {
    next_run_at = some (now + retry_backoff_for_attempt backoffs r.job.attempt_count);
    outbox_message = some (queued_message now r.job.outbox_message);
  };
}

-- The last attempt is lost.
unfoldable pub given_up : ℕ → String → Rendition → Rendition
given_up now error r = record r {
  status = failed;
  error = some error;
  job = end_job now failed (some error) r.job;
}

unfoldable pub should_retry : Job → Bool
should_retry job = ltb job.attempt_count job.max_attempts

-- The transaction raises with the publishing of the playlist, and is undone.
abbrev pub publishing {ℓ} : {A : Type ℓ} → A → Video → Outcome Video → Outcome A × Video
publishing a before (raises e) = (raises e, before)
publishing a before (returns video) = (returns a, video)

abbrev pub apply_source_metadata : Option SourceMetadata → Video → Video
apply_source_metadata metadata video = record video {
  source_metadata = or_kept metadata video.source_metadata;
}

module _ (accepts : String → String → Bool) where
  abbrev pub publish {ℓ} : {A : Type ℓ} → A → Video → Video → Outcome A × Video
  publish a before video = publishing a before (publish_master_playlist_if_ready accepts video)

  unfoldable pub mark_encoding_job_succeeded :
      ℕ → String → Option String → Option SourceMetadata → Video → Rendition → Outcome Bool × Video
  mark_encoding_job_succeeded now worker_id output_path metadata video r =
      if not (owns_running_job r.job worker_id)
      then (returns false, video)
      else publish true video
          (with_rendition (succeeded now output_path r) (apply_source_metadata metadata video))

  unfoldable pub mark_encoding_job_skipped :
      ℕ → String → String → Option SourceMetadata → Video → Rendition → Outcome Bool × Video
  mark_encoding_job_skipped now worker_id reason metadata video r =
      if not (owns_running_job r.job worker_id)
      then (returns false, video)
      else publish true video
          (with_rendition (skipped_for now reason r) (apply_source_metadata metadata video))

  -- `none` if the worker does not have the job, and otherwise whether the job is tried again.
  unfoldable pub mark_encoding_job_failed :
      List ℕ → ℕ → String → String → Video → Rendition → Outcome (Option Bool) × Video
  mark_encoding_job_failed backoffs now worker_id error video r =
      if not (owns_running_job r.job worker_id)
      then (returns none, video)
      else if should_retry r.job
      then (returns (some true), with_rendition (retried backoffs now error r) video)
      else publish (some false) video (with_rendition (given_up now error r) video)

-- The body of the loop of `reap_stale_encoding_jobs`; no playlist is published.
unfoldable pub reap_job : List ℕ → ℕ → Video → Rendition → Video
reap_job backoffs now video r =
    with_rendition
      (if should_retry r.job
        then retried backoffs now "encoding job heartbeat timed out" r
        else given_up now "encoding job heartbeat timed out" r)
      video
