-- ===== src/Service/Worker.antt =====
-- worker/processor.py, lines 47-57 and 265-361: what a worker does with the message of a job. The processor,
-- which runs ffmpeg, is an argument, as are the transactions that run while it works, the worker's own
-- heartbeats among them, and whether the heartbeat has found the job lost by then.
pub mod Settling
use rendition.Common.{ℕ, String, Bool, true, false, Option, none, some, List, if◌then◌else◌}
use rendition.Service.{SourceMetadata, Video, Outcome, raises, returns}
use rendition.Service.Jobs.{EncodingJobContext, claim_encoding_job}
use rendition.Service.Jobs.Finishing.{
  mark_encoding_job_succeeded, mark_encoding_job_skipped, mark_encoding_job_failed,
}
use rendition.Service.Jobs.Database.{with_job}
use rendition.Service.Jobs.Steps.{Event, run}

pub data WorkerMessageAction : Type 0 where
  ack requeue reject : WorkerMessageAction

pub record EncodingProcessorResult : Type 0 where
  pub output_path : Option String
  pub source_metadata : Option SourceMetadata
  pub skipped_reason : Option String

pub record EncodingJobMessage : Type 0 where
  pub job_id : String
  pub video_id : String
  pub rendition_id : String

-- How `processor.process` ends: it returns, raises `EncodingJobOwnershipLost`, or raises something else.
pub data Processed : Type 0 where
  result : EncodingProcessorResult → Processed
  ownership_lost : Processed
  exception : String → Processed

abbrev pub map_outcome {ℓ κ} : {A : Type ℓ} {B : Type κ} → (A → B) → Outcome A → Outcome B
map_outcome f (raises e) = raises e
map_outcome f (returns a) = returns (f a)

-- `should_retry` is none if the worker does not have the job any more.
abbrev pub failure_action : Option Bool → WorkerMessageAction
failure_action none = WorkerMessageAction.ack
failure_action (some should_retry) =
    if should_retry then WorkerMessageAction.ack else WorkerMessageAction.reject

abbrev pub acting :
    {A : Type 0}
    → (A → WorkerMessageAction)
    → Outcome A × List Video
    → Outcome WorkerMessageAction × List Video
acting f p = (map_outcome f p.0, p.1)

module _ (accepts : String → String → Bool) (backoffs : List ℕ) where
  -- The transaction behind the heartbeat, with the reason to skip.
  unfoldable pub report_result :
      ℕ
      → EncodingJobContext
      → EncodingProcessorResult
      → Option String
      → List Video
      → Outcome Bool × List Video
  report_result now context r none db =
      with_job context.job_id
        (mark_encoding_job_succeeded accepts now context.worker_id r.output_path r.source_metadata)
        db
  report_result now context r (some reason) db =
      with_job context.job_id
        (mark_encoding_job_skipped accepts now context.worker_id reason r.source_metadata) db

  -- From the end of `processor.process` on.
  unfoldable pub after_process :
      ℕ
      → EncodingJobContext
      → Bool
      → Processed
      → List Video
      → Outcome WorkerMessageAction × List Video
  after_process now context lost ownership_lost db = (returns WorkerMessageAction.ack, db)
  after_process now context lost (exception error) db = acting failure_action (
      with_job context.job_id
        (mark_encoding_job_failed accepts backoffs now context.worker_id error) db)
  after_process now context lost (result r) db =
      if lost
      then (returns WorkerMessageAction.ack, db)
      else acting (λ _. WorkerMessageAction.ack) (report_result now context r r.skipped_reason db)

  module _ (process : EncodingJobContext → Processed) (meanwhile : List Event) (lost : Bool)
      (now later : ℕ) where
    -- With what the claim has returned.
    unfoldable pub after_claim :
        Outcome (Option EncodingJobContext) → List Video → Outcome WorkerMessageAction × List Video
    after_claim (raises error) db = (returns WorkerMessageAction.reject, db)
    after_claim (returns none) db = (returns WorkerMessageAction.ack, db)
    after_claim (returns (some context)) db =
        after_process later context lost (process context) (run accepts backoffs meanwhile db).1

    unfoldable pub process_encoding_message :
        EncodingJobMessage → String → List Video → Outcome WorkerMessageAction × List Video
    process_encoding_message message worker_id db =
        let claim =
          with_job message.job_id
            (claim_encoding_job now message.video_id message.rendition_id worker_id) db in
        after_claim claim.0 claim.1
