-- ===== src/Service/Worker/Settling.antt =====
-- worker/processor.py, lines 265-361: the end of a job whose worker has kept it.
use rendition.Common.{
  ℕ, String, Bool, true, false, Option, none, some, List, ◌≡◌, refl, ap, subst, sym, if◌then◌else◌,
}
use rendition.Api.{running, done}
use rendition.Service.{Job, Video, Outcome, raises, returns}
use rendition.Service.Jobs.{EncodingJobContext, claim_encoding_job}
use rendition.Service.Jobs.Finishing.{end_job, should_retry, mark_encoding_job_failed}
use rendition.Service.Jobs.Database.{with_job}
use rendition.Service.Jobs.Steps.{Event, run}
use rendition.Service.Jobs.Owners.{job_at}
use rendition.Service.Jobs.Reports.{Becomes, After, lost_attempt, owner_reports}
use rendition.Service.Worker.{
  WorkerMessageAction, EncodingProcessorResult, EncodingJobMessage, Processed, result,
  ownership_lost, exception, map_outcome, failure_action, acting, report_result, after_process,
  after_claim, process_encoding_message,
}

Becomes-map_outcome :
    {A : Type 0} (f : A → WorkerMessageAction) (job : Job) (a : A) (new : Job) (o : Outcome A)
    (job' : Job)
    → Becomes job a new o job'
    → Becomes job (f a) new (map_outcome f o) job'
Becomes-map_outcome f job a new (raises e) job' h = h
Becomes-map_outcome f job a new (returns b) job' h = (ap f h.0, h.1)

After-acting :
    {A : Type 0} (f : A → WorkerMessageAction) (job_id : String) (job : Job) (a : A) (new : Job)
    (p : Outcome A × List Video)
    → After job_id job a new p
    → After job_id job (f a) new (acting f p)
After-acting f job_id job a new p h = (h.0, h.1, Becomes-map_outcome f job a new p.0 h.0 h.2)

-- The reason to skip, if there is one, is the job's error. `lost` is what the heartbeat has found.
abbrev pub Settled :
    List ℕ → ℕ → Bool → String → Job → Processed → Outcome WorkerMessageAction × List Video → Type 0
Settled backoffs now lost job_id job ownership_lost p =
    After job_id job WorkerMessageAction.ack job p
Settled backoffs now lost job_id job (result r) p =
    After job_id job WorkerMessageAction.ack
      (if lost then job else end_job now done r.skipped_reason job) p
Settled backoffs now lost job_id job (exception error) p =
    After job_id job
      (if should_retry job then WorkerMessageAction.ack else WorkerMessageAction.reject)
      (lost_attempt backoffs now error job) p

module _ (accepts : String → String → Bool) (backoffs : List ℕ) (now : ℕ)
    (context : EncodingJobContext) (job : Job) (db : List Video)
    (found : job_at context.job_id db ≡ some job) (busy : job.status ≡ running)
    (owner : job.worker_id ≡ some context.worker_id) where
  reported :
      (r : EncodingProcessorResult) (skipped : Option String)
      → After context.job_id job true
          (end_job now done skipped job)
          (report_result accepts backoffs now context r skipped db)
  unfolding report_result
  reported r none =
      (owner_reports accepts backoffs db context.job_id context.worker_id job now r.output_path
        r.source_metadata "" found busy owner).0
  reported r (some reason) =
      (owner_reports accepts backoffs db context.job_id context.worker_id job now r.output_path
        r.source_metadata reason found busy owner).1

  settled :
      (lost : Bool) (o : Processed)
      → Settled backoffs now lost context.job_id job o
          (after_process accepts backoffs now context lost o db)
  unfolding after_process
  settled lost ownership_lost = (job, found, (refl, refl))
  settled lost (exception error) =
      After-acting failure_action context.job_id job (some (should_retry job))
        (lost_attempt backoffs now error job)
        (with_job context.job_id
          (mark_encoding_job_failed accepts backoffs now context.worker_id error) db)
        (owner_reports accepts backoffs db context.job_id context.worker_id job now none none error
          found busy owner).2
  settled true (result r) = (job, found, (refl, refl))
  settled false (result r) =
      After-acting (λ _. WorkerMessageAction.ack) context.job_id job true
        (end_job now done r.skipped_reason job)
        (report_result accepts backoffs now context r r.skipped_reason db)
        (reported r r.skipped_reason)

-- A worker that is handed out the job of a message, and has it still when the processor ends, leaves the job
-- so: if the processor has returned, as done, with the reason as its error if it was skipped, but as it was
-- if the heartbeat has found it lost; if the processor has raised, as waiting for its next attempt, or as
-- failed after the last; and if the processor has taken the job for lost, as it was. The message is rejected
-- just after the last attempt, and acknowledged otherwise. A report that raises leaves the job as it was.
pub worker_settles :
    (accepts : String → String → Bool) (backoffs : List ℕ)
    (process : EncodingJobContext → Processed) (meanwhile : List Event) (lost : Bool)
    (now later : ℕ) (message : EncodingJobMessage) (worker_id : String) (db : List Video)
    (context : EncodingJobContext) (job : Job)
    → (with_job message.job_id
        (claim_encoding_job now message.video_id message.rendition_id worker_id)
        db).0
      ≡ returns (some context)
    → job_at context.job_id
        (run accepts backoffs meanwhile
          (with_job message.job_id
            (claim_encoding_job now message.video_id message.rendition_id worker_id)
            db).1).1
      ≡ some job
    → job.status ≡ running
    → job.worker_id ≡ some context.worker_id
    → Settled backoffs later lost context.job_id job (process context) (
        process_encoding_message accepts backoffs process meanwhile lost now later message worker_id
          db)
unfolding process_encoding_message after_claim
worker_settles accepts backoffs process meanwhile lost now later message worker_id db context job
      claim found busy owner =
    let claimed =
      with_job message.job_id
        (claim_encoding_job now message.video_id message.rendition_id worker_id) db in
    subst
      (λ o.
        Settled backoffs later lost context.job_id job (process context)
          (after_claim accepts backoffs process meanwhile lost now later o claimed.1))
      (sym claim)
      (settled accepts backoffs later context job (run accepts backoffs meanwhile claimed.1).1 found
        busy owner lost (process context))
