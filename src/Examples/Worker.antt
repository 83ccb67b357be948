-- ===== src/Examples/Worker.antt =====
-- The worker: a message whose job is encoded, with a heartbeat in between.
use rendition.Common.{false, none, some, List, [], ◌∷◌, refl}
use rendition.Service.{Job}
use rendition.Service.Jobs.{
  EncodingJobContext, claim_encoding_job, heartbeat_encoding_job, is_claimable, has_passed,
  has_exhausted_attempts, mark_job_running, build_encoding_context, owns_running_job,
  with_rendition,
}
use rendition.Service.Jobs.Database.{with_job}
use rendition.Service.Jobs.Steps.{Event, heartbeat, step, run}
use rendition.Service.Worker.{EncodingJobMessage, Processed, result, process_encoding_message}
use rendition.Service.Worker.Settling.{Settled, worker_settles}
use rendition.Examples.Service.{accept_all, waiting_db, claimed_job, context}

abbrev encoded : EncodingJobContext → Processed
encoded c = result (record {
  output_path = some "hls/v/144p/index.m3u8";
  source_metadata = none;
  skipped_reason = none;
})

abbrev beating : List Event
beating = heartbeat 15 "j" "a" ∷ []

abbrev message : EncodingJobMessage
message = record { job_id = "j"; video_id = "v"; rendition_id = "r" }

abbrev beaten_job : Job
beaten_job = record claimed_job { heartbeat_at = some 15 }

worker_settles_example : Settled (30 ∷ []) 20 false "j" beaten_job (encoded context) (
    process_encoding_message accept_all
      (30 ∷ [])
      encoded
      beating
      false
      10
      20
      message
      "a"
      waiting_db)
unfolding with_job claim_encoding_job is_claimable has_passed has_exhausted_attempts
    mark_job_running build_encoding_context heartbeat_encoding_job owns_running_job with_rendition
    step run
worker_settles_example =
    worker_settles accept_all (30 ∷ []) encoded beating false 10 20 message "a" waiting_db context
      beaten_job refl refl refl refl
