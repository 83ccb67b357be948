-- ===== src/Examples/Service.antt =====
-- The service: an upload of two parts that becomes six renditions, and their jobs.
use rendition.Common.{
  ◌≢◌, false, ◌+◌, ◌≤◌, String, Bool, true, none, some, List, [], ◌∷◌, ◌≡◌, refl, string_eq,
}
use rendition.Api.{ProcessingStatus, pending, running, done, skipped, failed}
use rendition.Service.{Job, Rendition, Video, returns}
use rendition.Service.Status.{derive_video_status}
use rendition.Service.Status.Counts.{by_counts, derive_by_counts}
use rendition.Service.Jobs.Database.{with_job}
use rendition.Service.Jobs.Steps.{
  Event, claim, heartbeat, succeed, skip, fail, reap, claimed, updated, failed_with, step, run,
}
use rendition.Service.Jobs.{
  EncodingJobContext, claim_encoding_job, is_claimable, has_passed, has_exhausted_attempts,
  mark_job_running, build_encoding_context,
}
use rendition.Service.Jobs.Histories.{Pairwise}
use rendition.Service.Jobs.Stages.{VideoMoves, run_refines_moves}
use rendition.Service.Jobs.Attempts.{attempts_left, handed_out, run_hands_out}
use rendition.Service.Jobs.Outbox.{Publisher, is_publishable, publish_pending_outbox_messages}
use rendition.Service.Jobs.Delivery.{delivered}
use rendition.Service.Jobs.Delivery.Due.{publish_delivers}
use rendition.Service.Jobs.Finishing.{queued_message}
use rendition.Service.Jobs.Owners.{job_at, run_excludes_others, claim-owner}

derive_by_counts_example : derive_video_status (done ∷ failed ∷ skipped ∷ []) ≡ by_counts 3 1 1 1 0
unfolding derive_video_status
derive_by_counts_example = derive_by_counts (done ∷ failed ∷ skipped ∷ [])

abbrev waiting_job : Job
waiting_job = record {
  id = "j";
  status = pending;
  error = none;
  attempt_count = 0;
  max_attempts = 2;
  worker_id = none;
  started_at = none;
  finished_at = none;
  heartbeat_at = none;
  next_run_at = none;
  outbox_message = none;
}

abbrev row_of : Job → ProcessingStatus → Rendition
row_of job status = record {
  id = "r";
  resolution = "144p";
  bitrate = 150000;
  status = status;
  output_path = none;
  error = none;
  completed_at = none;
  job = job;
}

abbrev video_of : ProcessingStatus → List Rendition → Video
video_of status renditions = record {
  id = "v";
  source = "source/v/clip.mp4";
  source_bucket = none;
  source_filename = none;
  source_content_type = none;
  source_size_bytes = none;
  uploaded_at = none;
  upload_session = none;
  source_metadata = none;
  playback_path = none;
  status = status;
  renditions = renditions;
}

abbrev pub waiting_db : List Video
waiting_db = video_of pending (row_of waiting_job pending ∷ []) ∷ []

-- The job is claimed, its worker falls silent, it is reaped and claimed again, and its worker skips it.
abbrev silent_worker : List Event
silent_worker =
    claim 10 "j" "v" "r" "a"
    ∷ reap 500 400 100
    ∷ claim 600 "j" "v" "r" "b"
    ∷ heartbeat 650 "j" "a"
    ∷ succeed 660 "j" "a" (some "hls/v/144p/index.m3u8") none
    ∷ skip 700 "j" "b" "no reason" none
    ∷ []

abbrev pub accept_all : String → String → Bool
accept_all key body = true

run_refines_moves_example :
    Pairwise VideoMoves waiting_db (run accept_all (30 ∷ []) silent_worker waiting_db).1
run_refines_moves_example = run_refines_moves accept_all (30 ∷ []) silent_worker waiting_db

run_hands_out_example :
    handed_out (run accept_all (30 ∷ []) silent_worker waiting_db).0
      + attempts_left (run accept_all (30 ∷ []) silent_worker waiting_db).1
    ≤ 2
run_hands_out_example = run_hands_out accept_all (30 ∷ []) silent_worker waiting_db

-- The job after the first claim.
abbrev pub claimed_job : Job
claimed_job = record waiting_job {
  status = running;
  worker_id = some "a";
  attempt_count = 1;
  started_at = some 10;
  heartbeat_at = some 10;
}

abbrev claimed_db : List Video
claimed_db = video_of running (row_of claimed_job running ∷ []) ∷ []

second_worker_waits :
    (step accept_all (30 ∷ []) (claim 20 "j" "v" "r" "b") claimed_db).0 ≡ claimed (returns none)
unfolding step with_job claim_encoding_job is_claimable
second_worker_waits = refl

run_excludes_others_example :
    ((claimer : String)
      → ((context : EncodingJobContext)
          → (step accept_all (30 ∷ []) (claim 20 "j" "v" "r" claimer) claimed_db).0
            ≢ claimed (returns (some context)))
        × ((step accept_all (30 ∷ []) (claim 20 "j" "v" "r" claimer) claimed_db).1 ≡ claimed_db))
    × (step accept_all (30 ∷ []) (heartbeat 20 "j" "b") claimed_db
        ≡ (updated (returns false), claimed_db))
    × (step accept_all (30 ∷ []) (succeed 20 "j" "b" none none) claimed_db
        ≡ (updated (returns false), claimed_db))
    × (step accept_all (30 ∷ []) (skip 20 "j" "b" "late" none) claimed_db
        ≡ (updated (returns false), claimed_db))
    × (step accept_all (30 ∷ []) (fail 20 "j" "b" "late") claimed_db
        ≡ (failed_with (returns none), claimed_db))
run_excludes_others_example =
    run_excludes_others accept_all (30 ∷ []) claimed_db "j" "a" claimed_job refl refl refl 20 "v"
      "r" "b" "late" none none refl

abbrev pub context : EncodingJobContext
context = record {
  job_id = "j";
  video_id = "v";
  rendition_id = "r";
  source = "source/v/clip.mp4";
  source_bucket = none;
  source_filename = none;
  resolution = "144p";
  bitrate = 150000;
  attempt_count = 1;
  max_attempts = 2;
  worker_id = "a";
}

claim-owner_example :
    (job : Job) × (job_at "j" (step accept_all (30 ∷ []) (claim 10 "j" "v" "r" "a") waiting_db).1
      ≡ some job)
    × (job.status ≡ running)
    × (job.worker_id ≡ some "a")
    × (job.attempt_count ≡ 1)
    × (1 ≤ 2)
unfolding step with_job claim_encoding_job is_claimable has_passed has_exhausted_attempts
    mark_job_running build_encoding_context
claim-owner_example = claim-owner accept_all (30 ∷ []) 10 "j" "v" "r" "a" waiting_db context refl

abbrev queued_job : Job
unfolding queued_message
queued_job = record waiting_job { outbox_message = some (queued_message 5 none) }

abbrev queued_db : List Video
queued_db = video_of pending (row_of queued_job pending ∷ []) ∷ []

abbrev open_broker : Publisher
open_broker = record { opens = none; publishes = λ _. none; closes = none }

publish_delivers_example :
    job_at "j" (publish_pending_outbox_messages 10 open_broker 100 (some ("j" ∷ [])) queued_db).1
    ≡ some (delivered 10 queued_job)
unfolding is_publishable is_claimable has_passed queued_message
publish_delivers_example =
    publish_delivers 10 open_broker 100 (some ("j" ∷ [])) queued_db "j" queued_job refl refl refl
      refl refl refl
