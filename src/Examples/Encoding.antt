-- ===== src/Examples/Encoding.antt =====
-- The service as a whole: a source of two parts is uploaded and becomes six renditions.
use rendition.Common.{
  ℕ, ◌+◌, ◌*◌, String, Bool, true, false, Option, none, some, List, [], ◌∷◌, ◌++◌, ◌≡◌, refl, All,
  get_elem?, or_else,
}
use rendition.Api.{done, skipped, CompletedPart}
use rendition.Service.{
  UploadStatus, UploadSession, Job, Rendition, Video, Outcome, raises, returns, statuses,
  OutboxMessage,
}
use rendition.Service.Storage.{range}
use rendition.Service.Status.{derive_video_status, is_empty}
use rendition.Service.Playback.{completed_renditions, get_video_playback, playback_of}
use rendition.Service.Jobs.Steps.{claim, succeed, skip}
use rendition.Service.Jobs.Finishing.{new_message}
use rendition.Service.Jobs.Rows.{IsConsistent}
use rendition.Service.Uploads.{
  Completing, get_active_upload_session, validate_completed_upload_parts, complete_video_upload,
}
use rendition.Service.Uploads.Steps as Uploads
use rendition.Service.Uploads.Steps.{Source, abort_video_upload, new_session, new_video}
use rendition.Service.Uploads.Whole.{service-IsConsistent, service_plays}
use rendition.Service.Uploads.Failures.{IsStuck, storage_failure-IsStuck}

-- The whole service: the source is uploaded, five renditions do not apply, and the smallest is encoded.
abbrev accept_all : String → String → Bool
accept_all key body = true

abbrev id_texts : List String
id_texts = "0" ∷ "1" ∷ "2" ∷ "3" ∷ "4" ∷ "5" ∷ "6" ∷ "7" ∷ "8" ∷ "9" ∷ "10" ∷ "11" ∷ []

abbrev new_id : ℕ → String
new_id n = or_else (get_elem? id_texts n) ""

abbrev presign : ℕ → Option String
presign n = some "https://storage/part"

abbrev stored : Completing
stored = record {
  completes = true;
  metadata = returns (some (record { content_length = 5; content_type = some "video/mp4" }));
  deletes = true;
}

abbrev source : Source
source = record {
  filename = "clip.mp4";
  content_type = "video/mp4";
  size_bytes = 5;
  part_count = 2;
}

abbrev sent_parts : List CompletedPart
sent_parts = record { part_number = 1; etag = "e1" } ∷ record { part_number = 2; etag = "e2" } ∷ []

abbrev skips_job : ℕ → List Uploads.Event
skips_job k =
    Uploads.job (claim 10 (new_id (2 * k + 1)) "v" (new_id (2 * k)) "w")
    ∷ Uploads.job (skip 20 (new_id (2 * k + 1)) "w" "not applicable" none)
    ∷ []

abbrev whole_story : List Uploads.Event
whole_story =
    Uploads.create "v" presign (some "u") source
      ∷ Uploads.complete 5 new_id 1 stored "v" sent_parts
      ∷ skips_job 0
    ++ skips_job 1
    ++ skips_job 2
    ++ skips_job 3
    ++ skips_job 4
    ++ (Uploads.job (claim 10 "11" "v" "10" "w")
        ∷ Uploads.job (succeed 30 "11" "w" (some "hls/v/144p/index.m3u8") none)
        ∷ [])

abbrev last_db : List Video
last_db = Uploads.run accept_all (30 ∷ []) "videos" whole_story []

abbrev ended_at : Option String → ℕ
ended_at none = 30
ended_at (some error) = 20

abbrev done_job : String → Option String → Job
done_job job_id error = record {
  id = job_id;
  status = done;
  error = error;
  attempt_count = 1;
  max_attempts = 1;
  worker_id = none;
  started_at = some 10;
  finished_at = some (ended_at error);
  heartbeat_at = none;
  next_run_at = none;
  outbox_message = some (new_message 5);
}

abbrev skipped_row : String → String → String → ℕ → Rendition
skipped_row id job_id resolution bitrate = record {
  id = id;
  resolution = resolution;
  bitrate = bitrate;
  status = skipped;
  output_path = none;
  error = some "not applicable";
  completed_at = some 20;
  job = done_job job_id (some "not applicable");
}

abbrev encoded_row : Rendition
encoded_row = record {
  id = "10";
  resolution = "144p";
  bitrate = 150000;
  status = done;
  output_path = some "hls/v/144p/index.m3u8";
  error = none;
  completed_at = some 30;
  job = done_job "11" none;
}

abbrev uploaded_video : Video
uploaded_video = new_video "v" "videos" "source/v/clip.mp4" "u" source

abbrev session : UploadSession
session = new_session "videos" "source/v/clip.mp4" "u" source

abbrev finished_video : Video
finished_video = record uploaded_video {
  uploaded_at = some 5;
  upload_session = some (record session { status = UploadStatus.completed; completed_at = some 5 });
  playback_path = some "hls/v/master.m3u8";
  status = done;
  renditions =
      skipped_row "0" "1" "1080p" 5000000
      ∷ skipped_row "2" "3" "720p" 2800000
      ∷ skipped_row "4" "5" "480p" 1200000
      ∷ skipped_row "6" "7" "360p" 800000
      ∷ skipped_row "8" "9" "240p" 400000
      ∷ encoded_row
      ∷ [];
}

ends_finished : get_elem? last_db 0 ≡ some finished_video
unfolding rendition.Service.statuses rendition.Service.Jobs.build_encoding_context
    rendition.Service.Jobs.claim_encoding_job rendition.Service.Jobs.has_exhausted_attempts
    rendition.Service.Jobs.has_passed rendition.Service.Jobs.heartbeat_encoding_job
    rendition.Service.Jobs.is_claimable rendition.Service.Jobs.mark_job_attempts_exhausted
    rendition.Service.Jobs.mark_job_running rendition.Service.Jobs.owns_running_job
    rendition.Service.Jobs.with_rendition rendition.Service.Jobs.Finishing.given_up
    rendition.Service.Jobs.Finishing.mark_encoding_job_failed
    rendition.Service.Jobs.Finishing.mark_encoding_job_skipped
    rendition.Service.Jobs.Finishing.mark_encoding_job_succeeded
    rendition.Service.Jobs.Finishing.queued_message rendition.Service.Jobs.Finishing.reap_job
    rendition.Service.Jobs.Finishing.retried
    rendition.Service.Jobs.Finishing.retry_backoff_for_attempt
    rendition.Service.Jobs.Finishing.should_retry rendition.Service.Jobs.Finishing.skipped_for
    rendition.Service.Jobs.Finishing.succeeded rendition.Service.Jobs.Steps.is_stale
    rendition.Service.Jobs.Steps.reap_jobs rendition.Service.Jobs.Steps.reap_stale_encoding_jobs
    rendition.Service.Jobs.Steps.run rendition.Service.Jobs.Steps.stale_jobs
    rendition.Service.Jobs.Steps.step rendition.Service.Jobs.Database.with_job
    rendition.Service.Playback.build_hls_master_key
    rendition.Service.Playback.build_hls_master_playlist
    rendition.Service.Playback.completed_renditions rendition.Service.Playback.get_video_playback
    rendition.Service.Playback.has_active_renditions rendition.Service.Playback.is_active
    rendition.Service.Playback.playlist_uri
    rendition.Service.Playback.publish_master_playlist_if_ready
    rendition.Service.Playback.rendition_lines rendition.Service.Playback.validate_playable_video
    rendition.Service.Playback.Presets.get_hls_preset
    rendition.Service.Playback.Presets.is_hls_preset_applicable
    rendition.Service.Status.derive_video_status rendition.Service.Storage.build_source_key
    rendition.Service.Storage.is_key_part rendition.Service.Storage.range
    rendition.Service.Storage.refresh_multipart_upload_urls rendition.Service.Storage.signed_parts
    rendition.Service.Uploads.complete_video_upload
    rendition.Service.Uploads.create_renditions_and_jobs
    rendition.Service.Uploads.get_active_upload_session rendition.Service.Uploads.get_video_state
    rendition.Service.Uploads.new_renditions rendition.Service.Uploads.upload_completed
    rendition.Service.Uploads.validate_completed_upload_metadata
    rendition.Service.Uploads.validate_completed_upload_parts
    rendition.Service.Uploads.Steps.abort_video_upload
    rendition.Service.Uploads.Steps.create_video_upload
    rendition.Service.Uploads.Steps.refresh_video_upload rendition.Service.Uploads.Steps.run
    rendition.Service.Uploads.Steps.step rendition.Service.Uploads.Steps.with_video
ends_finished = refl

service-IsConsistent_example :
    All IsConsistent finished_video.renditions
    × (done ≡ derive_video_status (statuses finished_video.renditions))
service-IsConsistent_example =
    service-IsConsistent accept_all (30 ∷ []) "videos" whole_story 0 finished_video ends_finished
      refl

service_plays_example :
    get_video_playback (λ path. true) "https://api/master" none finished_video
    ≡ returns (playback_of "https://api/master" none finished_video)
unfolding completed_renditions
service_plays_example =
    service_plays accept_all (30 ∷ []) "videos" whole_story 0 finished_video (λ path. true)
      "https://api/master" none (λ path. refl) ends_finished refl refl

abbrev broken : Completing
broken = record { completes = false; metadata = returns none; deletes = true }

storage_failure-IsStuck_example :
    IsStuck (complete_video_upload 5 new_id 1 broken sent_parts uploaded_video).1
    × IsStuck (abort_video_upload 5 false uploaded_video).1
unfolding get_active_upload_session validate_completed_upload_parts range
storage_failure-IsStuck_example =
    storage_failure-IsStuck 5 new_id 1 broken sent_parts session uploaded_video refl refl refl
