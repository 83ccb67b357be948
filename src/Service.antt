-- ===== src/Service.antt =====
-- core/models and core/models/enums.py: the rows of the service's database that jobs, renditions, videos and
-- uploads are kept in, as the relationships of the classes join them. A rendition has one job, the one that
-- `_create_renditions_and_jobs` makes for it (`uq_jobs_rendition_id`), a job has at most one message
-- (`uq_outbox_messages_job_id`), so a message goes by the id of its job. Times are seconds.
pub mod Schemas
pub mod Status
pub mod Playback
pub mod Jobs
pub mod Storage
pub mod Uploads
pub mod Worker
use rendition.Common.{ℕ, String, Option, none, some, List, map}
use rendition.Api.{ProcessingStatus}

pub data OutboxStatus : Type 0 where
  pending published : OutboxStatus

pub record OutboxMessage : Type 0 where
  pub exchange : String
  pub routing_key : String
  pub status : OutboxStatus
  pub attempt_count : ℕ
  pub last_error : Option String
  pub created_at : ℕ
  pub published_at : Option ℕ

pub record Job : Type 0 where
  pub id : String
  pub status : ProcessingStatus
  pub error : Option String
  pub attempt_count : ℕ
  pub max_attempts : ℕ
  pub worker_id : Option String
  pub started_at : Option ℕ
  pub finished_at : Option ℕ
  pub heartbeat_at : Option ℕ
  pub next_run_at : Option ℕ
  pub outbox_message : Option OutboxMessage

pub record Rendition : Type 0 where
  pub id : String
  pub resolution : String
  pub bitrate : ℕ
  pub status : ProcessingStatus
  pub output_path : Option String
  pub error : Option String
  pub completed_at : Option ℕ
  pub job : Job

-- VideoSourceMetadata in core/encoding/probe.py; the duration in milliseconds
pub record SourceMetadata : Type 0 where
  pub width : ℕ
  pub height : ℕ
  pub bitrate : Option ℕ
  pub duration : Option ℕ

pub data UploadStatus : Type 0 where
  active completed aborted failed : UploadStatus

-- `create_video_upload` makes the one session of its video.
pub record UploadSession : Type 0 where
  pub bucket : String
  pub object_key : String
  pub object_upload_id : String
  pub filename : String
  pub content_type : String
  pub size_bytes : ℕ
  pub part_count : ℕ
  pub status : UploadStatus
  pub error : Option String
  pub completed_at : Option ℕ
  pub aborted_at : Option ℕ

pub record Video : Type 0 where
  pub id : String
  pub source : String
  pub source_bucket : Option String
  pub source_filename : Option String
  pub source_content_type : Option String
  pub source_size_bytes : Option ℕ
  pub uploaded_at : Option ℕ
  pub upload_session : Option UploadSession
  pub source_metadata : Option SourceMetadata
  pub playback_path : Option String
  pub status : ProcessingStatus
  pub renditions : List Rendition

-- What a function raises, or returns.
pub data Outcome {ℓ} (A : Type ℓ) : Type ℓ where
  raises : String → Outcome A
  returns : A → Outcome A

unfoldable pub statuses : List Rendition → List ProcessingStatus
statuses = map (λ r. r.status)
