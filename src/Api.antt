-- ===== src/Api.antt =====
-- The bodies that frontend/src/components/uploads/api.ts exchanges with the service (lines 1-63), and
-- its helpers in the children: `Http` reads answers, `Requests` builds the calls.
pub mod Http
pub mod Requests
use rendition.Common.{ℕ, String, Bool, Option, List}

pub record MultipartUploadPart : Type 0 where
  pub part_number : ℕ
  pub upload_url : String

pub record VideoCreateResponse : Type 0 where
  pub video_id : String
  pub bucket : String
  pub key : String
  pub upload_id : String
  pub parts : List MultipartUploadPart

pub record UploadConfigResponse : Type 0 where
  pub max_size_bytes : ℕ
  pub max_part_count : ℕ
  pub part_size_bytes : ℕ
  pub allowed_content_types : List String

-- VideoState["status"]
pub data ProcessingStatus : Type 0 where
  uploading uploaded pending running partial done skipped failed : ProcessingStatus

pub ProcessingStatus-discrete : Discrete ProcessingStatus
ProcessingStatus-discrete = hlevel

-- The text of a status in a body.
unfoldable pub status_text : ProcessingStatus → String
status_text uploading = "uploading"
status_text uploaded = "uploaded"
status_text pending = "pending"
status_text running = "running"
status_text partial = "partial"
status_text done = "done"
status_text skipped = "skipped"
status_text failed = "failed"

pub record Rendition : Type 0 where
  pub resolution : String
  pub status : ProcessingStatus

pub record VideoState : Type 0 where
  pub video_id : String
  pub status : ProcessingStatus
  pub renditions : List Rendition

pub record VideoListItem : Type 0 where
  pub video_id : String
  pub title : String
  pub uploaded_at : Option String
  pub created_at : String
  pub status : ProcessingStatus
  pub size_bytes : Option ℕ
  pub renditions : List Rendition

-- `type` of the stream is the literal "hls".
pub record Streaming : Type 0 where
  pub master_playlist_url : String
  pub expires_at : Option String

pub record VideoPlayback : Type 0 where
  pub video_id : String
  pub status : ProcessingStatus
  pub playable : Bool
  pub streaming : Streaming
  pub renditions : List Rendition

-- What the client sends back for a part that the storage has taken.
pub record CompletedPart : Type 0 where
  pub part_number : ℕ
  pub etag : String
