-- ===== src/Uploads.antt =====
-- The upload dashboard, frontend/src/components/uploads: the rows that it shows (types.ts) and, in the
-- children, its helpers, the multipart upload of one file, and the dashboard, table and dropzone.
pub mod Utils
pub mod Multipart
pub mod Dashboard
pub mod StatusCell
pub mod Table
pub mod Dropzone
use rendition.Common.{ℕ, String, Bool, Option}

pub data VideoStatus : Type 0 where
  uploading upload_failed pending processing partial done failed : VideoStatus

pub VideoStatus-discrete : Discrete VideoStatus
VideoStatus-discrete = hlevel

pub record RenditionProgress : Type 0 where
  pub completed : ℕ
  pub total : ℕ

-- A missing `canRetry` or `canCancel` is read as false wherever the code reads it.
pub record UploadedVideo : Type 0 where
  pub id : String
  pub video_id : Option String
  pub title : String
  pub uploaded_at : String
  pub status : VideoStatus
  pub size : String
  pub progress : ℕ
  pub rendition_progress : Option RenditionProgress
  pub can_retry : Bool
  pub can_cancel : Bool
