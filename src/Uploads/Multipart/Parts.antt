-- ===== src/Uploads/Multipart/Parts.antt =====
-- frontend/src/components/uploads/multipart-upload.ts, lines 43-114: parts of a file, content types,
-- statuses, and what one `XMLHttpRequest` reports. A file is its bytes; its size is their number.
use Prim.Native.String.{◌++◌ as append}
use rendition.Common.{
  ℕ, zero, suc, ◌+◌, ◌-◌, ◌*◌, ◌/◌, min, String, Bool, true, false, not, ◌&&◌, ◌||◌, Option, none,
  some, List, [], ◌∷◌, ltb, leb, ◌==◌, nat_eq, string_eq, if◌then◌else◌, length, take, drop,
}
use rendition.Common.Text.{show, codes, last_segment}
use rendition.Api.Http.{Failure, error, abort_error}
use rendition.Uploads.{VideoStatus, pending, processing, partial, done, failed}

pub record File : Type 0 where
  pub name : String
  pub type : String
  pub content : List ℕ

-- file.size
abbrev pub size : File → ℕ
size file = length file.content

-- getPartCount: `Math.ceil` of an exact quotient, for a positive part size.
unfoldable pub get_part_count : File → ℕ → ℕ
get_part_count file part_size_bytes = (size file + part_size_bytes - 1) / part_size_bytes

-- toLowerCase, as far as it makes letters of the alphabet: `A` to `Z`, and the Kelvin sign.
abbrev to_lower_case : ℕ → ℕ
to_lower_case c = if leb b'A' c && leb c b'Z' then c + 32 else if c == 0x212a then b'k' else c

same_lower_case : List ℕ → List ℕ → Bool
same_lower_case [] [] = true
same_lower_case (c ∷ cs) (d ∷ ds) = (to_lower_case c == d) && same_lower_case cs ds
same_lower_case _ _ = false

unfoldable pub normalize_content_type : File → String
unfolding same_lower_case
normalize_content_type file =
    let extension = last_segment b'.' (codes file.name) (codes file.name) in
    if not (file.type == "")
    then file.type
    else if same_lower_case extension (codes "mp4")
    then "video/mp4"
    else if same_lower_case extension (codes "mov")
    then "video/quicktime"
    else if same_lower_case extension (codes "mkv")
    then "video/x-matroska"
    else "application/octet-stream"

unfoldable pub map_video_status : String → VideoStatus
map_video_status status =
    if status == "running"
    then processing
    else if status == "partial"
    then partial
    else if status == "failed"
    then failed
    else if status == "done"
    then done
    else if status == "skipped"
    then done
    else pending

-- file.slice(start, end), for places that are not negative
abbrev pub slice : ℕ → ℕ → List ℕ → List ℕ
slice start end bytes = take (end - start) (drop start bytes)

-- Part 0 would start at a negative place and end at 0: it is empty.
unfoldable pub part_blob : File → ℕ → ℕ → List ℕ
part_blob file zero part_size_bytes = []
part_blob file (suc k) part_size_bytes =
    let start = k * part_size_bytes in
    slice start (min (start + part_size_bytes) (size file)) file.content

-- What the request of one part meets: upload progress, an answer with its status and "ETag" header, a
-- network error, an abort.
pub data XhrEvent : Type 0 where
  on_progress : Bool → ℕ → XhrEvent
  on_load : ℕ → Option String → XhrEvent
  on_error on_abort : XhrEvent

-- What `uploadPart` makes of it: `onProgress` is called, the promise is resolved behind a last such
-- call, it is rejected, or nothing.
pub data XhrOutcome : Type 0 where
  reports : ℕ → XhrOutcome
  resolves : ℕ → String → XhrOutcome
  rejects : Failure → XhrOutcome
  silent : XhrOutcome

unfoldable pub etag_outcome : ℕ → Option String → XhrOutcome
etag_outcome blob_size none = rejects (error "storage did not return an ETag")
etag_outcome blob_size (some etag) =
    if etag == "" then rejects (error "storage did not return an ETag") else resolves blob_size etag

unfoldable pub upload_part : ℕ → XhrEvent → XhrOutcome
unfolding etag_outcome
upload_part blob_size (on_progress length_computable loaded) =
    if length_computable then reports loaded else silent
upload_part blob_size (on_load status etag) =
    if ltb status 200 || leb 300 status
    then rejects (error (append "part upload failed with " (show status)))
    else etag_outcome blob_size etag
upload_part blob_size on_error = rejects (error "part upload failed")
upload_part blob_size on_abort = rejects abort_error
