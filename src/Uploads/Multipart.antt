-- ===== src/Uploads/Multipart.antt =====
-- frontend/src/components/uploads/multipart-upload.ts, lines 116-304: the controller of one upload. Its
-- closure's variables are the fields of `Controller`. Each call of `start` or `retryFailedParts` is a run,
-- which goes from one `await` to the next; an event is what a run waits for, or a call of a method.
-- The proofs are in the modules below.
mod Parts
pub mod Steps
pub mod Numbers
pub mod Tiling
pub mod Cases
pub mod Outputs
pub mod Rows
pub mod Completion
pub mod Cancel
pub mod Pools
pub mod Success
pub mod Progress
pub mod Retry
pub use Parts.*
unfoldable pub use Parts.{
  get_part_count, normalize_content_type, map_video_status, part_blob, etag_outcome, upload_part,
}
use Prim.Native.String.{◌++◌ as append}
use rendition.Common.{
  ℕ, zero, suc, ◌+◌, ◌-◌, min, String, Bool, true, false, not, ◌&&◌, ◌||◌, Option, none, some, List,
  [], ◌∷◌, ltb, ◌==◌, nat_eq, string_eq, if◌then◌else◌, length, get_elem?, set, take, map, filter,
  any, ◌++◌,
}
use rendition.Common.Maps.{put, values}
use rendition.Common.Sorting.{sort_by}
use rendition.Common.Sums.{sum}
use rendition.Common.Text.{show}
use rendition.Api.{
  MultipartUploadPart, VideoCreateResponse, UploadConfigResponse, VideoState, CompletedPart,
  status_text,
}
use rendition.Api.Requests.{Request, complete_video_upload}
use rendition.Api.Http.{Failure, error, abort_error, Result, ok, err}
use rendition.Uploads.{VideoStatus, uploading, upload_failed, UploadedVideo}
use rendition.Uploads.Utils.{format_bytes}

abbrev pub max_concurrent_part_uploads : ℕ
max_concurrent_part_uploads = 3

-- `row_id` is what `crypto.randomUUID()` gave, and `percent l s` what the floating-point
-- `Math.round((l / s) * 100)` gives.
pub record Options : Type 0 where
  pub file : File
  pub upload_config : UploadConfigResponse
  pub row_id : String
  pub percent : ℕ → ℕ → ℕ

abbrev pub part_count : Options → ℕ
part_count o = get_part_count o.file o.upload_config.part_size_bytes

-- A busy worker: its part, and the abort controller whose signal its request listens to.
pub record InFlight : Type 0 where
  pub part : MultipartUploadPart
  pub signal : ℕ

-- The locals of one call of `uploadMissingParts`. A worker that has returned or thrown is `none`;
-- `rejected` says that one has thrown, which settles the `Promise.all`.
pub record Pool : Type 0 where
  pub queue : List MultipartUploadPart
  pub next_index : ℕ
  pub workers : List (Option InFlight)
  pub rejected : Bool

-- What a run awaits.
pub data Phase : Type 0 where
  creating : Phase
  refreshing : Phase
  transferring : Pool → Phase
  completing : Phase
  settled : Phase

-- What the controller does to the outside: calls of `onChange`, calls of the service, and failures that
-- `start` (run 0) and `retryFailedParts` (the later runs) throw.
pub data Output : Type 0 where
  change : UploadedVideo → Output
  call : Request → Output
  throws : ℕ → Failure → Output

-- The abort controllers are numbered, and only the current one can be aborted. `log` is newest first.
pub record Controller : Type 0 where
  pub row : UploadedVideo
  pub completed_parts : List (ℕ × CompletedPart)
  pub part_progress : List (ℕ × ℕ)
  pub failed_part_numbers : List ℕ
  pub upload_parts : List MultipartUploadPart
  pub video_id : Option String
  pub status : VideoStatus
  pub signal : ℕ
  pub aborted : Bool
  pub runs : List Phase
  pub log : List Output

unfoldable pub create_multipart_upload_controller : Options → Controller
create_multipart_upload_controller o = record {
  row = record {
    id = o.row_id;
    video_id = none;
    title = o.file.name;
    uploaded_at = "Now";
    status = uploading;
    size = format_bytes (size o.file);
    progress = 0;
    rendition_progress = none;
    can_retry = false;
    can_cancel = true;
  };
  completed_parts = [];
  part_progress = [];
  failed_part_numbers = [];
  upload_parts = [];
  video_id = none;
  status = uploading;
  signal = 0;
  aborted = false;
  runs = [];
  log = [];
}

abbrev pub output : Output → Controller → Controller
output x c = record c { log = x ∷ c.log }

abbrev pub set_run : ℕ → Phase → Controller → Controller
set_run i phase c = record c { runs = set c.runs i phase }

abbrev pub is_uploading : VideoStatus → Bool
is_uploading s = elim s [ uploading ↦ true | _ ↦ false ]

abbrev pub is_upload_failed : VideoStatus → Bool
is_upload_failed s = elim s [ upload_failed ↦ true | _ ↦ false ]

abbrev pub loaded_bytes : Controller → ℕ
loaded_bytes c = sum (values c.part_progress)

abbrev pub progress_of : Options → ℕ → ℕ
progress_of o loaded = if size o.file == 0 then 0 else min 100 (o.percent loaded (size o.file))

-- `failedPartNumbers.size > 0`
abbrev pub has_failed : Controller → Bool
has_failed c = ltb 0 (length c.failed_part_numbers)

unfoldable pub emit : Options → Controller → Controller
emit o c =
    let row = record c.row {
      status = c.status;
      progress = progress_of o (loaded_bytes c);
      can_cancel = is_uploading c.status || is_upload_failed c.status;
      can_retry = is_upload_failed c.status && has_failed c;
    } in
    output (change row) (record c { row = row })

-- The `catch` of `start` and `retryFailedParts`.
unfoldable pub caught : Options → ℕ → Failure → Controller → Controller
caught o i e c =
    let c' = set_run i settled c in
    if c.aborted then c' else output (throws i e) (emit o (record c' { status = upload_failed }))

-- `!videoId` is true of the empty text too.
abbrev pub present : Option String → Option String
present none = none
present (some v) = if v == "" then none else some v

unfoldable pub complete_upload : Options → ℕ → Controller → Controller
complete_upload o i c = elim (present c.video_id) [
  | none ↦ set_run i settled c
  | some v ↦
      let parts = sort_by (λ (p : CompletedPart). p.part_number) (values c.completed_parts) in
      if not (length parts == part_count o)
      then caught o i (error "upload is missing completed parts") c
      else output (call (complete_video_upload v parts)) (set_run i completing c)
]

-- Behind the `await Promise.all` of `uploadMissingParts`, and on into the caller.
unfoldable pub join : Options → ℕ → Controller → Controller
join o i c =
    if has_failed c
    then caught o i (error (append (show (length c.failed_part_numbers)) " part upload failed")) c
    else complete_upload o i c

abbrev pub is_idle : Option InFlight → Bool
is_idle none = true
is_idle (some w) = false

abbrev pub all_idle : List (Option InFlight) → Bool
all_idle [] = true
all_idle (w ∷ ws) = is_idle w && all_idle ws

-- The pool is written back; if its last worker has returned and none has thrown, the run goes on.
unfoldable pub resume : Options → ℕ → Pool → Controller → Controller
resume o i pool c =
    let c' = set_run i (transferring pool) c in
    if all_idle pool.workers && not pool.rejected then join o i c' else c'

abbrev pub begin_worker : ℕ → MultipartUploadPart → Option InFlight
begin_worker signal part = some (record { part = part; signal = signal })

unfoldable pub upload_missing_parts :
    Options → ℕ → List MultipartUploadPart → Controller → Controller
upload_missing_parts o i parts c =
    let queue = sort_by (λ (p : MultipartUploadPart). p.part_number) parts in
    let n = min max_concurrent_part_uploads (length queue) in
    let pool : Pool = record {
      queue = queue;
      next_index = n;
      workers = map (begin_worker c.signal) (take n queue);
      rejected = false;
    } in
    resume o i pool (record c { failed_part_numbers = [] })

-- The next round of a worker's loop.
unfoldable pub next_part : ℕ → ℕ → Pool → Pool
next_part signal slot pool = elim (get_elem? pool.queue pool.next_index) [
  | none ↦ record pool { workers = set pool.workers slot none }
  | some part ↦ record pool {
    next_index = pool.next_index + 1;
    workers = set pool.workers slot (begin_worker signal part);
  }
]

-- failedPartNumbers.add(n)
abbrev pub add_failed : ℕ → List ℕ → List ℕ
add_failed n ns = if any (λ m. m == n) ns then ns else ns ++ n ∷ []
