-- ===== src/Uploads/Dashboard.antt =====
-- frontend/src/components/uploads/upload-dashboard.tsx, lines 70-281: the state of `UploadDashboard`, its
-- effects and handlers. `store` is every controller that exists, by its row's id; `upload_controllers` is
-- the map of the ref, which holds some of them. What is awaited is a list; an answer names its place.
-- React runs an effect behind a later render: `videos_ref` follows `videos` by the step `rendered`.
mod Listing
pub mod Steps
pub mod Checks
pub mod Polls
pub mod Kept
pub mod Registered
pub mod Cancelling
pub mod Leaving
pub use Listing.*
unfoldable pub use Listing.{
  to_uploaded_video, map_video_status, progress_for_video_status, is_pollable_status,
}
use Prim.Native.String.{◌++◌ as append}
use rendition.Common.{
  ℕ, zero, suc, ◌+◌, ◌-◌, ◌*◌, ◌/◌, String, Bool, true, false, not, ◌&&◌, ◌||◌, Option, none, some,
  List, [], ◌∷◌, ◌++◌, ltb, ◌==◌, nat_eq, string_eq, if◌then◌else◌, length, get_elem?, set, map,
  filter, any, is_some,
}
use rendition.Common.Maps.{get, put}
use rendition.Common.Text.{show}
use rendition.Api.{UploadConfigResponse, VideoListItem, VideoState}
use rendition.Api.Http.{Failure, error, abort_error, Result, ok, err}
use rendition.Api.Requests.{Request, list_videos, get_video_state}
use rendition.Uploads.{UploadedVideo}
use rendition.Uploads.Utils.{format_bytes, rendition_progress_from_renditions}
use rendition.Uploads.Multipart.{
  File, size, normalize_content_type, get_part_count, Options, Controller, Output, change, call,
  throws, create_multipart_upload_controller, present,
}
use rendition.Uploads.Multipart.Steps.{Event, start, retry_failed_parts, cancel, step}

-- The browser: its date format, and its floating-point percentages.
pub record Browser : Type 0 where
  pub format_date : String → String
  pub percent : ℕ → ℕ → ℕ

pub data ToastKind : Type 0 where
  failure success info warning : ToastKind

pub record Toast : Type 0 where
  pub kind : ToastKind
  pub title : String
  pub description : Option String

-- `loading_videos` says whether a poll follows.
pub data Await : Type 0 where
  loading_config : Await
  loading_videos : Bool → Await
  polling : List String → Await
  answered : Await

pub record Dashboard : Type 0 where
  pub store : List (String × (Options × Controller))
  pub upload_controllers : List String
  pub videos_ref : List UploadedVideo
  pub is_dragging : Bool
  pub upload_rows : List UploadedVideo
  pub videos : List UploadedVideo
  pub upload_config : Option UploadConfigResponse
  pub is_loading_videos : Bool
  pub awaits : List Await
  pub calls : List Request
  pub toasts : List Toast

abbrev pub initial : Dashboard
initial = record {
  store = [];
  upload_controllers = [];
  videos_ref = [];
  is_dragging = false;
  upload_rows = [];
  videos = [];
  upload_config = none;
  is_loading_videos = true;
  awaits = [];
  calls = [];
  toasts = [];
}

-- `new Set(uploadRows.map((row) => row.videoId).filter(Boolean))`
unfoldable pub active_video_ids : List UploadedVideo → List String
active_video_ids [] = []
active_video_ids (row ∷ rows) = elim (present row.video_id) [
  | none ↦ active_video_ids rows
  | some v ↦ v ∷ active_video_ids rows
]

abbrev pub has_id : List String → Option String → Bool
has_id ids none = false
has_id ids (some v) = any (λ i. i == v) ids

unfoldable pub table_videos : Dashboard → List UploadedVideo
table_videos d =
    d.upload_rows
    ++ filter
        (λ (video : UploadedVideo). not (has_id (active_video_ids d.upload_rows) video.video_id))
        d.videos

abbrev pub toast : ToastKind → String → Option String → Dashboard → Dashboard
toast kind title description d = record d {
  toasts = record { kind = kind; title = title; description = description } ∷ d.toasts;
}

-- `error instanceof Error ? error.message : …`: all that is thrown is an `Error`.
abbrev pub message : Failure → String
message (error m) = m
message abort_error = "upload aborted"

abbrev logged : List Request → List Request → List Request
logged [] calls = calls
logged (r ∷ rs) calls = logged rs (r ∷ calls)

-- The dashboard calls the service, once or several times at once, and awaits the answer.
abbrev pub ask : List Request → Await → Dashboard → Dashboard
ask rs x d = record d { awaits = d.awaits ++ x ∷ []; calls = logged rs d.calls }

unfoldable pub load_videos : Bool → Dashboard → Dashboard
load_videos then_poll d =
    ask (list_videos none ∷ []) (loading_videos then_poll) (record d { is_loading_videos = true })

abbrev pub pollable : UploadedVideo → Bool
pollable video = is_some (present video.video_id) && is_pollable_status video.status

abbrev pub ids_of : List UploadedVideo → List String
ids_of [] = []
ids_of (video ∷ videos) = elim video.video_id [ none ↦ ids_of videos | some v ↦ v ∷ ids_of videos ]

unfoldable pub poll_video_states : Dashboard → Dashboard
poll_video_states d =
    let pollable_videos = filter pollable d.videos_ref in
    let ids = ids_of pollable_videos in
    if length pollable_videos == 0 then d else ask (map get_video_state ids) (polling ids) d

-- updateUploadRow, the `onChange` of the controllers
unfoldable pub update_upload_row : UploadedVideo → Dashboard → Dashboard
update_upload_row row d =
    if not row.can_cancel && not row.can_retry
    then load_videos true (record d {
      upload_controllers = filter (λ id. not (id == row.id)) d.upload_controllers;
      upload_rows = filter (λ (r : UploadedVideo). not (r.id == row.id)) d.upload_rows;
    })
    else record d {
      upload_rows = map (λ (r : UploadedVideo). if r.id == row.id then row else r) d.upload_rows;
    }

-- The `catch` of `start` and of `retryFailedParts`.
abbrev pub report : ℕ → Failure → Dashboard → Dashboard
report i abort_error d = d
report i (error m) d = toast failure (if i == 0 then "Upload failed" else "Retry failed") (some m) d

unfoldable pub deliver : Output → Dashboard → Dashboard
deliver (change row) d = update_upload_row row d
deliver (call r) d = record d { calls = r ∷ d.calls }
deliver (throws i e) d = report i e d

-- The newest `n` outputs, oldest first, are delivered.
unfoldable pub deliver_newest : ℕ → List Output → Dashboard → Dashboard
deliver_newest zero xs d = d
deliver_newest (suc n) [] d = d
deliver_newest (suc n) (x ∷ xs) d = deliver x (deliver_newest n xs d)

-- A controller makes a step, and what it puts out reaches the dashboard.
unfoldable pub step_controller : String → Event → Dashboard → Dashboard
step_controller id ev d = elim (get id d.store) [
  | none ↦ d
  | some (o, c) ↦
      let c' = step o ev c in
      deliver_newest (length c'.log - length c.log) c'.log
        (record d { store = put id (o, c') d.store })
]

-- handleFile's checks: the toast that refuses the file, if one does.
unfoldable pub refusal : UploadConfigResponse → File → Option Toast
refusal config file =
    let content_type = normalize_content_type file in
    let part_count = (size file + config.part_size_bytes - 1) / config.part_size_bytes in
    if not (any (λ t. t == content_type) config.allowed_content_types)
    then some (record {
      kind = failure;
      title = "Unsupported video type";
      description = some content_type;
    })
    else if ltb config.max_size_bytes (size file)
    then some (record {
      kind = failure;
      title = "Video is too large";
      description = some (append "Maximum size is " (format_bytes config.max_size_bytes));
    })
    else if ltb config.max_part_count part_count
    then some (record {
      kind = failure;
      title = "Video has too many upload parts";
      description = some (append "Maximum part count is " (show config.max_part_count));
    })
    else none

unfoldable pub begin_upload : Browser → UploadConfigResponse → String → File → Dashboard → Dashboard
begin_upload b config row_id file d =
    let o : Options = record {
      file = file;
      upload_config = config;
      row_id = row_id;
      percent = b.percent;
    } in
    let controller = create_multipart_upload_controller o in
    step_controller row_id start (
      toast success "Upload started" (some file.name) (record d {
        store = put row_id (o, controller) d.store;
        upload_controllers = d.upload_controllers ++ row_id ∷ [];
        upload_rows = controller.row ∷ d.upload_rows;
      }))

-- `row_id` is the id that the new controller draws, another than all before.
unfoldable pub handle_file : Browser → String → Option File → Dashboard → Dashboard
handle_file b row_id none d = d
handle_file b row_id (some file) d = elim d.upload_config [
  | none ↦ toast failure "Upload limits are still loading" none d
  | some config ↦ elim (refusal config file) [
    | some t ↦ record d { toasts = t ∷ d.toasts }
    | none ↦ begin_upload b config row_id file d
  ]
]
