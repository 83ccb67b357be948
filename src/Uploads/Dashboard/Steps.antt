-- ===== src/Uploads/Dashboard/Steps.antt =====
-- frontend/src/components/uploads/upload-dashboard.tsx, lines 86-181 and 257-281: the effects of the
-- dashboard, the answers that it awaits, and its handlers, one step for each event.
use rendition.Common.{
  ℕ, String, Bool, false, not, Option, none, some, List, [], ◌∷◌, ◌==◌, string_eq, if◌then◌else◌,
  get_elem?, set, map, filter, any,
}
use rendition.Common.Maps.{get, put}
use rendition.Api.{UploadConfigResponse, VideoListItem, VideoState}
use rendition.Api.Http.{Result, ok, err}
use rendition.Api.Requests.{get_upload_config}
use rendition.Uploads.{UploadedVideo}
use rendition.Uploads.Utils.{rendition_progress_from_renditions}
use rendition.Uploads.Multipart.{File, Options, Controller, present}
use rendition.Uploads.Multipart.Steps as Upload
use rendition.Uploads.Dashboard.{
  Browser, failure, info, warning, Await, loading_config, loading_videos, polling, answered,
  Dashboard, to_uploaded_video, map_video_status, progress_for_video_status, toast, message, ask,
  load_videos, poll_video_states, step_controller, handle_file,
}

-- The two effects of the first render that ask the service.
unfoldable pub mount : Dashboard → Dashboard
mount d = load_videos false (ask (get_upload_config ∷ []) loading_config d)

unfoldable pub config_answered : Result UploadConfigResponse → Dashboard → Dashboard
config_answered (ok config) d = record d { upload_config = some config }
config_answered (err e) d = toast failure "Upload limits unavailable" (some (message e)) d

-- The `try` and the `catch` of `loadVideos`, behind `listVideos`.
unfoldable pub show_response : Browser → Result (List VideoListItem) → Dashboard → Dashboard
show_response b (ok response) d = record d {
  videos = map (to_uploaded_video b.format_date) response;
}
show_response b (err e) d = toast failure "Videos unavailable" (some (message e)) d

-- loadVideos behind `listVideos`, its `finally` and the poll that may follow
unfoldable pub videos_answered :
    Browser → Bool → Result (List VideoListItem) → Dashboard → Dashboard
videos_answered b then_poll reply d =
    let d' = record (show_response b reply d) { is_loading_videos = false } in
    if then_poll then poll_video_states d' else d'

-- new Map(states.map((state) => [state.video_id, state]))
unfoldable pub states_by_video_id :
    List VideoState → List (String × VideoState) → List (String × VideoState)
states_by_video_id [] m = m
states_by_video_id (state ∷ states) m = states_by_video_id states (put state.video_id state m)

-- The callback of `current.map`.
unfoldable pub with_state : List (String × VideoState) → UploadedVideo → UploadedVideo
with_state states video = elim (present video.video_id) [
  | none ↦ video
  | some id ↦ elim (get id states) [
    | none ↦ video
    | some state ↦ record video {
      status = map_video_status state.status;
      progress = progress_for_video_status state.status;
      rendition_progress = some (rendition_progress_from_renditions state.renditions);
    }
  ]
]

unfoldable pub states_answered : Result (List VideoState) → Dashboard → Dashboard
states_answered (ok states) d = record d {
  videos = map (with_state (states_by_video_id states [])) d.videos;
}
states_answered (err e) d = toast failure "Video statuses unavailable" (some (message e)) d

-- A row's controller, if the map of the ref has it.
unfoldable pub registered : String → Dashboard → Option (Options × Controller)
registered id d = if any (λ i. i == id) d.upload_controllers then get id d.store else none

unfoldable pub handle_retry_upload : String → Dashboard → Dashboard
handle_retry_upload row_id d = elim (registered row_id d) [
  | none ↦ d
  | some (o, c) ↦
      step_controller row_id Upload.retry_failed_parts
        (toast info "Retrying upload" (some c.row.title) d)
]

unfoldable pub handle_cancel_upload : String → Dashboard → Dashboard
handle_cancel_upload row_id d = elim (registered row_id d) [
  | none ↦ d
  | some (o, c) ↦
      let d' = step_controller row_id Upload.cancel d in
      toast warning "Upload cancelled" (some c.row.title) (record d' {
        upload_controllers = filter (λ id. not (id == row_id)) d'.upload_controllers;
        upload_rows = filter (λ (r : UploadedVideo). not (r.id == row_id)) d'.upload_rows;
      })
]

-- The clean-up of the first effect: every registered upload is cancelled.
unfoldable pub unmount : List String → Dashboard → Dashboard
unmount [] d = d
unmount (id ∷ ids) d = unmount ids (step_controller id Upload.cancel d)

pub data Event : Type 0 where
  mounted : Event
  rendered : Event
  tick : Event
  config_reply : ℕ → Result UploadConfigResponse → Event
  videos_reply : ℕ → Result (List VideoListItem) → Event
  states_reply : ℕ → Result (List VideoState) → Event
  dragging : Bool → Event
  file_chosen : String → Option File → Event
  retry_clicked : String → Event
  cancel_clicked : String → Event
  upload : String → Upload.Event → Event
  unmounted : Event

abbrev pub settle : ℕ → Dashboard → Dashboard
settle i d = record d { awaits = set d.awaits i answered }

-- An answer at the place that it names, if it is awaited there.
unfoldable pub at_await : Browser → Event → Option Await → Dashboard → Dashboard
at_await b (config_reply i reply) (some loading_config) d = config_answered reply (settle i d)
at_await b (videos_reply i reply) (some (loading_videos then_poll)) d =
    videos_answered b then_poll reply (settle i d)
at_await b (states_reply i reply) (some (polling ids)) d = states_answered reply (settle i d)
at_await b _ _ d = d

unfoldable pub step : Browser → Event → Dashboard → Dashboard
step b mounted d = mount d
step b rendered d = record d { videos_ref = d.videos }
step b tick d = poll_video_states d
step b (dragging is_dragging) d = record d { is_dragging = is_dragging }
step b (file_chosen row_id file) d = handle_file b row_id file d
step b (retry_clicked row_id) d = handle_retry_upload row_id d
step b (cancel_clicked row_id) d = handle_cancel_upload row_id d
step b (upload row_id ev) d = step_controller row_id ev d
step b unmounted d = unmount d.upload_controllers d
step b (config_reply i reply) d = at_await b (config_reply i reply) (get_elem? d.awaits i) d
step b (videos_reply i reply) d = at_await b (videos_reply i reply) (get_elem? d.awaits i) d
step b (states_reply i reply) d = at_await b (states_reply i reply) (get_elem? d.awaits i) d

unfoldable pub run : Browser → List Event → Dashboard → Dashboard
run b [] d = d
run b (ev ∷ evs) d = run b evs (step b ev d)
