-- ===== src/Video/Detail.antt =====
-- frontend/src/components/video/video-detail.tsx: the state of `VideoDetail`, its loads and polls, and what
-- it shows. A load is awaited in `awaits`, and an answer names its place; `done` is one that has ended.
pub mod Polling
pub mod Asking
use Prim.Native.String.{◌++◌ as append}
use rendition.Common.{
  ℕ, String, Bool, true, false, not, ◌&&◌, Option, none, some, List, [], ◌∷◌, ◌++◌, get_elem?, set,
  if◌then◌else◌, is_some,
}
use rendition.Common.Text.{show}
use rendition.Api.{ProcessingStatus, VideoState, VideoPlayback, Rendition}
use rendition.Api.Http.{Failure, error, abort_error, Result, ok, err}
use rendition.Api.Requests.{Request, get_video_state, get_video_playback}
use rendition.Uploads.{VideoStatus, processing, failed, RenditionProgress}
use rendition.Uploads.StatusCell.{Badge, status_badge}
use rendition.Uploads.Utils.{rendition_progress_from_renditions}

unfoldable pub is_playable : ProcessingStatus → Bool
is_playable ProcessingStatus.done = true
is_playable _ = false

unfoldable pub map_status : ProcessingStatus → VideoStatus
map_status ProcessingStatus.done = VideoStatus.done
map_status ProcessingStatus.skipped = VideoStatus.done
map_status ProcessingStatus.failed = failed
map_status _ = processing

unfoldable pub should_show_rendition_progress : ProcessingStatus → Bool
should_show_rendition_progress ProcessingStatus.pending = true
should_show_rendition_progress ProcessingStatus.running = true
should_show_rendition_progress ProcessingStatus.partial = true
should_show_rendition_progress _ = false

-- Who called `loadVideo`: the first effect, the interval, or the button, which catches nothing.
pub data Origin : Type 0 where
  first interval button : Origin

pub data Await : Type 0 where
  state : Origin → Await
  playback : Origin → Await
  reload : Await
  done : Await

pub data Notice : Type 0 where
  toast : String → String → Notice
  unhandled : Failure → Notice

pub record Detail : Type 0 where
  pub video_id : String
  pub video_state : Option VideoState
  pub current_playback : Option VideoPlayback
  pub is_loading : Bool
  pub is_mounted : Bool
  pub awaits : List Await
  pub calls : List Request
  pub notices : List Notice

abbrev pub ask : Request → Await → Detail → Detail
ask r a s = record s { calls = r ∷ s.calls; awaits = s.awaits ++ a ∷ [] }

-- loadVideo, up to its first `await`
unfoldable pub load_video : Origin → Detail → Detail
load_video origin s = ask (get_video_state s.video_id) (state origin) s

-- The page is mounted: the first effect loads.
unfoldable pub mount : String → Detail
mount video_id = load_video first (record {
  video_id = video_id;
  video_state = none;
  current_playback = none;
  is_loading = true;
  is_mounted = true;
  awaits = [];
  calls = [];
  notices = [];
})

abbrev message : Failure → String
message (error m) = m
message abort_error = "upload aborted"

abbrev notify : Notice → Detail → Detail
notify n s = record s { notices = n ∷ s.notices }

-- The end of a call of `loadVideo`, for each caller.
unfoldable pub succeeded : Origin → Detail → Detail
succeeded first s = if s.is_mounted then record s { is_loading = false } else s
succeeded interval s = s
succeeded button s = s

unfoldable pub failed_with : Origin → Failure → Detail → Detail
failed_with first e s =
    if s.is_mounted
    then record (notify (toast "Video unavailable" (message e)) s) { is_loading = false }
    else s
failed_with interval e s = notify (toast "Video status unavailable" (message e)) s
failed_with button e s = notify (unhandled e) s

-- loadVideo behind `getVideoState`
unfoldable pub state_answered : Origin → Result VideoState → Detail → Detail
state_answered origin (err e) s = failed_with origin e s
state_answered origin (ok next) s =
    let s' = record s { video_state = some next } in
    if is_playable next.status
    then ask (get_video_playback s.video_id) (playback origin) s'
    else succeeded origin s'

-- loadPlayback behind `getVideoPlayback`, and the caller of `loadVideo`
unfoldable pub playback_answered : Origin → Result VideoPlayback → Detail → Detail
playback_answered origin (err e) s = failed_with origin e s
playback_answered origin (ok next) s = succeeded origin (record s { current_playback = some next })

-- reloadPlayback
unfoldable pub reload_playback : Detail → Detail
reload_playback s = ask (get_video_playback s.video_id) reload s

unfoldable pub reload_answered : Result VideoPlayback → Detail → Detail
reload_answered (ok next) s = record s { current_playback = some next }
reload_answered (err e) s = notify (toast "Playback refresh failed" (message e)) s

-- The interval runs while a state is known that is not playable.
unfoldable pub polls : Option VideoState → Bool
polls none = false
polls (some video_state) = not (is_playable video_state.status)

pub data Event : Type 0 where
  tick refresh_clicked player_reloads unmounted : Event
  state_reply : ℕ → Result VideoState → Event
  playback_reply : ℕ → Result VideoPlayback → Event

abbrev pub settle : ℕ → Detail → Detail
settle i s = record s { awaits = set s.awaits i done }

unfoldable pub at_await : Event → Option Await → Detail → Detail
at_await (state_reply i reply) (some (state origin)) s = state_answered origin reply (settle i s)
at_await (playback_reply i reply) (some (playback origin)) s =
    playback_answered origin reply (settle i s)
at_await (playback_reply i reply) (some reload) s = reload_answered reply (settle i s)
at_await _ _ s = s

-- The button and the player exclude one another: the one is there without a playback, the other with.
unfoldable pub step : Event → Detail → Detail
step tick s = if s.is_mounted && polls s.video_state then load_video interval s else s
step refresh_clicked s =
    if s.is_mounted && (not (is_some s.current_playback) && not s.is_loading)
    then load_video button s
    else s
step player_reloads s = if s.is_mounted && is_some s.current_playback then reload_playback s else s
step unmounted s = record s { is_mounted = false }
step (state_reply i reply) s = at_await (state_reply i reply) (get_elem? s.awaits i) s
step (playback_reply i reply) s = at_await (playback_reply i reply) (get_elem? s.awaits i) s

unfoldable pub run : List Event → Detail → Detail
run [] s = s
run (ev ∷ evs) s = run evs (step ev s)

-- What the header says of the status, and what the frame holds: the player with its source and title, or
-- a notice and a button that may be disabled.
pub data Header : Type 0 where
  no_state : Header
  progress_label : String → Header
  badge : Badge → Header

pub data Frame : Type 0 where
  player : String → String → Frame
  waiting : String → Bool → Frame

unfoldable pub rendition_progress_label : List Rendition → String
rendition_progress_label renditions =
    let p = rendition_progress_from_renditions renditions in
    append (show p.completed) (append "/" (append (show p.total) " renditions done"))

pub record View : Type 0 where
  pub title : String
  pub header : Header
  pub frame : Frame

abbrev title_of : Option VideoState → String
title_of none = "Video"
title_of (some s) = append "Video " s.video_id

abbrev header_of : Option VideoState → Header
header_of none = no_state
header_of (some s) =
    if should_show_rendition_progress s.status
    then progress_label (rendition_progress_label s.renditions)
    else badge (status_badge (map_status s.status))

abbrev frame_of : Option VideoPlayback → String → Bool → Frame
frame_of (some p) title is_loading = player p.streaming.master_playlist_url title
frame_of none title is_loading =
    waiting (if is_loading then "Loading video..." else "Video is not playable yet") is_loading

unfoldable pub video_detail : Detail → View
video_detail s = record {
  title = title_of s.video_state;
  header = header_of s.video_state;
  frame = frame_of s.current_playback (title_of s.video_state) s.is_loading;
}
