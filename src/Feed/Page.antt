-- ===== src/Feed/Page.antt =====
-- frontend/src/components/feed/video-feed.tsx, lines 71-306: the state of `VideoFeed`, its loads, its
-- buttons and what it shows. The effect of `page` sets a timer that loads the page; a change of `page`
-- clears the timer that waits. `loads` are the calls of `loadVideos`, `none` where one is answered.
pub mod Paging
pub mod Selection
use rendition.Common.{
  ℕ, ◌+◌, ◌-◌, max, String, Bool, true, false, not, ◌&&◌, ◌||◌, Option, none, some, List, [], ◌∷◌,
  ◌++◌, map, filter, drop, length, get_elem?, set, ltb, ◌==◌, nat_eq, string_eq, if◌then◌else◌,
  is_some,
}
use Prim.Native.String.{◌++◌ as append}
use rendition.Api.{VideoListItem, ProcessingStatus}
use rendition.Api.Http.{Failure, error, abort_error, Result, ok, err}
use rendition.Api.Requests.{Request, list_videos}
use rendition.Feed.{FeedVideo}
use rendition.Feed.Cards.{to_feed_video, Card, video_card, up_next_list}

abbrev pub page_size : ℕ
page_size = 8

pub record Load : Type 0 where
  pub page : ℕ
  pub show_toast : Bool

pub data Notice : Type 0 where
  info : String → Notice
  failure : String → String → Notice

pub record Feed : Type 0 where
  pub selected_video : Option FeedVideo
  pub videos : List FeedVideo
  pub page : ℕ
  pub is_loading : Bool
  pub timer : Option ℕ
  pub loads : List (Option Load)
  pub calls : List Request
  pub notices : List Notice
  pub visited : List String

abbrev pub initial : Feed
initial = record {
  selected_video = none;
  videos = [];
  page = 1;
  is_loading = true;
  timer = some 1;
  loads = [];
  calls = [];
  notices = [];
  visited = [];
}

unfoldable pub side_videos : Feed → List FeedVideo
side_videos s = elim s.selected_video [
  | none ↦ drop 1 s.videos
  | some selected ↦ filter (λ (video : FeedVideo). not (video.id == selected.id)) s.videos
]

abbrev pub can_go_next : Feed → Bool
can_go_next s = length s.videos == page_size

abbrev pub page_request : ℕ → Request
page_request page =
    list_videos
      (some (record { page = some page; page_size = some 8; status = some ProcessingStatus.done }))

-- loadVideos, up to its `await`
unfoldable pub load_videos : ℕ → Bool → Feed → Feed
load_videos next_page show_toast s = record s {
  is_loading = true;
  loads = s.loads ++ some (record { page = next_page; show_toast = show_toast }) ∷ [];
  calls = page_request next_page ∷ s.calls;
}

abbrev message : Failure → String
message (error m) = m
message abort_error = "upload aborted"

abbrev notice : Notice → Feed → Feed
notice n s = record s { notices = n ∷ s.notices }

-- loadVideos behind `listVideos`, with its `finally`
unfoldable pub videos_answered :
    (String → String) → Load → Result (List VideoListItem) → Feed → Feed
videos_answered format_date load (ok response) s =
    let shown = record s {
      videos = map (to_feed_video format_date) response;
      selected_video = none;
      is_loading = false;
    } in
    if load.show_toast then notice (info "Feed refreshed") shown else shown
videos_answered format_date load (err e) s =
    notice (failure "Videos unavailable" (message e)) (record s { is_loading = false })

-- setPage: another page sets the timer anew.
unfoldable pub set_page : ℕ → Feed → Feed
set_page page s = if page == s.page then s else record s { page = page; timer = some page }

abbrev pub previous_disabled : Feed → Bool
previous_disabled s = (s.page == 1) || s.is_loading

abbrev pub next_disabled : Feed → Bool
next_disabled s = not (can_go_next s) || s.is_loading

pub data View : Type 0 where
  player : FeedVideo → List Card → View
  skeleton : View
  grid : List Card → ℕ → Bool → Bool → View
  empty : View

unfoldable pub video_feed : Feed → View
video_feed s = elim s.selected_video [
  | some video ↦ player video (up_next_list (side_videos s))
  | none ↦
      if s.is_loading
      then skeleton
      else if ltb 0 (length s.videos)
      then grid (map video_card s.videos) s.page (previous_disabled s) (next_disabled s)
      else empty
]

-- What the user can do depends on what is shown.
abbrev pub shows_grid : View → Bool
shows_grid (grid cards page p n) = true
shows_grid (player video cards) = false
shows_grid skeleton = false
shows_grid empty = false

abbrev pub shows_player : View → Bool
shows_player (player video cards) = true
shows_player (grid cards page p n) = false
shows_player skeleton = false
shows_player empty = false

pub data Event : Type 0 where
  timer_fired : Event
  answered : ℕ → Result (List VideoListItem) → Event
  refresh_clicked previous_clicked next_clicked back_clicked : Event
  card_clicked : FeedVideo → Event
  up_next_clicked : FeedVideo → Event

abbrev flatten_load : Option (Option Load) → Option Load
flatten_load none = none
flatten_load (some l) = l

unfoldable pub answer :
    (String → String) → ℕ → Result (List VideoListItem) → Option Load → Feed → Feed
answer format_date i reply none s = s
answer format_date i reply (some load) s =
    videos_answered format_date load reply (record s { loads = set s.loads i none })

unfoldable pub step : (String → String) → Event → Feed → Feed
step format_date timer_fired s = elim s.timer [
  | none ↦ s
  | some page ↦ load_videos page false (record s { timer = none })
]
step format_date (answered i reply) s =
    answer format_date i reply (flatten_load (get_elem? s.loads i)) s
step format_date refresh_clicked s = if s.is_loading then s else load_videos s.page true s
step format_date previous_clicked s =
    if shows_grid (video_feed s) && not (previous_disabled s)
    then set_page (max 1 (s.page - 1)) s
    else s
step format_date next_clicked s =
    if shows_grid (video_feed s) && not (next_disabled s) then set_page (s.page + 1) s else s
step format_date back_clicked s =
    if shows_player (video_feed s) then record s { selected_video = none } else s
step format_date (card_clicked video) s =
    if shows_grid (video_feed s)
    then record s { visited = append "/videos/" video.id ∷ s.visited }
    else s
step format_date (up_next_clicked video) s =
    if shows_player (video_feed s) then record s { selected_video = some video } else s

unfoldable pub run : (String → String) → List Event → Feed → Feed
run format_date [] s = s
run format_date (ev ∷ evs) s = run format_date evs (step format_date ev s)
