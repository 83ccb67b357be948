-- ===== src/Uploads/Dashboard/Polls.antt =====
-- frontend/src/components/uploads/upload-dashboard.tsx, lines 38-69 and 127-163: what a poll makes of the
-- rows of the listed videos; and the two maps from the service's statuses to those of a row, here and in
-- frontend/src/components/uploads/multipart-upload.ts, lines 55-62.
use rendition.Common.{
  String, Bool, true, false, if◌then◌else◌, Option, none, some, List, [], ◌∷◌, ◌≡◌, refl, ◌∙◌, ap,
  ap₂, All, map, string_eq, ◌==◌,
}
use rendition.Common.Maps.{get, put, get-put}
use rendition.Api.{ProcessingStatus, status_text, VideoListItem, VideoState}
use rendition.Api.Http.{ok}
use rendition.Uploads.Utils.{rendition_progress_from_renditions}
use rendition.Uploads.Multipart as Upload
use rendition.Uploads.Multipart.{present}
use rendition.Uploads.Dashboard.{
  Dashboard, to_uploaded_video, map_video_status, progress_for_video_status,
}
use rendition.Uploads.Dashboard.Steps.{states_by_video_id, with_state, states_answered}

-- Both components show a status of the service as the same status of a row.
pub map_video_status-same :
    (s : ProcessingStatus) → map_video_status s ≡ Upload.map_video_status (status_text s)
unfolding map_video_status Upload.map_video_status status_text
map_video_status-same ProcessingStatus.uploading = refl
map_video_status-same ProcessingStatus.uploaded = refl
map_video_status-same ProcessingStatus.pending = refl
map_video_status-same ProcessingStatus.running = refl
map_video_status-same ProcessingStatus.partial = refl
map_video_status-same ProcessingStatus.done = refl
map_video_status-same ProcessingStatus.skipped = refl
map_video_status-same ProcessingStatus.failed = refl

-- The last of the answers about a video.
abbrev pub last_state : String → List VideoState → Option VideoState
last_state id [] = none
last_state id (state ∷ states) = elim (last_state id states) [
  | none ↦ if state.video_id == id then some state else none
  | some later ↦ some later
]

abbrev or_before : Option VideoState → Option VideoState → Option VideoState
or_before none before = before
or_before (some later) before = some later

get-states_by_video_id :
    (id : String) (states : List VideoState) (m : List (String × VideoState))
    → get id (states_by_video_id states m) ≡ or_before (last_state id states) (get id m)
unfolding states_by_video_id
get-states_by_video_id id [] m = refl
get-states_by_video_id id (state ∷ states) m =
    get-states_by_video_id id states (put state.video_id state m)
    ∙ ap (or_before (last_state id states)) (get-put state.video_id id state m)
    ∙ joined (last_state id states) (state.video_id == id)
  where
    joined :
        (later : Option VideoState) (same : Bool)
        → or_before later (if same then some state else get id m)
          ≡ or_before
              (elim later [ none ↦ if same then some state else none | some l ↦ some l ])
              (get id m)
    joined none true = refl
    joined none false = refl
    joined (some l) same = refl

or_before-none : (o : Option VideoState) → or_before o none ≡ o
or_before-none none = refl
or_before-none (some l) = refl

-- The listed video with the status and the renditions of the last answer about it, if there is one.
abbrev pub refreshed : List VideoState → VideoListItem → VideoListItem
refreshed states video = elim (last_state video.video_id states) [
  | none ↦ video
  | some state ↦ record video { status = state.status; renditions = state.renditions }
]

with_answer :
    (f : String → String) (video : VideoListItem) (answer : Option VideoState)
    → elim answer [
      | none ↦ to_uploaded_video f video
      | some state ↦ record (to_uploaded_video f video) {
        status = map_video_status state.status;
        progress = progress_for_video_status state.status;
        rendition_progress = some (rendition_progress_from_renditions state.renditions);
      }
    ]
      ≡ to_uploaded_video f (elim answer [
        | none ↦ video
        | some state ↦ record video { status = state.status; renditions = state.renditions }
      ])
unfolding to_uploaded_video
with_answer f video none = refl
with_answer f video (some state) = refl

with_state-listed :
    (f : String → String) (states : List VideoState) (video : VideoListItem)
    → (video.video_id == "") ≡ false
    → with_state (states_by_video_id states []) (to_uploaded_video f video)
      ≡ to_uploaded_video f (refreshed states video)
unfolding with_state to_uploaded_video
with_state-listed f states video named =
    let found : get video.video_id (states_by_video_id states [])
        ≡ last_state video.video_id states =
      get-states_by_video_id video.video_id states [] ∙ or_before-none _ in
    rw (named, with_state, found) (with_answer f video (last_state video.video_id states))

with_states-listed :
    (f : String → String) (states : List VideoState) (videos : List VideoListItem)
    → All (λ (v : VideoListItem). (v.video_id == "") ≡ false) videos
    → map (with_state (states_by_video_id states [])) (map (to_uploaded_video f) videos)
      ≡ map (to_uploaded_video f) (map (refreshed states) videos)
with_states-listed f states [] h = refl
with_states-listed f states (v ∷ vs) h =
    ap₂ ◌∷◌ (with_state-listed f states v h.0) (with_states-listed f states vs h.1)

-- When the dashboard shows listed videos whose ids are not empty, then the answers of a poll, whatever they
-- are, change its rows to just those of the list in which each video that has been answered has the status and
-- the renditions of the last answer about it: the order, the ids, the titles, the dates and the sizes stay.
pub states_answered-refreshed :
    (f : String → String) (states : List VideoState) (videos : List VideoListItem) (d : Dashboard)
    → All (λ (v : VideoListItem). (v.video_id == "") ≡ false) videos
    → d.videos ≡ map (to_uploaded_video f) videos
    → (states_answered (ok states) d).videos
      ≡ map (to_uploaded_video f) (map (refreshed states) videos)
unfolding states_answered
states_answered-refreshed f states videos d h e =
    ap (map (with_state (states_by_video_id states []))) e ∙ with_states-listed f states videos h
