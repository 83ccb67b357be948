-- ===== src/Service/Playback.antt =====
-- core/services/playback_service.py, lines 55-153, with core/encoding/master_playlist.py and the keys of
-- core/storage/keys.py: when a video can be played, and the playlist that its player loads.
pub mod Presets
use Prim.Native.String.{◌++◌ as append, len, slice}
use text.Mathlib.Text.{starts_with}
use rendition.Common.{
  String, Bool, true, false, not, ◌&&◌, ◌||◌, Option, none, some, List, [], ◌∷◌, ◌++◌, map, any,
  if◌then◌else◌, string_eq, ◌==◌,
}
use rendition.Common.Text.{show}
use rendition.Api.{ProcessingStatus, VideoPlayback}
use rendition.Service.{Rendition, Video, Outcome, raises, returns}
use rendition.Service.Status.{is_pending, is_running, is_done, is_empty}
use rendition.Service.Playback.Presets.{EncodingPreset, get_hls_preset}

pub record MasterPlaylistRendition : Type 0 where
  pub resolution : String
  pub output_path : String

unfoldable pub is_active : ProcessingStatus → Bool
is_active status = is_pending status || is_running status

unfoldable pub has_active_renditions : List Rendition → Bool
has_active_renditions renditions = any (λ (r : Rendition). is_active r.status) renditions

-- What a rendition that is done puts into the list.
abbrev pub completed_rendition : String → Bool → Option String → List MasterPlaylistRendition
completed_rendition resolution true (some path) =
    record { resolution = resolution; output_path = path } ∷ []
completed_rendition resolution _ _ = []

unfoldable pub completed_renditions : List Rendition → List MasterPlaylistRendition
completed_renditions [] = []
completed_renditions (r ∷ rs) =
    completed_rendition r.resolution (is_done r.status) r.output_path ++ completed_renditions rs

unfoldable pub build_hls_master_key : String → String
build_hls_master_key video_id = append "hls/" (append video_id "/master.m3u8")

unfoldable pub playlist_uri : String → String → Outcome String
playlist_uri video_id output_path =
    let prefix = append "hls/" (append video_id "/") in
    if not (starts_with output_path prefix)
    then raises "rendition output path is outside video HLS prefix"
    else returns (slice output_path (len prefix) (len output_path))

abbrev line : String → String
line text = append text "\n"

abbrev stream_line : EncodingPreset → String
stream_line preset = line (
    append "#EXT-X-STREAM-INF:BANDWIDTH=" (
      append (show preset.video_bitrate)
        (append ",RESOLUTION=" (append (show preset.width) (append "x" (show preset.height))))))

abbrev two_lines : String → String → Outcome String → Outcome String
two_lines stream uri (raises e) = raises e
two_lines stream uri (returns rest) = returns (append stream (append (line uri) rest))

abbrev then_lines : String → Outcome String → Outcome String → Outcome String
then_lines stream (raises e) rest = raises e
then_lines stream (returns uri) rest = two_lines stream uri rest

-- The two lines of each rendition.
unfoldable pub rendition_lines : String → List MasterPlaylistRendition → Outcome String
rendition_lines video_id [] = returns ""
rendition_lines video_id (r ∷ rs) =
    let rest = rendition_lines video_id rs in
    then_lines (stream_line (get_hls_preset r.resolution)) (playlist_uri video_id r.output_path)
      rest

abbrev under_head : Outcome String → Outcome String
under_head (raises e) = raises e
under_head (returns lines) = returns (append "#EXTM3U\n#EXT-X-VERSION:3\n" lines)

unfoldable pub build_hls_master_playlist : String → List MasterPlaylistRendition → Outcome String
build_hls_master_playlist video_id renditions =
    if is_empty renditions
    then raises "master playlist requires at least one rendition"
    else under_head (rendition_lines video_id renditions)

-- The upload of the playlist, once it is built; the storage takes a body under a key or raises.
abbrev pub upload_playlist : (String → String → Bool) → Outcome String → Video → Outcome Video
upload_playlist accepts (raises e) video = raises e
upload_playlist accepts (returns playlist) video =
    if accepts (build_hls_master_key video.id) playlist
    then returns (record video { playback_path = some (build_hls_master_key video.id) })
    else raises "failed to upload object"

unfoldable pub publish_master_playlist_if_ready : (String → String → Bool) → Video → Outcome Video
publish_master_playlist_if_ready accepts video =
    if has_active_renditions video.renditions
    then returns video
    else if is_empty (completed_renditions video.renditions)
    then returns (record video { playback_path = none })
    else upload_playlist accepts
        (build_hls_master_playlist video.id (completed_renditions video.renditions)) video

-- Raises, or returns the path.
unfoldable pub validate_playable_video : Video → Outcome String
validate_playable_video video =
    if not (is_done video.status)
    then raises "Video is not ready for playback"
    else elim video.playback_path [
      | none ↦ raises "Video playback playlist is not available"
      | some path ↦
          if is_empty (completed_renditions video.renditions)
          then raises "Video has no completed renditions"
          else returns path
    ]

abbrev pub playback_of : String → Option String → Video → VideoPlayback
playback_of url expires_at video = record {
  video_id = video.id;
  status = video.status;
  playable = true;
  streaming = record { master_playlist_url = url; expires_at = expires_at };
  renditions =
      map (λ (r : Rendition). record { resolution = r.resolution; status = r.status })
        video.renditions;
}

abbrev playback_with :
    (String → Bool) → String → Option String → Video → Outcome String → Outcome VideoPlayback
playback_with signs url expires_at video (raises e) = raises e
playback_with signs url expires_at video (returns path) =
    if signs path then returns (playback_of url expires_at video) else raises "Storage unavailable"

-- get_video_playback for a video that exists; the storage signs a path or raises.
unfoldable pub get_video_playback :
    (String → Bool) → String → Option String → Video → Outcome VideoPlayback
get_video_playback signs url expires_at video =
    playback_with signs url expires_at video (validate_playable_video video)
