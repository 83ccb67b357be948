-- ===== src/Examples/Playback.antt =====
-- A video's page and its player.
use rendition.Common.{
  ◌+◌, ◌≤◌, ℕ, true, false, none, some, List, [], ◌∷◌, ◌≡◌, refl, All, get_elem?,
}
use rendition.Common.Sorting.{sort_down_by}
use rendition.Common.Text.{show}
use rendition.Api.{ProcessingStatus, VideoState}
use rendition.Api.Http.{ok}
use rendition.Api.Requests.{get_video_state}
use rendition.Video.Player.{
  Level, QualityLevel, Support, parsed_levels, indexed_levels, quality_label, set_current_level,
  level, quality_chosen, source_changed, manifest_parsed, hls, selected_quality_label, open_source,
  clean_up, listen, native, unmounted,
}
use rendition.Video.Player as Player
use rendition.Video.Player.Quality.{quality_chosen_selects}
use rendition.Video.Player.Resources
use rendition.Video.Player.Resources.{IsBalanced, run-closes}
use rendition.Video.Detail as Detail
use rendition.Video.Detail.Polling.{no_playback_before_done}
use rendition.Video.Detail.Asking as Asking
use rendition.Video.Detail.Asking.{asks, ticks_ask_until_done}
use rendition.Examples.{running_clip}

abbrev manifest : List Level
manifest =
    record { height = 360; bitrate = 800000 } ∷ record { height = 1080; bitrate = 5000000 } ∷ []

abbrev opened : List Player.Event
opened =
    source_changed (record { plays_hls = false; hls_js = true }) "master.m3u8"
    ∷ manifest_parsed manifest
    ∷ []

abbrev tallest : QualityLevel
tallest = record { value = "1"; label = "1080p"; height = 1080 }

quality_chosen_selects_example :
    (place : ℕ) × (shown : Level) × (get_elem? (Player.run opened Player.initial).manifest place
      ≡ some shown)
    × (tallest.label ≡ quality_label shown)
    × ((Player.step (quality_chosen "1") (Player.run opened Player.initial)).commands
        ≡ set_current_level (level (some place)) ∷ (Player.run opened Player.initial).commands)
    × (selected_quality_label (Player.step (quality_chosen "1") (Player.run opened Player.initial))
        ≡ "1080p")
unfolding Player.run Player.step open_source clean_up listen parsed_levels sort_down_by
    indexed_levels quality_label show
quality_chosen_selects_example = quality_chosen_selects opened 0 tallest refl refl

abbrev page : Detail.Detail
page = record (Detail.mount "v1") { video_state = some running_clip }

abbrev failed_clip : VideoState
failed_clip = record running_clip { status = ProcessingStatus.failed }

abbrev failing : List Detail.Event
failing = Detail.tick ∷ Detail.state_reply 1 (ok failed_clip) ∷ Detail.tick ∷ Detail.tick ∷ []

ticks_ask_until_done_example :
    ((last : VideoState) × ((Detail.run failing page).video_state ≡ some last)
      × (Detail.is_playable last.status ≡ false))
    × (Asking.ticks failing + asks "v1" page.calls ≤ asks "v1" (Detail.run failing page).calls)
unfolding Detail.is_playable Detail.mount Detail.load_video
ticks_ask_until_done_example =
    ticks_ask_until_done page running_clip failing refl refl refl (tt, (refl, (tt, (tt, tt))))

abbrev watched : List Detail.Event
watched =
    Detail.state_reply 0 (ok running_clip)
    ∷ Detail.tick
    ∷ Detail.state_reply 1 (ok running_clip)
    ∷ []

no_playback_before_done_example :
    ((Detail.run watched (Detail.mount "v1")).current_playback ≡ none)
    × All (λ r. r ≡ get_video_state "v1") (Detail.run watched (Detail.mount "v1")).calls
unfolding Detail.is_playable
no_playback_before_done_example = no_playback_before_done "v1" watched (refl, (tt, (refl, tt)))

run-closes_example :
    IsBalanced (Player.run opened Player.initial)
    × (Resources.opened hls (Player.step unmounted (Player.run opened Player.initial)).commands
        ≡ Resources.closed hls (Player.step unmounted (Player.run opened Player.initial)).commands)
    × (Resources.opened native (Player.step unmounted (Player.run opened Player.initial)).commands
        ≡ Resources.closed native
            (Player.step unmounted (Player.run opened Player.initial)).commands)
run-closes_example = run-closes opened
