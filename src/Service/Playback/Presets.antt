-- ===== src/Service/Playback/Presets.antt =====
-- core/encoding/presets.py: the renditions that a video is offered in.
use rendition.Common.{
  ℕ, ◌*◌, String, Bool, true, false, Option, none, some, List, [], ◌∷◌, ◌||◌, if◌then◌else◌, ltb,
  leb, ◌==◌, string_eq, find?,
}
use rendition.Service.{SourceMetadata}

pub record EncodingPreset : Type 0 where
  pub resolution : String
  pub width : ℕ
  pub height : ℕ
  pub video_bitrate : ℕ
  pub audio_bitrate : String

abbrev pub fallback_hls_resolution : String
fallback_hls_resolution = "144p"

abbrev preset : String → ℕ → ℕ → ℕ → String → EncodingPreset
preset r w h video audio = record {
  resolution = r;
  width = w;
  height = h;
  video_bitrate = video;
  audio_bitrate = audio;
}

abbrev pub fallback_preset : EncodingPreset
fallback_preset = preset "144p" 256 144 150000 "48k"

-- HLS_PRESETS.values(), which is DEFAULT_HLS_RENDITIONS; the keys are the resolutions.
abbrev pub hls_presets : List EncodingPreset
hls_presets =
    preset "1080p" 1920 1080 5000000 "128k"
    ∷ preset "720p" 1280 720 2800000 "128k"
    ∷ preset "480p" 854 480 1200000 "128k"
    ∷ preset "360p" 640 360 800000 "96k"
    ∷ preset "240p" 426 240 400000 "64k"
    ∷ fallback_preset
    ∷ []

abbrev bitrate_fits : ℕ → Option ℕ → Bool
bitrate_fits video_bitrate none = true
bitrate_fits video_bitrate (some bitrate) = leb (4 * video_bitrate) (5 * bitrate)

-- The headroom is the default one of 1.25, as a quotient.
unfoldable pub is_hls_preset_applicable : EncodingPreset → SourceMetadata → Bool
is_hls_preset_applicable p metadata =
    if p.resolution == fallback_hls_resolution
    then true
    else if ltb metadata.width p.width || ltb metadata.height p.height
    then false
    else bitrate_fits p.video_bitrate metadata.bitrate

abbrev preset_or_fallback : Option EncodingPreset → EncodingPreset
preset_or_fallback none = fallback_preset
preset_or_fallback (some p) = p

unfoldable pub get_hls_preset : String → EncodingPreset
get_hls_preset resolution =
    preset_or_fallback (find? (λ (p : EncodingPreset). p.resolution == resolution) hls_presets)
