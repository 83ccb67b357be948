-- ===== src/Video/Player.antt =====
-- frontend/src/components/video/hls-player.tsx: the quality menu of `HlsPlayer` and the events of its stream.
-- `Hls` is the library hls.js: the levels of a manifest are given, and what is done to the player is a
-- list of commands.
pub mod Quality
pub mod Resources
use Prim.Native.String.{◌++◌ as append}
use rendition.Common.{
  ℕ, zero, suc, ◌+◌, ◌/◌, String, Bool, true, false, not, Option, none, some, List, [], ◌∷◌, ◌++◌,
  map, get_elem?, find?, ltb, length, ◌==◌, nat_eq, string_eq, if◌then◌else◌, or_else,
}
use rendition.Common.Sorting.{sort_down_by}
use rendition.Common.Text.{show, number_of}

-- A level of hls.js; a missing number is 0.
pub record Level : Type 0 where
  pub height : ℕ
  pub bitrate : ℕ

pub record QualityLevel : Type 0 where
  pub value : String
  pub label : String
  pub height : ℕ

-- `Math.round(bitrate / 1000)` rounds halves up, and the quotient is near enough to its value for that.
unfoldable pub quality_label : Level → String
quality_label level =
    if not (level.height == 0)
    then append (show level.height) "p"
    else if not (level.bitrate == 0)
    then append (show ((level.bitrate + 500) / 1000)) " kbps"
    else "Source"

-- `levels` of the manifest, each with its index, from `i` on
unfoldable pub indexed_levels : ℕ → List Level → List QualityLevel
indexed_levels i [] = []
indexed_levels i (level ∷ levels) =
    record { value = show i; label = quality_label level; height = level.height }
    ∷ indexed_levels (suc i) levels

unfoldable pub parsed_levels : List Level → List QualityLevel
parsed_levels levels = sort_down_by (λ (l : QualityLevel). l.height) (indexed_levels 0 levels)

-- What is assigned to `hls.currentLevel`: -1, or what `Number` reads, where `none` is NaN.
pub data CurrentLevel : Type 0 where
  automatic : CurrentLevel
  level : Option ℕ → CurrentLevel

-- The effect of `src` and its clean-up, and what the events ask of hls.js and of the page.
pub data Command : Type 0 where
  set_src load_source : String → Command
  remove_src attach_media recover_media_error destroy on_reload_source : Command
  set_current_level : CurrentLevel → Command

-- Whether `hlsRef` holds a player, or the browser plays the stream itself.
pub data Mode : Type 0 where
  idle native hls : Mode

pub record Player : Type 0 where
  pub levels : List QualityLevel
  pub selected_quality : String
  pub auto_level_height : Option ℕ
  pub mode : Mode
  pub manifest : List Level
  pub commands : List Command

abbrev pub initial : Player
initial = record {
  levels = [];
  selected_quality = "auto";
  auto_level_height = none;
  mode = idle;
  manifest = [];
  commands = [];
}

-- What the browser can do: `video.canPlayType(…)` and `Hls.isSupported()`.
pub record Support : Type 0 where
  pub plays_hls : Bool
  pub hls_js : Bool

abbrev pub command : Command → Player → Player
command c p = record p { commands = c ∷ p.commands }

-- The clean-up of the effect: hlsRef is emptied and hls.js destroyed, or the source is removed.
unfoldable pub clean_up : Mode → Player → Player
clean_up idle p = p
clean_up native p = command remove_src (record p { mode = idle })
clean_up hls p = command destroy (record p { mode = idle })

-- The effect of `src`.
unfoldable pub open_source : Support → String → Player → Player
open_source s src p =
    let fresh = record p { levels = []; selected_quality = "auto"; auto_level_height = none } in
    if s.plays_hls
    then command (set_src src) (record fresh { mode = native })
    else if not s.hls_js
    then command on_reload_source fresh
    else command attach_media
        (command (load_source src) (record fresh { mode = hls; manifest = [] }))

pub data ErrorType : Type 0 where
  media_error other_error : ErrorType

pub data Event : Type 0 where
  source_changed : Support → String → Event
  manifest_parsed : List Level → Event
  level_switched : ℕ → Event
  stream_error : Bool → ErrorType → Event
  quality_chosen : String → Event
  unmounted : Event

-- level?.height || null
abbrev height_or_null : Option Level → Option ℕ
height_or_null none = none
height_or_null (some l) = if l.height == 0 then none else some l.height

unfoldable pub on_error : Bool → ErrorType → Player → Player
on_error false type p = p
on_error true media_error p = command recover_media_error p
on_error true other_error p = command on_reload_source p

-- handleQualityChange
unfoldable pub handle_quality_change : String → Mode → Player → Player
handle_quality_change value hls p =
    command (set_current_level (if value == "auto" then automatic else level (number_of value)))
      (record p { selected_quality = value })
handle_quality_change value idle p = record p { selected_quality = value }
handle_quality_change value native p = record p { selected_quality = value }

-- The listeners of hls.js are there while `hlsRef` holds it.
unfoldable pub listen : Mode → Event → Player → Player
listen hls (manifest_parsed levels) p = record p {
  manifest = levels;
  levels = parsed_levels levels;
}
listen hls (level_switched i) p = record p {
  auto_level_height = height_or_null (get_elem? p.manifest i);
}
listen hls (stream_error fatal type) p = on_error fatal type p
listen _ _ p = p

unfoldable pub step : Event → Player → Player
step (source_changed s src) p = open_source s src (clean_up p.mode p)
step (quality_chosen value) p = handle_quality_change value p.mode p
step unmounted p = clean_up p.mode p
step ev p = listen p.mode ev p

-- selectedQualityLabel
unfoldable pub selected_quality_label : Player → String
selected_quality_label p =
    if p.selected_quality == "auto"
    then elim p.auto_level_height [
      | none ↦ "Auto"
      | some h ↦ append "Auto (" (append (show h) "p)")
    ]
    else elim (find? (λ (l : QualityLevel). l.value == p.selected_quality) p.levels) [
      | none ↦ "Quality"
      | some l ↦ l.label
    ]

-- The menu over the video: nothing before levels are known, then the label, and the choices in order.
pub record Menu : Type 0 where
  pub label : String
  pub value : String
  pub auto_hint : Option String
  pub choices : List (String × String)

unfoldable pub quality_menu : Player → Option Menu
quality_menu p =
    if ltb 0 (length p.levels)
    then some (record {
      label = selected_quality_label p;
      value = p.selected_quality;
      auto_hint = elim p.auto_level_height [ none ↦ none | some h ↦ some (append (show h) "p") ];
      choices = ("auto", "Auto") ∷ map (λ (l : QualityLevel). (l.value, l.label)) p.levels;
    })
    else none

unfoldable pub run : List Event → Player → Player
run [] p = p
run (ev ∷ evs) p = run evs (step ev p)
