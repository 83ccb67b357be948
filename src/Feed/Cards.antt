-- ===== src/Feed/Cards.antt =====
-- frontend/src/components/feed/video-feed.tsx, lines 29-69, video-card.tsx, video-surface.tsx and
-- up-next-list.tsx: a listed video as an entry of the feed, and what its card and surface show. Layout is
-- left out; the classes kept are those that depend on the properties.
use Prim.Native.String.{◌++◌ as append}
use rendition.Common.{
  ℕ, zero, suc, ◌+◌, ◌-◌, ◌/◌, ◌%◌, ◌<◌, String, Bool, true, false, Option, none, some, List, [],
  ◌∷◌, map, ◌≡◌, refl, arith, ltb, ◌==◌, string_eq, if◌then◌else◌, length, get_elem?, is_some,
}
use rendition.Common.Text.{codes}
use rendition.Api.{VideoListItem}
use rendition.Feed.{FeedVideo}

abbrev pub video_palettes : List String
video_palettes =
    "bg-[linear-gradient(135deg,#10241f,#2a6f62_46%,#d6b65b)]"
    ∷ "bg-[linear-gradient(135deg,#101827,#245b87_48%,#9ed6d0)]"
    ∷ "bg-[linear-gradient(135deg,#261513,#985b31_48%,#e3c06f)]"
    ∷ "bg-[linear-gradient(135deg,#1c1830,#496c62_50%,#d77d4d)]"
    ∷ "bg-[linear-gradient(135deg,#17221b,#647148_50%,#e1d0a1)]"
    ∷ "bg-[linear-gradient(135deg,#202020,#67523a_50%,#c5aa74)]"
    ∷ "bg-[linear-gradient(135deg,#14201f,#2f7771_48%,#b7d7c9)]"
    ∷ "bg-[linear-gradient(135deg,#241814,#8f4f32_48%,#e7a85f)]" ∷ []

unfoldable pub format_uploaded_at : (String → String) → Option String → String
format_uploaded_at format_date none = "Uploaded"
format_uploaded_at format_date (some value) = if value == "" then "Uploaded" else format_date value

-- character.charCodeAt(0) of a code point: the first of two units for one beyond 16 bits.
abbrev first_unit : ℕ → ℕ
first_unit c = if ltb c 0x10000 then c else 0xd800 + (c - 0x10000) / 1024

abbrev unit_sum : ℕ → List ℕ → ℕ
unit_sum total [] = total
unit_sum total (c ∷ cs) = unit_sum (total + first_unit c) cs

unfoldable pub palette_for_video : String → Option String
palette_for_video video_id =
    get_elem? video_palettes (unit_sum 0 (codes video_id) % length video_palettes)

abbrev first_text : Option String → String → Option String
first_text none b = some b
first_text (some a) b = some a

unfoldable pub to_feed_video : (String → String) → VideoListItem → FeedVideo
to_feed_video format_date video = record {
  id = video.video_id;
  title = video.title;
  owner = "Rendition";
  uploaded_at = format_uploaded_at format_date (first_text video.uploaded_at video.created_at);
  duration = "Ready";
  quality = "HLS";
  views = "Playable";
  palette = palette_for_video video.video_id;
}

-- VideoSurface: a button where there is something to click.
pub record Surface : Type 0 where
  pub palette : Option String
  pub class_name : Option String
  pub duration : String
  pub circle_size : String
  pub inner_size : String
  pub icon_size : String
  pub is_button : Bool
  pub rounded_large : Bool

unfoldable pub video_surface : FeedVideo → Option String → Bool → Bool → Surface
video_surface video class_name clickable player = record {
  palette = video.palette;
  class_name = class_name;
  duration = video.duration;
  circle_size = if player then "size-20" else "size-14 group-hover:scale-105";
  inner_size = if player then "size-12" else "size-9";
  icon_size = if player then "size-5" else "size-4";
  is_button = clickable;
  rounded_large = if clickable then false else player;
}

-- VideoCard, and an article of UpNextList; a click on the surface or the title selects `selects`.
pub record Card : Type 0 where
  pub key : String
  pub surface : Surface
  pub title : String
  pub lines : List String
  pub selects : FeedVideo

unfoldable pub video_card : FeedVideo → Card
video_card video = record {
  key = video.id;
  surface = video_surface video none true false;
  title = video.title;
  lines = append video.owner (append " / " video.uploaded_at) ∷ video.views ∷ video.quality ∷ [];
  selects = video;
}

unfoldable pub up_next_list : List FeedVideo → List Card
up_next_list videos =
    map
      (λ (video : FeedVideo). record {
        key = video.id;
        surface = video_surface video (some "rounded-md") true false;
        title = video.title;
        lines = video.owner ∷ append video.duration (append " / " video.quality) ∷ [];
        selects = video;
      })
      videos

get_palette : (k : ℕ) → k < 8 → is_some (get_elem? video_palettes k) ≡ true
get_palette zero h = refl
get_palette (suc zero) h = refl
get_palette (suc (suc zero)) h = refl
get_palette (suc (suc (suc zero))) h = refl
get_palette (suc (suc (suc (suc zero)))) h = refl
get_palette (suc (suc (suc (suc (suc zero))))) h = refl
get_palette (suc (suc (suc (suc (suc (suc zero)))))) h = refl
get_palette (suc (suc (suc (suc (suc (suc (suc zero))))))) h = refl
get_palette (suc (suc (suc (suc (suc (suc (suc (suc k)))))))) h = absurd (omega arith)

-- Every video of the feed has a palette, whatever its id, and it depends on the id alone.
pub to_feed_video-palette :
    (format_date : String → String) (video : VideoListItem)
    → (is_some (to_feed_video format_date video).palette ≡ true)
      × ((other : VideoListItem)
          → other.video_id ≡ video.video_id
          → (to_feed_video format_date other).palette ≡ (to_feed_video format_date video).palette)
unfolding to_feed_video palette_for_video
to_feed_video-palette format_date video =
    (get_palette (unit_sum 0 (codes video.video_id) % 8) (omega arith), λ other e. rw e refl)
