-- ===== src/Examples/Pages.antt =====
-- Pages of the table and of the feed.
use rendition.Common.{
  ℕ, ◌≤◌, ◌<◌, true, false, none, List, [], ◌∷◌, ◌≡◌, ◌≢◌, ◌↔◌, arith, All, length, is_some,
}
use rendition.Common.Chunks.{chunk}
use rendition.Api.{VideoListItem}
use rendition.Api.Http.{ok}
use rendition.Uploads.Table.{total_pages, current_page, paginated_videos, previous_page, next_page}
use rendition.Uploads.Table as Pages
use rendition.Uploads.Table.Paging.{
  pages, pages_all, current_page_bounds, buttons_inverse, previous_page_stale,
}
use rendition.Feed.Cards.{to_feed_video, to_feed_video-palette}
use rendition.Feed.Page.{
  Load, Event, timer_fired, answered, next_clicked, previous_clicked, initial, videos_answered,
  next_disabled, video_feed, empty, step, run, shows_player,
}
use rendition.Feed.Page.Paging.{page_of, next_enabled_iff_full, empty_page_is_final}
use rendition.Feed.Page.Selection.{AsksForPage, run_never_selects}
use rendition.Examples.{listed_clip}

abbrev nine : List ℕ
nine = 1 ∷ 2 ∷ 3 ∷ 4 ∷ 5 ∷ 6 ∷ 7 ∷ 8 ∷ 9 ∷ []

pages_all_example : pages 0 (total_pages 9) nine ≡ nine
pages_all_example = pages_all nine

current_page_bounds_example :
    (0 < current_page 5 9)
    × (current_page 5 9 ≤ total_pages 9)
    × (length (paginated_videos 5 nine) ≤ 8)
    × (0 < 9 → 0 < length (paginated_videos 5 nine))
current_page_bounds_example = current_page_bounds 5 nine (omega arith)

abbrev first_page : ℕ
first_page = 1

buttons_inverse_example :
    (first_page ≢ total_pages 9 → (next_page 1 9 ≡ 2) × (previous_page (next_page 1 9) ≡ 1))
    × (first_page ≢ 1 → (previous_page 1 ≡ 0) × (next_page (previous_page 1) 9 ≡ 1))
unfolding total_pages
buttons_inverse_example = buttons_inverse 1 9 (omega arith) (omega arith)

previous_page_stale_example :
    (current_page (Pages.previous_clicked 4 9) 9 ≡ current_page 4 9)
    × ((Pages.previous_clicked 4 9 ≢ 4) ↔ (1 < total_pages 9))
    × (Pages.next_clicked 4 9 ≡ 4)
unfolding total_pages
previous_page_stale_example = previous_page_stale 4 9 (omega arith)

to_feed_video-palette_example :
    (is_some (to_feed_video (λ s. s) listed_clip).palette ≡ true)
    × ((other : VideoListItem)
        → other.video_id ≡ "v1"
        → (to_feed_video (λ s. s) other).palette ≡ (to_feed_video (λ s. s) listed_clip).palette)
to_feed_video-palette_example = to_feed_video-palette (λ s. s) listed_clip

abbrev full_page : List VideoListItem
full_page =
    listed_clip ∷ listed_clip ∷ listed_clip ∷ listed_clip ∷ listed_clip ∷ listed_clip ∷ listed_clip
    ∷ listed_clip ∷ []

abbrev load : Load
load = record { page = 1; show_toast = false }

next_enabled_iff_full_example :
    ((next_disabled (videos_answered (λ s. s) load (page_of 0 full_page) initial) ≡ false)
      ↔ (8 ≤ length full_page))
    × (length full_page ≡ 8
        → (next_disabled (videos_answered (λ s. s) load (page_of 0 full_page) initial) ≡ false)
          × (chunk 8 1 full_page ≡ []))
next_enabled_iff_full_example = next_enabled_iff_full (λ s. s) 0 full_page load initial

empty_page_is_final_example :
    (video_feed (videos_answered (λ s. s) load (ok []) initial) ≡ empty)
    × (step (λ s. s) previous_clicked (videos_answered (λ s. s) load (ok []) initial)
        ≡ videos_answered (λ s. s) load (ok []) initial)
    × (step (λ s. s) next_clicked (videos_answered (λ s. s) load (ok []) initial)
        ≡ videos_answered (λ s. s) load (ok []) initial)
empty_page_is_final_example = empty_page_is_final (λ s. s) load initial

abbrev turned : List Event
turned =
    timer_fired ∷ answered 0 (ok full_page) ∷ next_clicked ∷ timer_fired ∷ answered 1 (ok []) ∷ []

run_never_selects_example :
    ((run (λ s. s) turned initial).selected_video ≡ none)
    × (shows_player (video_feed (run (λ s. s) turned initial)) ≡ false)
    × (0 < (run (λ s. s) turned initial).page)
    × All AsksForPage (run (λ s. s) turned initial).calls
run_never_selects_example = run_never_selects (λ s. s) turned
