-- ===== src/Feed/Page/Paging.antt =====
-- The pager of the feed against the list of all finished videos, of which the service sends a page.
use rendition.Common.{
  ℕ, ◌+◌, ◌*◌, ◌≤◌, String, false, List, [], ◌≡◌, ◌↔◌, arith, length, length-map, length-take,
  length-drop, drop, take, drop-of_length-le, ap, not, ◌==◌, nat_eq,
}
use rendition.Common.Chunks.{chunk}
use rendition.Api.{VideoListItem}
use rendition.Api.Http.{Result, ok}
use rendition.Feed.Cards.{to_feed_video}
use rendition.Feed.Page.{
  Feed, previous_clicked, next_clicked, step, Load, empty, video_feed, videos_answered,
  next_disabled,
}

-- The service's answer for page `k + 1` of all finished videos.
abbrev pub page_of : ℕ → List VideoListItem → Result (List VideoListItem)
page_of k all = ok (chunk 8 k all)

next_disabled-answered :
    (f : String → String) (load : Load) (xs : List VideoListItem) (s : Feed)
    → next_disabled (videos_answered f load (ok xs) s) ≡ not (length xs == 8)
unfolding videos_answered
next_disabled-answered f load xs s = ground (arith, length-map (to_feed_video f) xs)

full_chunk :
    (k : ℕ) (all : List VideoListItem)
    → (not (length (chunk 8 k all) == 8) ≡ false) ↔ (k * 8 + 8 ≤ length all)
full_chunk k all =
    let e = length-take 8 (drop (k * 8) all) in
    let d = length-drop (k * 8) all in (λ h. ground arith, λ h. ground arith)

-- After the answer for page k + 1, "Next" is enabled exactly if that page is full; and if then just
-- 8 (k + 1) videos are finished, "Next" is enabled although the following page is empty.
pub next_enabled_iff_full :
    (f : String → String) (k : ℕ) (all : List VideoListItem) (load : Load) (s : Feed)
    → ((next_disabled (videos_answered f load (page_of k all) s) ≡ false)
        ↔ (k * 8 + 8 ≤ length all))
      × (length all ≡ k * 8 + 8
          → (next_disabled (videos_answered f load (page_of k all) s) ≡ false)
            × (chunk 8 (k + 1) all ≡ []))
next_enabled_iff_full f k all load s =
    let e = next_disabled-answered f load (chunk 8 k all) s in
    rw e (
      full_chunk k all,
      λ exact. (
        (full_chunk k all).1 (omega arith),
        ap (take 8) (drop-of_length-le ((k + 1) * 8) all (omega arith)),
      ),
    )

-- The answer of an empty page, whatever the page is, is shown as a feed without any finished video, and
-- there neither "Previous" nor "Next" does anything.
pub empty_page_is_final :
    (f : String → String) (load : Load) (s : Feed)
    → (video_feed (videos_answered f load (ok []) s) ≡ empty)
      × (step f previous_clicked (videos_answered f load (ok []) s)
          ≡ videos_answered f load (ok []) s)
      × (step f next_clicked (videos_answered f load (ok []) s) ≡ videos_answered f load (ok []) s)
unfolding videos_answered video_feed step
empty_page_is_final f load s = (ground arith, ground arith, ground arith)
