-- ===== src/Uploads/Table/Paging.antt =====
-- The pages of the table: what they show, and where the buttons lead.
use rendition.Common.{
  ℕ, zero, suc, ◌+◌, ◌-◌, ◌*◌, ◌/◌, ◌≤◌, ◌<◌, min, max, List, [], ◌∷◌, ◌++◌, ◌≡◌, refl, ap, ap₂,
  ◌∙◌, ◌≢◌, ◌↔◌, nat_eq, arith, length, take, drop, length-take, length-drop,
}
use rendition.Common.Chunks.{chunk, chunks, chunks_all}
use rendition.Uploads.Table.Pages.{
  total_pages, current_page, paginated_videos, previous_page, next_page, previous_clicked,
  next_clicked,
}

-- The pages k + 1, …, k + n, one behind another.
abbrev pub pages {ℓ} : {A : Type ℓ} → ℕ → ℕ → List A → List A
pages k zero videos = []
pages k (suc n) videos = paginated_videos (suc k) videos ++ pages (suc k) n videos

module _ {ℓ} {A : Type ℓ} (videos : List A) where
  page-chunk :
      (k : ℕ) → k < total_pages (length videos) → paginated_videos (suc k) videos ≡ chunk 8 k videos
  unfolding paginated_videos current_page
  page-chunk k lt =
      let e : min (suc k) (total_pages (length videos)) - 1 ≡ k = omega arith in
      ap (λ m. take 8 (drop (m * 8) videos)) e

  pages-chunks :
      (k n : ℕ) → k + n ≤ total_pages (length videos) → pages k n videos ≡ chunks 8 k n videos
  pages-chunks k zero le = refl
  pages-chunks k (suc n) le =
      ap₂ ◌++◌ (page-chunk k (omega arith)) (pages-chunks (suc k) n (omega arith))

-- The pages from the first to the last, one behind another, are all videos in their order.
pub pages_all {ℓ} :
    {A : Type ℓ} (videos : List A) → pages 0 (total_pages (length videos)) videos ≡ videos
unfolding total_pages
pages_all [] = pages-chunks [] 0 1 (omega arith)
pages_all (v ∷ vs) =
    let videos = v ∷ vs in
    let n = (length videos + 8 - 1) / 8 in
    let full : max 1 n ≡ n = omega arith in
    ap (λ m. pages 0 m videos) full
    ∙ pages-chunks videos 0 n (omega arith)
    ∙ chunks_all 8 videos (omega arith)

-- Whatever page the table is asked for, from 1 on, the page that it shows lies between 1 and the last, has
-- at most eight videos, and has one at least if there are videos.
pub current_page_bounds {ℓ} :
    {A : Type ℓ} (page : ℕ) (videos : List A)
    → 0 < page
    → (0 < current_page page (length videos))
      × (current_page page (length videos) ≤ total_pages (length videos))
      × (length (paginated_videos page videos) ≤ 8)
      × (0 < length videos → 0 < length (paginated_videos page videos))
unfolding current_page total_pages paginated_videos
current_page_bounds page videos h =
    let start = (min page (max 1 ((length videos + 8 - 1) / 8)) - 1) * 8 in
    let e = length-take 8 (drop start videos) in
    let d = length-drop start videos in
    (omega arith, omega arith, omega arith, λ some_video. omega arith)

-- From a page of the table, the enabled buttons lead to the neighbouring pages, and each leads back.
pub buttons_inverse :
    (page n : ℕ)
    → 0 < page
    → page ≤ total_pages n
    → (page ≢ total_pages n
        → (next_page page n ≡ page + 1) × (previous_page (next_page page n) ≡ page))
      × (page ≢ 1 → (previous_page page ≡ page - 1) × (next_page (previous_page page) n ≡ page))
unfolding previous_page next_page
buttons_inverse page n h le = (λ ne. (omega arith, omega arith), λ ne. (omega arith, omega arith))

-- When the list has shrunk so far that the remembered page lies past the last one, no click changes the page
-- that is shown: "Previous", which is enabled exactly if there are more pages than one, then only changes the
-- remembered page, and "Next" is disabled.
pub previous_page_stale :
    (page n : ℕ)
    → total_pages n < page
    → (current_page (previous_clicked page n) n ≡ current_page page n)
      × ((previous_clicked page n ≢ page) ↔ (1 < total_pages n))
      × (next_clicked page n ≡ page)
unfolding previous_clicked next_clicked previous_page next_page current_page total_pages
previous_page_stale page n lt =
    (ground arith, (λ changed. ground arith, λ several. ground arith), ground arith)
