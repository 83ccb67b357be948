-- ===== src/Uploads/Table/Pages.antt =====
-- frontend/src/components/uploads/uploads-table.tsx, lines 61-71 and 284-311: the page of the table.
use rendition.Common.{
  ℕ, if◌then◌else◌, ◌==◌, nat_eq, ◌+◌, ◌-◌, ◌*◌, ◌/◌, min, max, List, length, take, drop,
}

abbrev pub page_size : ℕ
page_size = 8

unfoldable pub total_pages : ℕ → ℕ
total_pages n = max 1 ((n + page_size - 1) / page_size)

unfoldable pub current_page : ℕ → ℕ → ℕ
current_page page n = min page (total_pages n)

-- videos.slice(startIndex, startIndex + pageSize); pages count from 1.
unfoldable pub paginated_videos {ℓ} : {A : Type ℓ} → ℕ → List A → List A
paginated_videos page videos =
    let start_index = (current_page page (length videos) - 1) * page_size in
    take page_size (drop start_index videos)

-- The updates of `page` by the two buttons.
unfoldable pub previous_page : ℕ → ℕ
previous_page page = max 1 (page - 1)

unfoldable pub next_page : ℕ → ℕ → ℕ
next_page page n = min (total_pages n) (page + 1)

-- A click on a button changes `page` unless the button is disabled.
unfoldable pub previous_clicked : ℕ → ℕ → ℕ
previous_clicked page n = if current_page page n == 1 then page else previous_page page

unfoldable pub next_clicked : ℕ → ℕ → ℕ
next_clicked page n = if current_page page n == total_pages n then page else next_page page n
