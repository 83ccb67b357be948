-- ===== src/Uploads/Utils/Counts.antt =====
-- frontend/src/components/uploads/utils.ts, lines 9-23: the counts of renditions.
use rendition.Common.{
  ◌≤◌, true, not, ◌||◌, List, [], ◌∷◌, ◌≡◌, ◌↔◌, refl, arith, length, length-filter-le, filter, All,
}
use rendition.Api.{Rendition}
use rendition.Uploads.Utils.{is_skipped, is_done, rendition_progress_from_renditions}

-- The rendition is done, or it is not counted.
abbrev pub Settled : Rendition → Type 0
Settled r = (is_skipped r || is_done r) ≡ true

counts_full :
    (rs : List Rendition)
    → length (filter is_done (filter (λ r. not (is_skipped r)) rs))
      ≡ length (filter (λ r. not (is_skipped r)) rs)
    → All Settled rs
counts_full [] e = tt
counts_full (r ∷ rs) e =
    let le = length-filter-le is_done (filter (λ r. not (is_skipped r)) rs) in
    (ground (arith, e, le), counts_full rs (ground (arith, e, le)))

counts-Settled :
    (rs : List Rendition)
    → All Settled rs
    → length (filter is_done (filter (λ r. not (is_skipped r)) rs))
      ≡ length (filter (λ r. not (is_skipped r)) rs)
counts-Settled [] h = refl
counts-Settled (r ∷ rs) h = ground (arith, h.0, counts-Settled rs h.1)

-- Of the renditions that count, at most all are completed, at most all renditions count, and all that count
-- are completed exactly if each rendition is done or skipped.
rendition_progress_bounds :
    (rs : List Rendition)
    → ((rendition_progress_from_renditions rs).completed
        ≤ (rendition_progress_from_renditions rs).total)
      × ((rendition_progress_from_renditions rs).total ≤ length rs)
      × (((rendition_progress_from_renditions rs).completed
            ≡ (rendition_progress_from_renditions rs).total)
          ↔ All Settled rs)
unfolding rendition_progress_from_renditions
rendition_progress_bounds rs = (
  length-filter-le is_done (filter (λ r. not (is_skipped r)) rs),
  length-filter-le (λ r. not (is_skipped r)) rs,
  (counts_full rs, counts-Settled rs),
)
