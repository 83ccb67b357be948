-- ===== src/Feed.antt =====
-- The feed of finished videos, frontend/src/components/feed: cards and surfaces in `Cards`, the page in
-- `Page`.
pub mod Cards
pub mod Page
use rendition.Common.{String, Option}

-- feed/types.ts. `palette` is what indexing the palettes gives, which could be undefined.
pub record FeedVideo : Type 0 where
  pub id : String
  pub title : String
  pub owner : String
  pub uploaded_at : String
  pub duration : String
  pub quality : String
  pub views : String
  pub palette : Option String
