-- ===== src/Uploads/Multipart/Completion/Tags.antt =====
-- frontend/src/components/uploads/multipart-upload.ts, lines 93-107: what the request of a part resolves with.
use rendition.Common.{
  ℕ, String, false, ◌||◌, Option, none, some, ◌≡◌, string_eq, ◌==◌, ltb, leb, if_cases,
}
use rendition.Uploads.Multipart.{
  XhrEvent, on_progress, on_load, on_error, on_abort, XhrOutcome, reports, resolves, rejects,
  silent, etag_outcome, upload_part,
}

-- What the storage names a part is `T`, unless it is empty.
abbrev pub Names : (String → Type 0) → XhrEvent → Type 0
Names T (on_load status (some etag)) = (etag == "") ≡ false → T etag
Names T _ = Unit {0}

module _ (T : String → Type 0) where
  -- If the request succeeds, it brings an ETag.
  abbrev pub BringsTag : XhrOutcome → Type 0
  BringsTag (reports loaded) = Unit {0}
  BringsTag (resolves loaded etag) = T etag
  BringsTag (rejects e) = Unit {0}
  BringsTag silent = Unit {0}

  etag_outcome-BringsTag :
      (n status : ℕ) (etag : Option String)
      → Names T (on_load status etag)
      → BringsTag (etag_outcome n etag)
  unfolding etag_outcome
  etag_outcome-BringsTag n status none h = tt
  etag_outcome-BringsTag n status (some etag) h = if_cases BringsTag (etag == "") _ _ (λ _. tt) h

  pub upload_part-BringsTag : (n : ℕ) (ev : XhrEvent) → Names T ev → BringsTag (upload_part n ev)
  unfolding upload_part
  upload_part-BringsTag n (on_progress length_computable loaded) h =
      if_cases BringsTag length_computable _ _ (λ _. tt) (λ _. tt)
  upload_part-BringsTag n (on_load status etag) h =
      if_cases BringsTag (ltb status 200 || leb 300 status) _ _ (λ _. tt)
        (λ _. etag_outcome-BringsTag n status etag h)
  upload_part-BringsTag n on_error h = tt
  upload_part-BringsTag n on_abort h = tt
