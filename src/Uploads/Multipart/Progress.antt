-- ===== src/Uploads/Multipart/Progress.antt =====
-- frontend/src/components/uploads/multipart-upload.ts, lines 147-153: the bytes that the progress counts.
-- Each entry of `partProgress` is at most its part.
pub mod Reached
use rendition.Common.{
  ℕ, zero, suc, ◌+◌, ◌-◌, ◌*◌, ◌≤◌, min, Bool, true, false, not, Option, none, some, List, [], ◌∷◌,
  ◌≡◌, refl, sym, ap, ◌∙◌, arith, length, All, Distinct, if_cases, option_cases, nat_eq, ◌==◌,
  length-take, length-drop, drop, if◌then◌else◌, ◌&&◌,
}
use rendition.Common.Chunks.{chunk}
use rendition.Common.Maps.{put, values, All-put, put-Distinct}
use rendition.Common.Sums.{sum, sum_below, sum-values_le}
use rendition.Api.{MultipartUploadPart}
use rendition.Api.Http.{Failure}
use rendition.Uploads.Multipart.{
  File, Options, Controller, Pool, InFlight, size, part_blob, loaded_bytes, emit, caught,
  complete_upload, join, resume, upload_missing_parts, set_run, settled, present, has_failed,
  all_idle,
}
use rendition.Uploads.Multipart.Cases.{complete_upload_cases}
use rendition.Uploads.Multipart.Tiling.{part_blob-chunk}
use rendition.Uploads.Multipart.Steps.{report_progress, reset_progress}

-- The size of a part.
abbrev pub blob_size : Options → ℕ → ℕ
blob_size o n = length (part_blob o.file n o.upload_config.part_size_bytes)

length-chunk-min : (p k : ℕ) (xs : List ℕ) → length (chunk p k xs) ≡ min p (length xs - k * p)
length-chunk-min p k xs = omega (arith, length-take p (drop (k * p) xs), length-drop (k * p) xs)

part_zero : (file : File) (p : ℕ) → part_blob file 0 p ≡ []
unfolding part_blob
part_zero file p = refl

sum_below-blob_size :
    (o : Options) (k : ℕ)
    → sum_below (blob_size o) (suc k) ≡ min (k * o.upload_config.part_size_bytes) (size o.file)
sum_below-blob_size o zero =
    omega (arith, ap length (part_zero o.file o.upload_config.part_size_bytes))
sum_below-blob_size o (suc k) =
    let p = o.upload_config.part_size_bytes in
    omega (
      arith,
      sum_below-blob_size o k,
      ap length (part_blob-chunk o.file k p),
      length-chunk-min p k o.file.content,
    )

sum_below_le : (o : Options) (n : ℕ) → sum_below (blob_size o) n ≤ size o.file
sum_below_le o zero = omega arith
sum_below_le o (suc k) = omega (arith, sum_below-blob_size o k)

-- Each part counts once, and with at most its size.
pub record IsCounted (o : Options) (m : List (ℕ × ℕ)) : Type 0 where
  pub fits : All (λ p. p.1 ≤ blob_size o p.0) m
  pub distinct : Distinct (λ p. p.0) m

pub sum-IsCounted : (o : Options) (m : List (ℕ × ℕ)) → IsCounted o m → sum (values m) ≤ size o.file
sum-IsCounted o m h = sum-values_le (blob_size o) (size o.file) m (sum_below_le o) h.fits h.distinct

pub put-IsCounted :
    (o : Options) (n loaded : ℕ) (m : List (ℕ × ℕ))
    → loaded ≤ blob_size o n
    → IsCounted o m
    → IsCounted o (put n loaded m)
put-IsCounted o n loaded m le h = record {
  fits = All-put (λ p. p.1 ≤ blob_size o p.0) n loaded m le h.fits;
  distinct = put-Distinct n loaded m h.distinct;
}

pub reset_progress-IsCounted :
    (o : Options) (ns : List ℕ) (m : List (ℕ × ℕ))
    → IsCounted o m
    → IsCounted o (reset_progress ns m)
reset_progress-IsCounted o [] m h = h
reset_progress-IsCounted o (n ∷ ns) m h =
    reset_progress-IsCounted o ns (put n 0 m) (put-IsCounted o n 0 m (omega arith) h)

module _ (o : Options) where
  abbrev pub Counted : Controller → Type 0
  Counted c = IsCounted o c.part_progress

  pub caught-Counted : (i : ℕ) (e : Failure) (c : Controller) → Counted c → Counted (caught o i e c)
  unfolding caught emit
  caught-Counted i e c h = if_cases Counted c.aborted _ _ (λ _. h) (λ _. h)

  join-Counted : (i : ℕ) (c : Controller) → Counted c → Counted (join o i c)
  unfolding join
  join-Counted i c h =
      if_cases Counted (has_failed c) _ _ (λ _. caught-Counted i _ c h)
        (λ _. complete_upload_cases Counted o i c h (λ e. caught-Counted i e c h) (λ id full. h))

  pub resume-Counted :
      (i : ℕ) (pool : Pool) (c : Controller) → Counted c → Counted (resume o i pool c)
  unfolding resume
  resume-Counted i pool c h =
      if_cases Counted (all_idle pool.workers && not pool.rejected) _ _ (λ _. join-Counted i _ h)
        (λ _. h)

  pub upload_missing_parts-Counted :
      (i : ℕ) (parts : List MultipartUploadPart) (c : Controller)
      → Counted c
      → Counted (upload_missing_parts o i parts c)
  unfolding upload_missing_parts
  upload_missing_parts-Counted i parts c h = resume-Counted i _ _ h

  pub report_progress-Counted :
      (n loaded : ℕ) (c : Controller)
      → loaded ≤ blob_size o n
      → Counted c
      → Counted (report_progress o n loaded c)
  unfolding report_progress emit
  report_progress-Counted n loaded c le h = put-IsCounted o n loaded c.part_progress le h
