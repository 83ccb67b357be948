-- ===== src/Uploads/Multipart/Completion/Transfers.antt =====
-- The part transfers of a run keep numbers in range.
use rendition.Common.{
  string_eq, String, ℕ, none, List, [], ◌∷◌, ◌≡◌, ◌≢◌, refl, arith, length, All, Distinct, map,
  get_elem?, if_cases, option_cases, nat_eq, All-map, All-mono, All-set, All-take, All-get_elem?,
}
use rendition.Common.Maps.{put, values, All-put, put-Distinct}
use rendition.Common.Sorting.{sort_by, sort_by-IsRising, All-sort_by}
use rendition.Api.{MultipartUploadPart, CompletedPart}
use rendition.Api.Requests.{complete_video_upload}
use rendition.Api.Http.{Failure}
use rendition.Uploads.Multipart.Cases.{complete_upload_cases}
use rendition.Uploads.Multipart.{
  Options, Controller, InFlight, Pool, transferring, completing, settled, XhrOutcome, reports,
  resolves, rejects, silent, part_count, complete_upload, join, resume, upload_missing_parts,
  next_part, begin_worker, has_failed,
}
use rendition.Uploads.Multipart.Completion.Tags.{BringsTag}
use rendition.Uploads.Multipart.Steps.{report_progress, part_failed, part_outcome}
use rendition.Uploads.Multipart.Numbers.{numbers, rising_full}
use rendition.Uploads.Multipart.Completion.{
  Tagged, InRange, PartInRange, WorkerInRange, PhaseInRange, EntryInRange, Inv, emit-Inv,
  set_run-Inv, log-Inv, frame_Inv, caught-Inv,
}

module _ (o : Options) (T : String → Type 0) where
  values-Distinct :
      (m : List (ℕ × CompletedPart))
      → All (EntryInRange o T) m
      → Distinct (λ p. p.0) m
      → Distinct (λ (p : CompletedPart). p.part_number) (values m)
  values-Distinct [] h d = tt
  values-Distinct ((n, part) ∷ m) h d =
      (All-map _ _ m (others m h.1 d.0), values-Distinct m h.1 d.1)
    where
      others :
          (m : List (ℕ × CompletedPart))
          → All (EntryInRange o T) m
          → All (λ p. p.0 ≢ n) m
          → All (λ p. p.1.part_number ≢ part.part_number) m
      others [] hs ds = tt
      others (q ∷ m) hs ds = (ground (arith, h.0), others m hs.1 ds.1)

  sorted_parts :
      (m : List (ℕ × CompletedPart))
      → All (EntryInRange o T) m
      → Distinct (λ p. p.0) m
      → length (sort_by (λ (p : CompletedPart). p.part_number) (values m)) ≡ part_count o
      → map
          (λ (p : CompletedPart). p.part_number)
          (sort_by (λ (p : CompletedPart). p.part_number) (values m))
        ≡ numbers 0 (part_count o)
  sorted_parts m h d e =
      rising_full number 0 (part_count o) (sort_by number (values m))
        (sort_by-IsRising number 0 (values m) (values-Distinct m h d)
          (All-map _ _ m (All-mono _ _ (λ p q. omega arith) m h)))
        (All-sort_by number _ (values m) (All-map _ _ m (All-mono _ _ (λ p q. omega arith) m h))) e
    where
      number : CompletedPart → ℕ
      number p = p.part_number

  sorted_parts-Tagged :
      (m : List (ℕ × CompletedPart))
      → All (EntryInRange o T) m
      → All (Tagged o T) (sort_by (λ (p : CompletedPart). p.part_number) (values m))
  sorted_parts-Tagged m h =
      All-sort_by (λ (p : CompletedPart). p.part_number) (Tagged o T) (values m)
        (All-map _ _ m (All-mono _ _ (λ p q. q.1) m h))

  pub complete_upload-Inv : (i : ℕ) (c : Controller) → Inv o T c → Inv o T (complete_upload o i c)
  unfolding complete_video_upload
  complete_upload-Inv i c v =
      complete_upload_cases (Inv o T) o i c (set_run-Inv o T i settled c tt v)
        (λ e. caught-Inv o T i e c v)
        (λ id full.
          log-Inv o T _ _
            (
              sorted_parts c.completed_parts v.entries v.distinct full,
              sorted_parts-Tagged c.completed_parts v.entries,
            )
            (set_run-Inv o T i completing c tt v))

  join-Inv : (i : ℕ) (c : Controller) → Inv o T c → Inv o T (join o i c)
  unfolding join
  join-Inv i c v =
      if_cases (Inv o T) (has_failed c) _ _ (λ _. caught-Inv o T i _ c v)
        (λ _. complete_upload-Inv i c v)

  pub resume-Inv :
      (i : ℕ) (pool : Pool) (c : Controller)
      → PhaseInRange o (transferring pool)
      → Inv o T c
      → Inv o T (resume o i pool c)
  unfolding resume
  resume-Inv i pool c h v =
      let w = set_run-Inv o T i (transferring pool) c h v in
      if_cases (Inv o T) _ _ _ (λ _. join-Inv i _ w) (λ _. w)

  pub next_part-PhaseInRange :
      (signal slot : ℕ) (pool : Pool)
      → PhaseInRange o (transferring pool)
      → PhaseInRange o (transferring (next_part signal slot pool))
  unfolding next_part
  next_part-PhaseInRange signal slot pool h =
      option_cases (λ p. PhaseInRange o (transferring p)) (get_elem? pool.queue pool.next_index) _ _
        (λ _. (h.0, All-set (WorkerInRange o) pool.workers slot none tt h.1))
        (λ part e. (
          h.0,
          All-set (WorkerInRange o) pool.workers slot (begin_worker signal part)
              (All-get_elem? (PartInRange o) pool.queue pool.next_index part e h.0) h.1,
        ))

  pub report_progress-Inv :
      (n loaded : ℕ) (c : Controller) → Inv o T c → Inv o T (report_progress o n loaded c)
  unfolding report_progress
  report_progress-Inv n loaded c v = emit-Inv o T _ (frame_Inv o T c _ refl refl refl v)

  pub part_failed-Inv :
      (i slot : ℕ) (pool : Pool) (w : InFlight) (e : Failure) (c : Controller)
      → PhaseInRange o (transferring pool)
      → Inv o T c
      → Inv o T (part_failed o i slot pool w e c)
  unfolding part_failed
  part_failed-Inv i slot pool w e c h v =
      if_cases (Inv o T) c.aborted _ _
        (λ _.
          set_run-Inv o T i _ c (h.0, All-set (WorkerInRange o) pool.workers slot none tt h.1) v)
        (λ _.
          resume-Inv i _ _ (next_part-PhaseInRange c.signal slot pool h)
            (frame_Inv o T c _ refl refl refl v))

  add_part-Inv :
      (n : ℕ) (etag : String) (c : Controller)
      → T etag
      → InRange o n
      → Inv o T c
      → Inv o T (record c {
        completed_parts = put n (record { part_number = n; etag = etag }) c.completed_parts;
      })
  add_part-Inv n etag c tagged h v = record {
    entries = All-put (EntryInRange o T) n _ c.completed_parts (refl, tagged, h) v.entries;
    distinct = put-Distinct n _ c.completed_parts v.distinct;
    phases = v.phases;
    calls = v.calls;
  }

  pub part_outcome-Inv :
      (i slot : ℕ) (pool : Pool) (w : InFlight) (x : XhrOutcome) (c : Controller)
      → BringsTag T x
      → PartInRange o w.part
      → PhaseInRange o (transferring pool)
      → Inv o T c
      → Inv o T (part_outcome o i slot pool w x c)
  unfolding part_outcome
  part_outcome-Inv i slot pool w (reports loaded) c tagged hw h v = report_progress-Inv _ loaded c v
  part_outcome-Inv i slot pool w (resolves loaded etag) c tagged hw h v =
      resume-Inv i _ _ (next_part-PhaseInRange c.signal slot pool h) (
        report_progress-Inv _ loaded _
          (add_part-Inv w.part.part_number etag _ tagged hw (report_progress-Inv _ loaded c v)))
  part_outcome-Inv i slot pool w (rejects e) c tagged hw h v = part_failed-Inv i slot pool w e c h v
  part_outcome-Inv i slot pool w silent c tagged hw h v = v

  pub upload_missing_parts-Inv :
      (i : ℕ) (ps : List MultipartUploadPart) (c : Controller)
      → All (PartInRange o) ps
      → Inv o T c
      → Inv o T (upload_missing_parts o i ps c)
  unfolding upload_missing_parts
  upload_missing_parts-Inv i ps c h v =
      let sorted = All-sort_by (λ (p : MultipartUploadPart). p.part_number) (PartInRange o) ps h in
      resume-Inv i _ _
        (
          sorted,
          All-map (WorkerInRange o) (begin_worker c.signal) _ (All-take (PartInRange o) _ _ sorted),
        )
        (frame_Inv o T c _ refl refl refl v)
