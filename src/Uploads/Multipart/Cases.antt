-- ===== src/Uploads/Multipart/Cases.antt =====
-- A proof about `completeUpload` from what it does in each of its cases.
use rendition.Common.{
  String, ℕ, not, List, ◌≡◌, arith, length, nat_eq, ◌==◌, if_cases, option_cases,
}
use rendition.Common.Maps.{values}
use rendition.Common.Sorting.{sort_by}
use rendition.Api.{CompletedPart}
use rendition.Api.Requests.{complete_video_upload}
use rendition.Api.Http.{Failure}
use rendition.Uploads.Multipart.{
  Options, Controller, call, settled, completing, part_count, output, set_run, present, caught,
  complete_upload,
}

abbrev pub parts_in_order : Controller → List CompletedPart
parts_in_order c = sort_by (λ (p : CompletedPart). p.part_number) (values c.completed_parts)

abbrev pub sends : ℕ → String → List CompletedPart → Controller → Controller
sends i id ps c = output (call (complete_video_upload id ps)) (set_run i completing c)

pub complete_upload_cases {κ} :
    (P : Controller → Type κ) (o : Options) (i : ℕ) (c : Controller)
    → P (set_run i settled c)
    → ((e : Failure) → P (caught o i e c))
    → ((id : String)
        → length (parts_in_order c) ≡ part_count o
        → P (sends i id (parts_in_order c) c))
    → P (complete_upload o i c)
unfolding complete_upload
complete_upload_cases P o i c missing short full =
    option_cases P (present c.video_id) _ _ (λ _. missing)
      λ id _.
        if_cases P (not (length (parts_in_order c) == part_count o)) _
          (sends i id (parts_in_order c) c) (λ _. short _) (λ e. full id (ground (arith, e)))
