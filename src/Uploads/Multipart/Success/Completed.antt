-- ===== src/Uploads/Multipart/Success/Completed.antt =====
-- frontend/src/components/uploads/multipart-upload.ts, lines 167-301: an upload whose parts all succeed is
-- completed.
use rendition.Common.{
  ℕ, zero, suc, ◌+◌, ◌≤◌, String, false, some, List, [], ◌∷◌, ◌≡◌, refl, arith, length, get_elem?,
  take, drop, map, min, nat_eq, string_eq, ◌==◌, subst, ◌≢◌, All, Distinct, Bool-cases, inl, inr,
}
use rendition.Common.Sorting.{sort_by, length-sort_by, weigh-sort_by}
use rendition.Api.{MultipartUploadPart, CompletedPart, VideoCreateResponse}
use rendition.Api.Http.{ok}
use rendition.Api.Requests.{complete_video_upload}
use rendition.Uploads.Multipart.{
  Options, Controller, Output, call, Pool, Phase, creating, completing, part_count,
  create_multipart_upload_controller, present, resume, upload_missing_parts, emit, begin_worker,
  max_concurrent_part_uploads,
}
use rendition.Uploads.Multipart.Steps.{
  Event, start, start_upload, created, at_phase, create_answered, step, run,
}
use rendition.Uploads.Multipart.Pools.Ending.{busy, left}
use rendition.Uploads.Multipart.Success.{hit, waits, flies, kept}
use rendition.Uploads.Multipart.Success.Stands.{Stands, sending, sent, resume-Stands}
use rendition.Uploads.Multipart.Success.Served.{Serves, run-Stands}

begun-flies :
    (n signal k : ℕ) (ps : List MultipartUploadPart)
    → flies n (map (begin_worker signal) (take k ps)) + waits n (drop k ps) ≡ waits n ps
begun-flies n signal zero ps = omega arith
begun-flies n signal (suc k) [] = omega arith
begun-flies n signal (suc k) (p ∷ ps) = omega (arith, begun-flies n signal k ps)

begun-busy :
    (signal k : ℕ) (ps : List MultipartUploadPart)
    → busy (map (begin_worker signal) (take k ps)) ≡ min k (length ps)
begun-busy signal zero ps = omega arith
begun-busy signal (suc k) [] = omega arith
begun-busy signal (suc k) (p ∷ ps) = omega (arith, begun-busy signal k ps)

none_waits :
    (n : ℕ) (ps : List MultipartUploadPart) → All (λ p. p.part_number ≢ n) ps → waits n ps ≡ 0
none_waits n [] h = refl
none_waits n (p ∷ ps) h = ground (arith, none_waits n ps h.1, h.0)

waits_once :
    (n : ℕ) (ps : List MultipartUploadPart)
    → Distinct (λ (p : MultipartUploadPart). p.part_number) ps
    → waits n ps ≤ 1
waits_once n [] h = omega arith
waits_once n (p ∷ ps) h = elim (Bool-cases (p.part_number == n)) [
  | inl same ↦
      let e = (nat_eq.equals_iff p.part_number n).0 same in
      ground (arith, none_waits n ps (subst (λ m. All (λ q. q.part_number ≢ m) ps) e h.0), same)
  | inr other ↦ ground (arith, waits_once n ps h.1, other)
]

module _ (o : Options) (i : ℕ) where
  module _ (id : String) where
    started :
        (parts : List MultipartUploadPart) (c : Controller) (phase : Phase)
        → get_elem? c.runs i ≡ some phase
        → present c.video_id ≡ some id
        → c.completed_parts ≡ []
        → length parts ≡ part_count o
        → ((n : ℕ) → waits n parts ≤ 1)
        → Stands o i id (part_count o) (upload_missing_parts o i parts c)
    unfolding upload_missing_parts
    started parts c phase running named nothing_done full distinct =
        subst (λ n. Stands o i id n (resume o i pool c')) all_left
          (resume-Stands o i id pool c' phase running (record {
            named = named;
            unfailed = refl;
            going = refl;
            drained = λ idle. omega (arith, idle, busy_now);
            once = λ n.
                let empty : kept n c.completed_parts ≡ 0 = rw nothing_done refl in
                omega (
                  arith,
                  empty,
                  begun-flies n c.signal k queue,
                  weigh-sort_by (λ (p : MultipartUploadPart). p.part_number)
                      (λ (p : MultipartUploadPart). hit n p.part_number) parts,
                  distinct n,
                );
            complete = rw nothing_done (omega (arith, all_left));
          }))
      where
        queue : List MultipartUploadPart
        queue = sort_by (λ (p : MultipartUploadPart). p.part_number) parts

        k : ℕ
        k = min max_concurrent_part_uploads (length queue)

        c' : Controller
        c' = record c { failed_part_numbers = [] }

        pool : Pool
        pool = record {
          queue = queue;
          next_index = k;
          workers = map (begin_worker c.signal) (take k queue);
          rejected = false;
        }

        busy_now : busy pool.workers ≡ min k (length queue)
        busy_now = begun-busy c.signal k queue

        all_left : left pool ≡ part_count o
        all_left = omega (
          arith,
          busy_now,
          length-sort_by (λ (p : MultipartUploadPart). p.part_number) parts,
          full,
        )

  stands_sent :
      (id : String) (c : Controller)
      → Stands o i id 0 c
      → (get_elem? c.runs i ≡ some completing)
        × (ps : List CompletedPart) × (log : List Output) × (c.log
            ≡ call (complete_video_upload id ps) ∷ log)
  stands_sent id c (sending pool running count some_left counted) = absurd (omega arith)
  stands_sent id c (sent ps log none_left completing_now logged) = (completing_now, ps, log, logged)

module _ (o : Options) where
  -- The controller that has been started and answered.
  abbrev pub answered : VideoCreateResponse → Controller
  answered upload =
      run o (start ∷ created 0 (ok upload) ∷ []) (create_multipart_upload_controller o)

  -- An upload that is started, and is answered with an id and as many parts as it has, each once, is
  -- completed as soon as every part has succeeded: whatever the order in which the requests end and
  -- whatever progress they tell, after as many successes as there are parts the controller has called the
  -- service to complete the upload, and awaits the answer.
  pub successes_complete :
      (upload : VideoCreateResponse) (evs : List Event)
      → (upload.video_id == "") ≡ false
      → length upload.parts ≡ part_count o
      → Distinct (λ (p : MultipartUploadPart). p.part_number) upload.parts
      → Serves o 0 (part_count o) evs (answered upload)
      → let c = run o evs (answered upload) in
        (get_elem? c.runs 0 ≡ some completing)
        × (ps : List CompletedPart) × (log : List Output) × (c.log
            ≡ call (complete_video_upload upload.video_id ps) ∷ log)
  unfolding run step start_upload at_phase create_answered create_multipart_upload_controller emit
  successes_complete upload evs named full distinct served = stands_sent o 0 upload.video_id _ (
      run-Stands o 0 upload.video_id (part_count o) evs (answered upload) served (
        started o 0 upload.video_id upload.parts _ creating refl (simp named refl) refl full
          (λ n. waits_once n upload.parts distinct)))
