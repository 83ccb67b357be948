-- ===== src/Service/Jobs/Attempts.antt =====
-- core/services/job_service.py, lines 101-196: how often jobs are handed out.
use rendition.Common.{
  ℕ, ◌+◌, ◌-◌, ◌≤◌, String, Bool, not, ◌||◌, Option, some, List, [], ◌∷◌, ◌≡◌, arith, if_cases,
  option_cases, find?, string_eq, ◌==◌,
}
use rendition.Service.{Rendition, Video, Outcome, returns}
use rendition.Service.Jobs.{
  has_job, replace, is_claimable, has_exhausted_attempts, mark_job_attempts_exhausted,
  mark_job_running, EncodingJobContext, claim_encoding_job, with_rendition,
}
use rendition.Service.Jobs.Finishing.{succeeded, skipped_for, retried, given_up}
use rendition.Service.Jobs.Database.{with_job}
use rendition.Service.Jobs.Steps.{Event, claim, Reply, claimed, step, run}
use rendition.Service.Jobs.Changes.{
  Replaced, here, there, Turn, claims, exhausts, succeeds, skips, retries, gives_up, Change, stays,
  beats, queues, turns, replace-Replaced, found_id,
}
use rendition.Service.Jobs.Histories.{nil, cons, Star, unmoved, then_one, Changes, step-Changes}

-- Attempts that are left to the jobs of a video, and of all.
abbrev pub job_left : Rendition → ℕ
job_left r = r.job.max_attempts - r.job.attempt_count

abbrev pub rows_left : List Rendition → ℕ
rows_left [] = 0
rows_left (r ∷ rs) = job_left r + rows_left rs

abbrev pub attempts_left : List Video → ℕ
attempts_left [] = 0
attempts_left (v ∷ vs) = rows_left v.renditions + attempts_left vs

-- A reply that hands a job out.
abbrev contexts : Outcome (Option EncodingJobContext) → ℕ
contexts (returns (some context)) = 1
contexts _ = 0

abbrev hands : Reply → ℕ
hands (claimed o) = contexts o
hands _ = 0

abbrev pub handed_out : List Reply → ℕ
handed_out [] = 0
handed_out (r ∷ rs) = hands r + handed_out rs

Replaced-left :
    {r r' : Rendition} {rs rs' : List Rendition}
    → Replaced r r' rs rs'
    → rows_left rs' + job_left r ≡ rows_left rs + job_left r'
Replaced-left here = omega arith
Replaced-left (there q) = omega (arith, Replaced-left q)

Turn-left : {r r' : Rendition} → Turn r r' → job_left r' ≤ job_left r
unfolding mark_job_running mark_job_attempts_exhausted succeeded skipped_for retried given_up
Turn-left (claims now w free under) = omega arith
Turn-left (exhausts now free over) = omega arith
Turn-left (succeeds now path busy) = omega arith
Turn-left (skips now reason busy) = omega arith
Turn-left (retries backoffs now error busy again) = omega arith
Turn-left (gives_up now error busy over) = omega arith

Change-left : (v w : Video) → Change v w → rows_left w.renditions ≤ rows_left v.renditions
Change-left v _ stays = omega arith
Change-left v w (queues r f q same path) = omega (arith, Replaced-left q)
Change-left v w (beats r now busy q same path) = omega (arith, Replaced-left q)
Change-left v w (turns r r' t q status p) = omega (arith, Replaced-left q, Turn-left t)

Star-left : (v w : Video) → Star Change v w → rows_left w.renditions ≤ rows_left v.renditions
Star-left v _ unmoved = omega arith
Star-left v _ (then_one {y} {z} hs c) = omega (arith, Star-left v y hs, Change-left y z c)

Changes-left : {db db' : List Video} → Changes db db' → attempts_left db' ≤ attempts_left db
Changes-left nil = omega arith
Changes-left (cons {x} {y} h hs) = omega (arith, Star-left x y h, Changes-left hs)

abbrev Pays : Video → Outcome (Option EncodingJobContext) × Video → Type 0
Pays v p = contexts p.0 + rows_left p.1.renditions ≤ rows_left v.renditions

claim-Pays :
    (job_id : String) (now : ℕ) (video_id rendition_id worker_id : String) (v : Video)
    (r : Rendition)
    → find? (has_job job_id) v.renditions ≡ some r
    → Pays v (claim_encoding_job now video_id rendition_id worker_id v r)
unfolding claim_encoding_job with_rendition mark_job_running mark_job_attempts_exhausted
    has_exhausted_attempts
claim-Pays job_id now video_id rendition_id worker_id v r e =
    if_cases (Pays v) (not (v.id == video_id) || not (r.id == rendition_id)) _ _ (λ _. omega arith)
      λ _.
        if_cases (Pays v) (not (is_claimable now r.job)) _ _ (λ _. omega arith)
          λ _.
            if_cases (Pays v) (has_exhausted_attempts r.job) _ _
              (λ _. omega (
                arith,
                Replaced-left
                    (at (mark_job_attempts_exhausted now r) (found_id job_id v.renditions r e)),
              ))
              (λ under. ground (
                arith,
                Replaced-left
                    (at (mark_job_running now worker_id r) (found_id job_id v.renditions r e)),
              ))
  where
    at :
        (r' : Rendition) → r'.job.id ≡ job_id → Replaced r r' v.renditions (replace r' v.renditions)
    at r' same = replace-Replaced job_id v.renditions r r' e same

abbrev Paid : List Video → Outcome (Option EncodingJobContext) × List Video → Type 0
Paid db p = contexts p.0 + attempts_left p.1 ≤ attempts_left db

with_job-Paid :
    (job_id : String) (f : Video → Rendition → Outcome (Option EncodingJobContext) × Video)
    (db : List Video)
    → ((v : Video) (r : Rendition) → find? (has_job job_id) v.renditions ≡ some r → Pays v (f v r))
    → Paid db (with_job job_id f db)
unfolding with_job
with_job-Paid job_id f [] h = omega arith
with_job-Paid job_id f (v ∷ vs) h =
    option_cases (Paid (v ∷ vs)) (find? (has_job job_id) v.renditions) _ _
      (λ _. omega (arith, with_job-Paid job_id f vs h)) (λ r e. omega (arith, h v r e))

module _ (accepts : String → String → Bool) (backoffs : List ℕ) where
  step-Paid :
      (ev : Event) (db : List Video)
      → hands (step accepts backoffs ev db).0 + attempts_left (step accepts backoffs ev db).1
        ≤ attempts_left db
  unfolding step
  step-Paid (claim now j a b w) db = with_job-Paid j _ db (λ v r e. claim-Pays j now a b w v r e)
  step-Paid ev db = omega (arith, Changes-left (step-Changes accepts backoffs ev db))

  -- Each time that a job is handed out, an attempt is used, and no transaction gives one back: whatever
  -- transactions come, jobs are handed out at most as often as attempts were left at first, and as many
  -- are left at the end as were not used, or fewer.
  pub run_hands_out :
      (evs : List Event) (db : List Video)
      → handed_out (run accepts backoffs evs db).0 + attempts_left (run accepts backoffs evs db).1
        ≤ attempts_left db
  unfolding run
  run_hands_out [] db = omega arith
  run_hands_out (ev ∷ evs) db =
      omega (arith, step-Paid ev db, run_hands_out evs (step accepts backoffs ev db).1)
