-- ===== src/Service/Jobs/Owners.antt =====
-- core/services/job_service.py, lines 170-220: the worker that a job has been handed out to, and the others.
use rendition.Common.{
  ℕ, String, Bool, false, ◌≢◌, not, ◌||◌, Option, none, some, List, [], ◌∷◌, ◌≡◌, refl, ap, ap₂,
  ◌∙◌, arith, if_cases, option_cases, find?, string_eq, ◌==◌, ==_refl, ◌≤◌,
}
use rendition.Service.{Job, Rendition, Video, Outcome, returns, SourceMetadata}
use rendition.Api.{running}
use rendition.Service.Jobs.{
  has_job, replace, is_claimable, has_exhausted_attempts, mark_job_running, build_encoding_context,
  EncodingJobContext, claim_encoding_job, with_rendition, heartbeat_encoding_job, owns_running_job,
}
use rendition.Service.Jobs.Finishing.{
  mark_encoding_job_succeeded, mark_encoding_job_skipped, mark_encoding_job_failed,
}
use rendition.Service.Jobs.Database.{with_job}
use rendition.Service.Jobs.Steps.{
  claim, heartbeat, succeed, skip, fail, Reply, claimed, updated, failed_with, step,
}
use rendition.Service.Jobs.Changes.{found_id}

-- The job that `_get_job_for_update` finds.
abbrev pub job_at : String → List Video → Option Job
job_at job_id [] = none
job_at job_id (v ∷ vs) = elim (find? (has_job job_id) v.renditions) [
  | none ↦ job_at job_id vs
  | some r ↦ some r.job
]

pub job_at_behind :
    (job_id : String) (v : Video) (ws : List Video)
    → find? (has_job job_id) v.renditions ≡ none
    → job_at job_id (v ∷ ws) ≡ job_at job_id ws
job_at_behind job_id v ws q = ground arith

pub job_at_front :
    (job_id : String) (v : Video) (r : Rendition) (ws : List Video)
    → find? (has_job job_id) v.renditions ≡ some r
    → job_at job_id (v ∷ ws) ≡ some r.job
job_at_front job_id v r ws q = ground arith

-- A transaction that leaves the video whenever it finds the job, and does not answer with `P`.
with_job-kept {ℓ κ} :
    {A : Type ℓ} (P : Outcome A → Type κ) (job_id : String)
    (f : Video → Rendition → Outcome A × Video) (job : Job) (db : List Video)
    → ((v : Video) (r : Rendition) → r.job ≡ job → P (f v r).0 × ((f v r).1 ≡ v))
    → job_at job_id db ≡ some job
    → P (with_job job_id f db).0 × ((with_job job_id f db).1 ≡ db)
unfolding with_job
with_job-kept P job_id f job [] h e = absurd (cc)
with_job-kept {A = A} P job_id f job (v ∷ vs) h e =
    option_cases (λ (p : Outcome A × List Video). P p.0 × (p.1 ≡ v ∷ vs))
      (find? (has_job job_id) v.renditions) _ _
      (λ q.
        let rest = with_job-kept P job_id f job vs h (ground (arith, q)) in
        (rest.0, ap (λ ws. v ∷ ws) rest.1))
      (λ r q. let row = h v r (ground (arith, q)) in (row.0, ap (λ w. w ∷ vs) row.1))

-- A transaction that leaves the job it finds and answers `a`, leaves the database and answers `a`.
with_job-same {ℓ} :
    {A : Type ℓ} (job_id : String) (f : Video → Rendition → Outcome A × Video) (job : Job)
    (a : Outcome A) (db : List Video)
    → ((v : Video) (r : Rendition) → r.job ≡ job → ((f v r).0 ≡ a) × ((f v r).1 ≡ v))
    → job_at job_id db ≡ some job
    → with_job job_id f db ≡ (a, db)
with_job-same job_id f job a db h e =
    let kept = with_job-kept (λ o. o ≡ a) job_id f job db h e in ap₂ (λ o vs. (o, vs)) kept.0 kept.1

abbrev Withheld : Outcome (Option EncodingJobContext) → Type 0
Withheld o = (context : EncodingJobContext) → o ≢ returns (some context)

-- A job that runs is not handed out.
claim-Withheld :
    (now : ℕ) (video_id rendition_id claimer : String) (v : Video) (r : Rendition)
    → r.job.status ≡ running
    → Withheld (claim_encoding_job now video_id rendition_id claimer v r).0
      × ((claim_encoding_job now video_id rendition_id claimer v r).1 ≡ v)
unfolding claim_encoding_job is_claimable
claim-Withheld now video_id rendition_id claimer v r busy =
    let waits : is_claimable now r.job ≡ false = ground (arith, busy) in
    if_cases (λ (p : Outcome (Option EncodingJobContext) × Video). Withheld p.0 × (p.1 ≡ v))
      (not (v.id == video_id) || not (r.id == rendition_id)) _ _ (λ _. (λ c q. absurd (cc), refl))
      λ _. simp waits (λ c q. absurd (cc), refl)

-- The other worker does not have the job.
disowned :
    (job : Job) (worker other : String)
    → job.worker_id ≡ some worker
    → (worker == other) ≡ false
    → owns_running_job job other ≡ false
unfolding owns_running_job
disowned job worker other owner differ = simp (owner, differ) (ground arith)

abbrev reply_with : {A : Type 0} → (Outcome A → Reply) → Outcome A × List Video → Reply × List Video
reply_with f p = (f p.0, p.1)

module _ (accepts : String → String → Bool) (backoffs : List ℕ) (db : List Video)
    (job_id worker : String) (job : Job) (found : job_at job_id db ≡ some job)
    (busy : job.status ≡ running) (owner : job.worker_id ≡ some worker) where
  -- While a job runs, it is not handed out again, to whomever and whenever: no claim returns a context, and
  -- none changes anything in the database. Nor does a report of another worker on the job change anything: a
  -- heartbeat, a success and a skip answer that nothing was updated, and a failure that the job is not the
  -- worker's.
  pub run_excludes_others :
      (now : ℕ) (video_id rendition_id other reason : String) (path : Option String)
      (metadata : Option SourceMetadata)
      → (worker == other) ≡ false
      → ((claimer : String)
          → ((context : EncodingJobContext)
              → (step accepts backoffs (claim now job_id video_id rendition_id claimer) db).0
                ≢ claimed (returns (some context)))
            × ((step accepts backoffs (claim now job_id video_id rendition_id claimer) db).1 ≡ db))
        × (step accepts backoffs (heartbeat now job_id other) db ≡ (updated (returns false), db))
        × (step accepts backoffs (succeed now job_id other path metadata) db
            ≡ (updated (returns false), db))
        × (step accepts backoffs (skip now job_id other reason metadata) db
            ≡ (updated (returns false), db))
        × (step accepts backoffs (fail now job_id other reason) db
            ≡ (failed_with (returns none), db))
  unfolding step heartbeat_encoding_job mark_encoding_job_succeeded mark_encoding_job_skipped
      mark_encoding_job_failed
  run_excludes_others now video_id rendition_id other reason path metadata differ =
      let none_owned = disowned job worker other owner differ in
      (
        λ claimer.
            let kept =
              with_job-kept Withheld job_id (claim_encoding_job now video_id rendition_id claimer)
                job db
                (λ v r e.
                  claim-Withheld now video_id rendition_id claimer v r
                    (ap (λ (j : Job). j.status) e ∙ busy))
                found in
            (λ context e. kept.0 context (cc), kept.1),
        ap (reply_with updated) (
            with_job-same job_id _ job (returns false) db
              (λ v r e. simp (e, none_owned) (refl, refl)) found),
        ap (reply_with updated) (
            with_job-same job_id _ job (returns false) db
              (λ v r e. simp (e, none_owned) (refl, refl)) found),
        ap (reply_with updated) (
            with_job-same job_id _ job (returns false) db
              (λ v r e. simp (e, none_owned) (refl, refl)) found),
        ap (reply_with failed_with) (
            with_job-same job_id _ job (returns none) db
              (λ v r e. simp (e, none_owned) (refl, refl)) found),
      )

pub find?-replace :
    (job_id : String) (r' : Rendition) (rs : List Rendition) (r : Rendition)
    → r'.job.id ≡ job_id
    → find? (has_job job_id) rs ≡ some r
    → find? (has_job job_id) (replace r' rs) ≡ some r'
find?-replace job_id r' [] r same e = cc
find?-replace job_id r' (x ∷ xs) r same e =
    ground (arith, find?-replace job_id r' xs r same, ==_refl job_id, same)

-- A transaction that hands the job out.
module _ (now : ℕ) (job_id video_id rendition_id worker : String) where
  abbrev IsGiven : EncodingJobContext → Job → Type 0
  IsGiven context job =
      (job.status ≡ running)
      × (job.worker_id ≡ some worker)
      × (job.attempt_count ≡ context.attempt_count)
      × (context.attempt_count ≤ context.max_attempts)

  abbrev RowGiven : Outcome (Option EncodingJobContext) × Video → Type 0
  RowGiven p =
      (context : EncodingJobContext)
      → p.0 ≡ returns (some context)
      → (r : Rendition) × (find? (has_job job_id) p.1.renditions ≡ some r) × IsGiven context r.job

  claim-RowGiven :
      (v : Video) (r : Rendition)
      → find? (has_job job_id) v.renditions ≡ some r
      → RowGiven (claim_encoding_job now video_id rendition_id worker v r)
  unfolding claim_encoding_job with_rendition mark_job_running build_encoding_context
      has_exhausted_attempts
  claim-RowGiven v r q =
      if_cases RowGiven (not (v.id == video_id) || not (r.id == rendition_id)) _ _
        (λ _ c e. absurd (cc))
        λ _.
          if_cases RowGiven (not (is_claimable now r.job)) _ _ (λ _ c e. absurd (cc))
            λ _.
              if_cases RowGiven (has_exhausted_attempts r.job) _ _ (λ _ c e. absurd (cc))
                λ under c e.
                  let r' = mark_job_running now worker r in
                  (
                    r',
                    find?-replace job_id r' v.renditions r (found_id job_id v.renditions r q) q,
                    (refl, refl, cc, ground arith),
                  )

  abbrev Given : Outcome (Option EncodingJobContext) × List Video → Type 0
  Given p =
      (context : EncodingJobContext)
      → p.0 ≡ returns (some context)
      → (job : Job) × (job_at job_id p.1 ≡ some job) × IsGiven context job

  claim-Given :
      (db : List Video)
      → Given (with_job job_id (claim_encoding_job now video_id rendition_id worker) db)
  unfolding with_job
  claim-Given [] = λ c e. absurd (cc)
  claim-Given (v ∷ vs) =
      option_cases Given (find? (has_job job_id) v.renditions) _ _
        (λ q c e.
          let h = claim-Given vs c e in
          (
            h.0,
            job_at_behind job_id v
                  (with_job job_id (claim_encoding_job now video_id rendition_id worker) vs).1 q
                ∙ h.1,
            h.2,
          ))
        (λ r q c e.
          let h = claim-RowGiven v r q c e in
          (
            h.0.job,
            job_at_front job_id (claim_encoding_job now video_id rendition_id worker v r).1 h.0 vs
                h.1,
            h.2,
          ))

-- A claim of a job that returns its context has made the job run, with the worker that claims it as its
-- owner and with one of its attempts: the number in the context, which is at most the maximum.
pub claim-owner :
    (accepts : String → String → Bool) (backoffs : List ℕ) (now : ℕ)
    (job_id video_id rendition_id worker : String) (db : List Video) (context : EncodingJobContext)
    → (step accepts backoffs (claim now job_id video_id rendition_id worker) db).0
      ≡ claimed (returns (some context))
    → (job : Job) × (job_at job_id
          (step accepts backoffs (claim now job_id video_id rendition_id worker) db).1
        ≡ some job)
      × (job.status ≡ running)
      × (job.worker_id ≡ some worker)
      × (job.attempt_count ≡ context.attempt_count)
      × (context.attempt_count ≤ context.max_attempts)
unfolding step
claim-owner accepts backoffs now job_id video_id rendition_id worker db context e =
    let g = claim-Given now job_id video_id rendition_id worker db context (cc) in
    (g.0, g.1, g.2.0, g.2.1, g.2.2, g.2.3)
