-- ===== src/Service/Jobs/Reports.antt =====
-- core/services/job_service.py, lines 258-367: what the report of a job's owner does.
use rendition.Common.{
  ℕ, ◌+◌, String, Bool, true, false, not, Option, none, some, List, [], ◌∷◌, ◌≡◌, refl, sym, ap,
  ◌∙◌, arith, if_cases, option_cases, find?, string_eq, ==_refl, if◌then◌else◌, Bool-cases, inl,
  inr, subst,
}
use rendition.Api.{pending, running, done, failed}
use rendition.Service.{Job, Rendition, Video, Outcome, raises, returns, SourceMetadata}
use rendition.Service.Status.{is_empty}
use rendition.Service.Playback.{
  publish_master_playlist_if_ready, has_active_renditions, completed_renditions, upload_playlist,
  build_hls_master_playlist, build_hls_master_key,
}
use rendition.Service.Jobs.{has_job, with_rendition, owns_running_job}
use rendition.Service.Jobs.Finishing.{
  end_job, queued_message, succeeded, skipped_for, retried, given_up, should_retry, publish,
  publishing, apply_source_metadata, mark_encoding_job_succeeded, mark_encoding_job_skipped,
  mark_encoding_job_failed, retry_backoff_for_attempt,
}
use rendition.Service.Jobs.Database.{with_job}
use rendition.Service.Jobs.Changes.{found_id}
use rendition.Service.Jobs.Owners.{job_at, job_at_behind, job_at_front, find?-replace}

-- The transaction is undone, or it returns this and the job has become that.
abbrev pub Becomes : {A : Type 0} → Job → A → Job → Outcome A → Job → Type 0
Becomes job a new (raises e) job' = job' ≡ job
Becomes job a new (returns b) job' = (b ≡ a) × (job' ≡ new)

-- What has become of the job in the database.
abbrev pub After : {A : Type 0} → String → Job → A → Job → Outcome A × List Video → Type 0
After job_id job a new p =
    (job' : Job) × (job_at job_id p.1 ≡ some job') × Becomes job a new p.0 job'

abbrev RowAfter : {A : Type 0} → String → Job → A → Job → Outcome A × Video → Type 0
RowAfter job_id job a new p =
    (r : Rendition) × (find? (has_job job_id) p.1.renditions ≡ some r) × Becomes job a new p.0 r.job

with_job-After :
    {A : Type 0} (job_id : String) (job : Job) (a : A) (new : Job)
    (f : Video → Rendition → Outcome A × Video) (db : List Video)
    → ((v : Video) (r : Rendition)
        → find? (has_job job_id) v.renditions ≡ some r
        → r.job ≡ job
        → RowAfter job_id job a new (f v r))
    → job_at job_id db ≡ some job
    → After job_id job a new (with_job job_id f db)
unfolding with_job
with_job-After job_id job a new f [] h e = absurd (cc)
with_job-After {A} job_id job a new f (v ∷ vs) h e =
    option_cases (After job_id job a new) (find? (has_job job_id) v.renditions) _ _
      (λ q.
        let rest = with_job-After job_id job a new f vs h (sym (job_at_behind job_id v vs q) ∙ e) in
        (rest.0, job_at_behind job_id v (with_job job_id f vs).1 q ∙ rest.1, rest.2))
      (λ r q.
        let same : r.job ≡ job = ground (arith, job_at_front job_id v r vs q) in
        let row = h v r q same in (row.0.job, job_at_front job_id (f v r).1 row.0 vs row.1, row.2))

module _ (accepts : String → String → Bool) (job_id : String) (job : Job) (v : Video)
    (r : Rendition) (e : find? (has_job job_id) v.renditions ≡ some r) (same : r.job ≡ job) where
  replaced :
      {A : Type 0} (a : A) (r' : Rendition) (w : Video)
      → r'.job.id ≡ r.job.id
      → w.renditions ≡ v.renditions
      → RowAfter job_id job a r'.job (returns a, with_rendition r' w)
  unfolding with_rendition
  replaced a r' w same_id rows = (
    r',
    find?-replace job_id r' w.renditions r (same_id ∙ found_id job_id v.renditions r e)
        (ap (find? (has_job job_id)) rows ∙ e),
    (refl, refl),
  )

  published :
      {A : Type 0} (a : A) (r' : Rendition) (w : Video)
      → r'.job.id ≡ r.job.id
      → w.renditions ≡ v.renditions
      → RowAfter job_id job a r'.job (publish accepts a v (with_rendition r' w))
  unfolding publish_master_playlist_if_ready
  published a r' w same_id rows =
      if_cases P (has_active_renditions w'.renditions) _ _ (λ _. row)
        λ _.
          if_cases P (is_empty (completed_renditions w'.renditions)) _ _ (λ _. row)
            (λ _. uploaded (build_hls_master_playlist w'.id (completed_renditions w'.renditions)))
    where
      w' : Video
      w' = with_rendition r' w

      P : Outcome Video → Type 0
      P o = RowAfter job_id job a r'.job (publishing a v o)

      row : RowAfter job_id job a r'.job (returns a, w')
      row = replaced a r' w same_id rows

      uploaded : (playlist : Outcome String) → P (upload_playlist accepts playlist w')
      uploaded (raises err) = (r, e, same)
      uploaded (returns playlist) =
          if_cases P (accepts (build_hls_master_key w'.id) playlist) _ _ (λ _. row)
            (λ _. (r, e, same))

owned :
    (job : Job) (worker : String)
    → job.status ≡ running
    → job.worker_id ≡ some worker
    → owns_running_job job worker ≡ true
unfolding owns_running_job
owned job worker busy owner = simp (busy, owner) (==_refl worker)

-- The job once its attempt is lost.
abbrev pub lost_attempt : List ℕ → ℕ → String → Job → Job
lost_attempt backoffs now error job =
    if should_retry job
    then record (end_job now pending (some error) job) {
      next_run_at = some (now + retry_backoff_for_attempt backoffs job.attempt_count);
      outbox_message = some (queued_message now job.outbox_message);
    }
    else end_job now failed (some error) job

as_found :
    {A : Type 0} (job_id : String) (job : Job) (r : Rendition)
    → r.job ≡ job
    → (a : A) (new : Job → Job) (p : Outcome A × Video) → RowAfter job_id job a (new r.job) p
    → RowAfter job_id job a (new job) p
as_found job_id job r same a new p = subst (λ j. RowAfter job_id job a (new j) p) same

-- mark_encoding_job_failed for the owner
abbrev reported :
    (String → String → Bool)
    → List ℕ
    → ℕ
    → String
    → Video
    → Rendition
    → Outcome (Option Bool) × Video
reported accepts backoffs now reason v r =
    if should_retry r.job
    then (returns (some true), with_rendition (retried backoffs now reason r) v)
    else publish accepts (some false) v (with_rendition (given_up now reason r) v)

lost_row :
    (accepts : String → String → Bool) (backoffs : List ℕ) (now : ℕ) (reason job_id : String)
    (job : Job) (v : Video) (r : Rendition)
    → find? (has_job job_id) v.renditions ≡ some r
    → r.job ≡ job
    → RowAfter job_id job
        (some (should_retry r.job))
        (lost_attempt backoffs now reason r.job)
        (reported accepts backoffs now reason v r)
unfolding retried given_up
lost_row accepts backoffs now reason job_id job v r e same =
    elim (Bool-cases (should_retry r.job)) [
      | inl again ↦ simp again (
          replaced accepts job_id job v r e same (some true) (retried backoffs now reason r) v refl
            refl)
      | inr over ↦
          simp over (
            published accepts job_id job v r e same (some false) (given_up now reason r) v refl
              refl)
    ]

-- The reports of the worker that a job runs with. A success and a skip end the job as done; a failure
-- makes it wait for its next attempt, with a message and behind a delay, while attempts are left, and end
-- as failed otherwise, and is answered with which of the two it is. A report that raises is undone, and
-- leaves the job as it was.
pub owner_reports :
    (accepts : String → String → Bool) (backoffs : List ℕ) (db : List Video)
    (job_id worker : String) (job : Job) (now : ℕ) (path : Option String)
    (metadata : Option SourceMetadata) (reason : String)
    → job_at job_id db ≡ some job
    → job.status ≡ running
    → job.worker_id ≡ some worker
    → After job_id job true
        (end_job now done none job)
        (with_job job_id (mark_encoding_job_succeeded accepts now worker path metadata) db)
      × After job_id job true
          (end_job now done (some reason) job)
          (with_job job_id (mark_encoding_job_skipped accepts now worker reason metadata) db)
      × After job_id job
          (some (should_retry job))
          (lost_attempt backoffs now reason job)
          (with_job job_id (mark_encoding_job_failed accepts backoffs now worker reason) db)
unfolding mark_encoding_job_succeeded mark_encoding_job_skipped mark_encoding_job_failed succeeded
    skipped_for retried given_up
owner_reports accepts backoffs db job_id worker job now path metadata reason found busy owner = (
  with_job-After job_id job true (end_job now done none job) _ db
      (λ v r e same.
        if_cases (RowAfter job_id job true (end_job now done none job))
          (not (owns_running_job r.job worker)) _ _ (λ not_mine. absurd (disowns r same not_mine))
          λ _.
            as_found job_id job r same true (end_job now done none)
              (publish accepts true v
                (with_rendition (succeeded now path r) (apply_source_metadata metadata v)))
              (published accepts job_id job v r e same true (succeeded now path r)
                (apply_source_metadata metadata v) refl refl))
      found,
  with_job-After job_id job true (end_job now done (some reason) job) _ db
      (λ v r e same.
        if_cases (RowAfter job_id job true (end_job now done (some reason) job))
          (not (owns_running_job r.job worker)) _ _ (λ not_mine. absurd (disowns r same not_mine))
          λ _.
            as_found job_id job r same true (end_job now done (some reason))
              (publish accepts true v
                (with_rendition (skipped_for now reason r) (apply_source_metadata metadata v)))
              (published accepts job_id job v r e same true (skipped_for now reason r)
                (apply_source_metadata metadata v) refl refl))
      found,
  with_job-After job_id job (some (should_retry job)) (lost_attempt backoffs now reason job) _ db
      (λ v r e same.
        if_cases
          (RowAfter job_id job (some (should_retry job)) (lost_attempt backoffs now reason job))
          (not (owns_running_job r.job worker)) _ _ (λ not_mine. absurd (disowns r same not_mine))
          λ _.
            subst
              (λ j.
                RowAfter job_id job (some (should_retry j)) (lost_attempt backoffs now reason j)
                  (reported accepts backoffs now reason v r))
              same (lost_row accepts backoffs now reason job_id job v r e same))
      found,
)
  where
    disowns : (r : Rendition) → r.job ≡ job → not (owns_running_job r.job worker) ≡ true → ⊥
    disowns r same not_mine =
        let mine : owns_running_job r.job worker ≡ true =
          ap (λ j. owns_running_job j worker) same ∙ owned job worker busy owner in
        ground (arith, mine, not_mine)
