-- ===== src/Service/Jobs/Transactions.antt =====
-- core/services/job_service.py, lines 170-407: a transaction on a job leaves its video as it is, or turns the
-- one rendition of that job.
use rendition.Common.{
  ℕ, String, Bool, true, false, not, ◌||◌, Option, none, some, List, ◌≡◌, refl, sym, ◌∙◌, if_cases,
  arith, find?, ◌==◌, string_eq,
}
use mathlib.Core.Bool.{false≢true}
use rendition.Service.{Rendition, SourceMetadata, Video, Outcome, raises, returns}
use rendition.Service.Status.{is_running, is_empty}
use rendition.Service.Playback.{
  publish_master_playlist_if_ready, has_active_renditions, completed_renditions, upload_playlist,
  build_hls_master_playlist, build_hls_master_key,
}
use rendition.Service.Jobs.{
  has_job, with_rendition, is_claimable, has_exhausted_attempts, mark_job_attempts_exhausted,
  mark_job_running, claim_encoding_job, heartbeat_encoding_job, owns_running_job,
}
use rendition.Service.Jobs.Finishing.{
  succeeded, skipped_for, retried, given_up, should_retry, publish, publishing,
  mark_encoding_job_succeeded, mark_encoding_job_skipped, mark_encoding_job_failed, reap_job,
  apply_source_metadata,
}
use rendition.Service.Jobs.Outbox.{Publisher, publish_message, message_after, with_message}
use rendition.Service.Jobs.Changes.{
  queues, Turn, claims, exhausts, succeeds, skips, retries, gives_up, is_finished, IsPublished,
  Change, stays, beats, turns, beaten, replace-Replaced, found_id,
}

module _ (job_id : String) (v : Video) (r : Rendition)
    (e : find? (has_job job_id) v.renditions ≡ some r) where
  -- The rows of `with_rendition r' w`, with any playlist.
  turned :
      (r' : Rendition) (w : Video) (path : Option String)
      → r'.job.id ≡ r.job.id
      → Turn r r'
      → w.renditions ≡ v.renditions
      → (is_finished r'.status ≡ true
          → IsPublished (record (with_rendition r' w) { playback_path = path }))
      → Change v (record (with_rendition r' w) { playback_path = path })
  unfolding with_rendition
  turned r' w path same t rows h =
      turns r r' t
        (rw rows
          (replace-Replaced job_id v.renditions r r' e (same ∙ found_id job_id v.renditions r e)))
        refl h

  unfinished :
      (r' : Rendition)
      → r'.job.id ≡ r.job.id
      → Turn r r'
      → is_finished r'.status ≡ false
      → Change v (with_rendition r' v)
  unfolding with_rendition
  unfinished r' same t h =
      turned r' v v.playback_path same t refl (λ q. absurd (false≢true (sym h ∙ q)))

  abbrev Goes {ℓ} : {A : Type ℓ} → Outcome A × Video → Type 0
  Goes p = Change v p.1

  pub claim_encoding_job-Change :
      (now : ℕ) (video_id rendition_id worker_id : String)
      → Goes (claim_encoding_job now video_id rendition_id worker_id v r)
  unfolding claim_encoding_job mark_job_running mark_job_attempts_exhausted
  claim_encoding_job-Change now video_id rendition_id worker_id =
      if_cases Goes (not (v.id == video_id) || not (r.id == rendition_id)) _ _ (λ _. stays)
        λ _.
          if_cases Goes (not (is_claimable now r.job)) _ _ (λ _. stays)
            λ free.
              let f : is_claimable now r.job ≡ true = ground arith in
              if_cases Goes (has_exhausted_attempts r.job) _ _
                (λ over.
                  unfinished (mark_job_attempts_exhausted now r) refl (exhausts now f over) refl)
                (λ under.
                  unfinished (mark_job_running now worker_id r) refl (claims now worker_id f under)
                    refl)

  owns_is_running :
      (worker_id : String)
      → not (owns_running_job r.job worker_id) ≡ false
      → is_running r.job.status ≡ true
  unfolding owns_running_job
  owns_is_running worker_id h = ground arith

  pub heartbeat_encoding_job-Change :
      (now : ℕ) (worker_id : String) → Goes (heartbeat_encoding_job now worker_id v r)
  unfolding heartbeat_encoding_job
  heartbeat_encoding_job-Change now worker_id =
      if_cases Goes (not (owns_running_job r.job worker_id)) _ _ (λ _. stays)
        λ own.
          beats r now (owns_is_running worker_id own)
            (replace-Replaced job_id v.renditions r (beaten now r) e
              (found_id job_id v.renditions r e))
            refl refl

  pub publish_message-Change :
      (now : ℕ) (publisher : Publisher) → Goes (publish_message now publisher job_id v r)
  publish_message-Change now publisher =
      queues r (message_after now publisher job_id)
        (replace-Replaced job_id v.renditions r
          (with_message (message_after now publisher job_id) r) e
          (found_id job_id v.renditions r e))
        refl refl

  pub reap_job-Change :
      (backoffs : List ℕ) (now : ℕ)
      → is_running r.job.status ≡ true
      → Change v (reap_job backoffs now v r)
  unfolding reap_job retried given_up
  reap_job-Change backoffs now h =
      if_cases (λ r'. Change v (with_rendition r' v)) (should_retry r.job) _ _
        (λ more. unfinished _ refl (retries backoffs now _ h more) refl)
        (λ over. unfinished _ refl (gives_up now _ h over) refl)

  module _ (accepts : String → String → Bool) where
    -- The transaction is undone, or it leaves the video published.
    published {ℓ} :
        {A : Type ℓ} (a : A) (r' : Rendition) (w : Video)
        → r'.job.id ≡ r.job.id
        → Turn r r'
        → w.renditions ≡ v.renditions
        → Goes (publish accepts a v (with_rendition r' w))
    unfolding publish_master_playlist_if_ready with_rendition
    published a r' w same t rows =
        if_cases P (has_active_renditions w'.renditions) _ _
          (λ active.
            turned r' w w.playback_path same t rows
              (λ _ idle _. absurd (false≢true (sym idle ∙ active))))
          λ _.
            if_cases P (is_empty (completed_renditions w'.renditions)) _ _
              (λ empty.
                turned r' w none same t rows
                  (λ _ _ some_done. absurd (false≢true (sym some_done ∙ empty))))
              (λ _. uploaded (build_hls_master_playlist w'.id (completed_renditions w'.renditions)))
      where
        w' : Video
        w' = with_rendition r' w

        P : Outcome Video → Type 0
        P o = Goes (publishing a v o)

        uploaded : (playlist : Outcome String) → P (upload_playlist accepts playlist w')
        uploaded (raises err) = stays
        uploaded (returns playlist) =
            if_cases P (accepts (build_hls_master_key w'.id) playlist) _ _
              (λ _. turned r' w _ same t rows (λ _ _ _. refl)) (λ _. stays)

    pub succeeded-Change :
        (now : ℕ) (worker_id : String) (path : Option String) (metadata : Option SourceMetadata)
        → Goes (mark_encoding_job_succeeded accepts now worker_id path metadata v r)
    unfolding mark_encoding_job_succeeded succeeded
    succeeded-Change now worker_id path metadata =
        if_cases Goes (not (owns_running_job r.job worker_id)) _ _ (λ _. stays)
          λ own.
            published true (succeeded now path r) (apply_source_metadata metadata v) refl
              (succeeds now path (owns_is_running worker_id own)) refl

    pub skipped-Change :
        (now : ℕ) (worker_id reason : String) (metadata : Option SourceMetadata)
        → Goes (mark_encoding_job_skipped accepts now worker_id reason metadata v r)
    unfolding mark_encoding_job_skipped skipped_for
    skipped-Change now worker_id reason metadata =
        if_cases Goes (not (owns_running_job r.job worker_id)) _ _ (λ _. stays)
          λ own.
            published true (skipped_for now reason r) (apply_source_metadata metadata v) refl
              (skips now reason (owns_is_running worker_id own)) refl

    pub failed-Change :
        (backoffs : List ℕ) (now : ℕ) (worker_id error : String)
        → Goes (mark_encoding_job_failed accepts backoffs now worker_id error v r)
    unfolding mark_encoding_job_failed retried given_up
    failed-Change backoffs now worker_id error =
        if_cases Goes (not (owns_running_job r.job worker_id)) _ _ (λ _. stays)
          λ own.
            let busy = owns_is_running worker_id own in
            if_cases Goes (should_retry r.job) _ _
              (λ more.
                unfinished (retried backoffs now error r) refl
                  (retries backoffs now error busy more) refl)
              (λ over.
                published (some false) (given_up now error r) v refl (gives_up now error busy over)
                  refl)
