-- ===== src/Service/Jobs/Changes.antt =====
-- core/services/job_service.py, lines 92-407: the ways in which a transaction turns a rendition and its job,
-- with what the code has tested, and what it so does to a video.
use rendition.Common.{
  ℕ, String, Bool, true, false, ◌||◌, Option, some, List, [], ◌∷◌, ◌≡◌, subst, arith, find?, ◌==◌,
  string_eq, Bool-cases, inl, inr, is_some,
}
use rendition.Api.{ProcessingStatus}
use rendition.Service.{OutboxMessage, Rendition, Video, statuses}
use rendition.Service.Status.{derive_video_status, is_running, is_done, is_skipped, is_empty}
use rendition.Service.Playback.{has_active_renditions, completed_renditions}
use rendition.Service.Jobs.{
  has_job, replace, is_claimable, has_exhausted_attempts, mark_job_attempts_exhausted,
  mark_job_running,
}
use rendition.Service.Jobs.Outbox.{with_message}
use rendition.Service.Jobs.Finishing.{succeeded, skipped_for, retried, given_up, should_retry}

-- The first list with one `x` replaced by `y` is the second.
pub data Replaced {ℓ} {A : Type ℓ} (x y : A) : List A → List A → Type ℓ where
  here : {xs : List A} → Replaced x y (x ∷ xs) (y ∷ xs)
  there : {z : A} {xs ys : List A} → Replaced x y xs ys → Replaced x y (z ∷ xs) (z ∷ ys)

abbrev pub beaten : ℕ → Rendition → Rendition
beaten now r = record r { job = record r.job { heartbeat_at = some now } }

-- What becomes of a rendition and its job.
pub data Turn (r : Rendition) : Rendition → Type 0 where
  claims :
      (now : ℕ) (worker_id : String)
      → is_claimable now r.job ≡ true
      → has_exhausted_attempts r.job ≡ false
      → Turn r (mark_job_running now worker_id r)
  exhausts :
      (now : ℕ)
      → is_claimable now r.job ≡ true
      → has_exhausted_attempts r.job ≡ true
      → Turn r (mark_job_attempts_exhausted now r)
  succeeds :
      (now : ℕ) (path : Option String)
      → is_running r.job.status ≡ true
      → Turn r (succeeded now path r)
  skips :
      (now : ℕ) (reason : String)
      → is_running r.job.status ≡ true
      → Turn r (skipped_for now reason r)
  retries :
      (backoffs : List ℕ) (now : ℕ) (error : String)
      → is_running r.job.status ≡ true
      → should_retry r.job ≡ true
      → Turn r (retried backoffs now error r)
  gives_up :
      (now : ℕ) (error : String)
      → is_running r.job.status ≡ true
      → should_retry r.job ≡ false
      → Turn r (given_up now error r)

abbrev pub is_finished : ProcessingStatus → Bool
is_finished status = is_done status || is_skipped status

-- If no rendition is active and one can be played, then the video has a playlist.
abbrev pub IsPublished : Video → Type 0
IsPublished v =
    has_active_renditions v.renditions ≡ false
    → is_empty (completed_renditions v.renditions) ≡ false
    → is_some v.playback_path ≡ true

pub data Change (v : Video) : Video → Type 0 where
  stays : Change v v
  beats :
      {v' : Video} (r : Rendition) (now : ℕ)
      → is_running r.job.status ≡ true
      → Replaced r (beaten now r) v.renditions v'.renditions
      → v'.status ≡ v.status
      → v'.playback_path ≡ v.playback_path
      → Change v v'
  queues :
      {v' : Video} (r : Rendition) (f : OutboxMessage → OutboxMessage)
      → Replaced r (with_message f r) v.renditions v'.renditions
      → v'.status ≡ v.status
      → v'.playback_path ≡ v.playback_path
      → Change v v'
  turns :
      {v' : Video} (r r' : Rendition)
      → Turn r r'
      → Replaced r r' v.renditions v'.renditions
      → v'.status ≡ derive_video_status (statuses v'.renditions)
      → (is_finished r'.status ≡ true → IsPublished v')
      → Change v v'

find?-holds {ℓ} :
    {A : Type ℓ} (p : A → Bool) (xs : List A) (x : A) → find? p xs ≡ some x → p x ≡ true
find?-holds p [] x e = cc
find?-holds p (y ∷ ys) x e = ground (arith, find?-holds p ys x)

pub replace-Replaced :
    (job_id : String) (rs : List Rendition) (r r' : Rendition)
    → find? (has_job job_id) rs ≡ some r
    → r'.job.id ≡ job_id
    → Replaced r r' rs (replace r' rs)
replace-Replaced job_id [] r r' e same = cc
replace-Replaced job_id (x ∷ xs) r r' e same = elim (Bool-cases (x.job.id == job_id)) [
  | inl found ↦
      let first : x ≡ r = ground arith in
      simp (same, found) (subst (λ z. Replaced z r' (x ∷ xs) (r' ∷ xs)) first here)
  | inr other ↦
      let later : find? (has_job job_id) xs ≡ some r = ground arith in
      simp (same, other) (there (replace-Replaced job_id xs r r' later same))
]

-- The job that is found has the id that is looked for.
pub found_id :
    (job_id : String) (rs : List Rendition) (r : Rendition)
    → find? (has_job job_id) rs ≡ some r
    → r.job.id ≡ job_id
found_id job_id rs r e =
    (string_eq.equals_iff r.job.id job_id).0 (find?-holds (has_job job_id) rs r e)
