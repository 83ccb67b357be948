-- ===== src/Service/Jobs/Histories.antt =====
-- core/services/job_service.py, lines 170-410: whatever transactions come, each video has gone through
-- changes of one rendition at a time.
use rendition.Common.{
  ℕ, String, Bool, some, List, [], ◌∷◌, ◌≡◌, arith, if_cases, option_cases, All, find?,
}
use rendition.Service.{Job, Rendition, Video, Outcome}
use rendition.Service.Jobs.{has_job}
use rendition.Service.Jobs.Database.{with_job}
use rendition.Service.Jobs.Outbox.{
  Publisher, publish_message, publish_messages, publish_pending_outbox_messages, no_ids,
}
use rendition.Service.Jobs.Steps.{
  publish, is_stale, reap_one, reap_jobs, reap_stale_encoding_jobs, Event, claim, heartbeat,
  succeed, skip, fail, reap, step, run,
}
use rendition.Service.Jobs.Changes.{Change, stays}
use rendition.Service.Jobs.Transactions.{
  publish_message-Change, claim_encoding_job-Change, heartbeat_encoding_job-Change, reap_job-Change,
  succeeded-Change, skipped-Change, failed-Change,
}

-- Lists of the same length, with related elements in the same places.
pub data Pairwise {ℓ κ} {A : Type ℓ} (R : A → A → Type κ) : List A → List A → Type (ℓ ⊔ κ) where
  nil : Pairwise R [] []
  cons : {x y : A} {xs ys : List A} → R x y → Pairwise R xs ys → Pairwise R (x ∷ xs) (y ∷ ys)

-- Some steps, one after another.
pub data Star {ℓ κ} {A : Type ℓ} (R : A → A → Type κ) (x : A) : A → Type (ℓ ⊔ κ) where
  unmoved : Star R x x
  then_one : {y z : A} → Star R x y → R y z → Star R x z

module _ {ℓ κ} {A : Type ℓ} {R : A → A → Type κ} where
  pub Star-trans : {x y z : A} → Star R x y → Star R y z → Star R x z
  Star-trans h unmoved = h
  Star-trans h (then_one hs r) = then_one (Star-trans h hs) r

  pub Pairwise-refl : ((x : A) → R x x) → (xs : List A) → Pairwise R xs xs
  Pairwise-refl h [] = nil
  Pairwise-refl h (x ∷ xs) = cons (h x) (Pairwise-refl h xs)

  pub Pairwise-trans :
      ((x y z : A) → R x y → R y z → R x z)
      → {xs ys zs : List A} → Pairwise R xs ys
      → Pairwise R ys zs
      → Pairwise R xs zs
  Pairwise-trans h nil nil = nil
  Pairwise-trans h (cons r rs) (cons s ss) = cons (h _ _ _ r s) (Pairwise-trans h rs ss)

module _ {ℓ κ μ} {A : Type ℓ} {R : A → A → Type κ} {S : A → A → Type μ} where
  pub Pairwise-map :
      ((x y : A) → R x y → S x y) → {xs ys : List A} → Pairwise R xs ys → Pairwise S xs ys
  Pairwise-map h nil = nil
  Pairwise-map h (cons r rs) = cons (h _ _ r) (Pairwise-map h rs)

-- What every step keeps, holds of all elements afterwards.
pub Star-keeps {ℓ κ μ} :
    {A : Type ℓ} (R : A → A → Type κ) (P : A → Type μ)
    → ((x y : A) → R x y → P x → P y)
    → (x y : A) → Star R x y
    → P x
    → P y
Star-keeps R P f x _ unmoved h = h
Star-keeps R P f x _ (then_one {y} {z} hs r) h = f y z r (Star-keeps R P f x y hs h)

pub Pairwise-keeps {ℓ κ μ} :
    {A : Type ℓ} {R : A → A → Type κ} (P : A → Type μ)
    → ((x y : A) → R x y → P x → P y)
    → {xs ys : List A} → Pairwise R xs ys
    → All P xs
    → All P ys
Pairwise-keeps P f nil h = tt
Pairwise-keeps P f (cons r rs) h = (f _ _ r h.0, Pairwise-keeps P f rs h.1)

abbrev pub Changes : List Video → List Video → Type 0
Changes = Pairwise (Star Change)

Changes-refl : (db : List Video) → Changes db db
Changes-refl = Pairwise-refl (λ v. unmoved)

-- A transaction on one job.
with_job-Changes {ℓ} :
    {A : Type ℓ} (job_id : String) (f : Video → Rendition → Outcome A × Video) (db : List Video)
    → ((v : Video) (r : Rendition)
        → find? (has_job job_id) v.renditions ≡ some r
        → Change v (f v r).1)
    → Changes db (with_job job_id f db).1
unfolding with_job
with_job-Changes {A = A} job_id f [] h = nil
with_job-Changes {A = A} job_id f (v ∷ vs) h =
    option_cases (λ (p : Outcome A × List Video). Changes (v ∷ vs) p.1)
      (find? (has_job job_id) v.renditions) _ _ (λ _. cons unmoved (with_job-Changes job_id f vs h))
      (λ r e. cons (then_one unmoved (h v r e)) (Changes-refl vs))

module _ (backoffs : List ℕ) where
  reap_jobs-Changes :
      (now stale_before : ℕ) (jobs : List Job) (db : List Video)
      → Changes db (reap_jobs backoffs now stale_before jobs db)
  unfolding reap_jobs is_stale
  reap_jobs-Changes now stale_before [] db = Changes-refl db
  reap_jobs-Changes now stale_before (job ∷ jobs) db =
      Pairwise-trans (λ _ _ _. Star-trans)
        (with_job-Changes job.id (reap_one backoffs now stale_before) db λ v r e.
          if_cases (λ (p : Outcome Bool × Video). Change v p.1) (is_stale stale_before r.job) _ _
            (λ stale. reap_job-Change job.id v r e backoffs now (ground arith)) (λ _. stays))
        (reap_jobs-Changes now stale_before jobs _)

publish_messages-Changes :
    (now : ℕ) (publisher : Publisher) (jobs : List Job) (db : List Video)
    → Changes db (publish_messages now publisher jobs db)
unfolding publish_messages
publish_messages-Changes now publisher [] db = Changes-refl db
publish_messages-Changes now publisher (job ∷ jobs) db =
    Pairwise-trans (λ _ _ _. Star-trans)
      (with_job-Changes job.id (publish_message now publisher job.id) db
        λ v r e. publish_message-Change job.id v r e now publisher)
      (publish_messages-Changes now publisher jobs _)

module _ (accepts : String → String → Bool) (backoffs : List ℕ) where
  pub step-Changes : (ev : Event) (db : List Video) → Changes db (step accepts backoffs ev db).1
  unfolding step reap_stale_encoding_jobs publish_pending_outbox_messages
  step-Changes (claim now j a b w) db =
      with_job-Changes j _ db λ v r e. claim_encoding_job-Change j v r e now a b w
  step-Changes (heartbeat now j w) db =
      with_job-Changes j _ db λ v r e. heartbeat_encoding_job-Change j v r e now w
  step-Changes (succeed now j w path m) db =
      with_job-Changes j _ db λ v r e. succeeded-Change j v r e accepts now w path m
  step-Changes (skip now j w reason m) db =
      with_job-Changes j _ db λ v r e. skipped-Change j v r e accepts now w reason m
  step-Changes (fail now j w error) db =
      with_job-Changes j _ db λ v r e. failed-Change j v r e accepts backoffs now w error
  step-Changes (reap now stale_before limit) db = reap_jobs-Changes backoffs now stale_before _ db
  step-Changes (publish now publisher limit ids) db =
      if_cases (λ (p : ℕ × List Video). Changes db p.1) (no_ids ids) _ _ (λ _. Changes-refl db)
        (λ _. publish_messages-Changes now publisher _ db)

  pub run-Changes :
      (evs : List Event) (db : List Video) → Changes db (run accepts backoffs evs db).1
  unfolding run
  run-Changes [] db = Changes-refl db
  run-Changes (ev ∷ evs) db =
      Pairwise-trans (λ _ _ _. Star-trans) (step-Changes ev db) (run-Changes evs _)

  -- What every change of a video keeps, holds of all videos whatever transactions come.
  pub run-keeps {ℓ} :
      (P : Video → Type ℓ)
      → ((v w : Video) → Change v w → P v → P w)
      → (evs : List Event) (db : List Video) → All P db
      → All P (run accepts backoffs evs db).1
  run-keeps P f evs db = Pairwise-keeps P (Star-keeps Change P f) (run-Changes evs db)

  pub step-keeps {ℓ} :
      (P : Video → Type ℓ)
      → ((v w : Video) → Change v w → P v → P w)
      → (ev : Event) (db : List Video) → All P db
      → All P (step accepts backoffs ev db).1
  step-keeps P f ev db = Pairwise-keeps P (Star-keeps Change P f) (step-Changes ev db)
