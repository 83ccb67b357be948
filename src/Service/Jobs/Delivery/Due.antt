-- ===== src/Service/Jobs/Delivery/Due.antt =====
-- core/services/outbox_service.py, lines 43-67: the jobs that a publication takes up, and what it so does to one.
use rendition.Common.{
  ℕ, zero, suc, ◌≤◌, String, Bool, true, false, ◌&&◌, ◌||◌, Option, none, some, List, [], ◌∷◌, ◌++◌,
  ◌≡◌, refl, sym, subst, ap, ◌∙◌, arith, map, option_cases, find?, string_eq, ◌==◌, ==_refl,
  if◌then◌else◌, Bool-cases, inl, inr, any, filter, take, length,
}
use rendition.Common.Sorting.{sort_by, length-sort_by, any-sort_by}
use rendition.Service.{Job, Rendition, Video}
use rendition.Service.Jobs.{has_job}
use rendition.Service.Jobs.Outbox.{
  Publisher, is_publishable, publishable_jobs, publish_pending_outbox_messages, created_at, no_ids,
}
use rendition.Service.Jobs.Database.{all_jobs}
use rendition.Service.Jobs.Changes.{found_id}
use rendition.Service.Jobs.Owners.{job_at, job_at_behind, job_at_front}
use rendition.Service.Jobs.Delivery.{map_job, delivered, is_for, publish_messages-own}

any-filter : (p q : Job → Bool) (xs : List Job) → any p (filter q xs) ≡ any (λ x. q x && p x) xs
any-filter p q [] = refl
any-filter p q (x ∷ xs) = ground (arith, any-filter p q xs)

any-◌++◌ : (p : Job → Bool) (xs ys : List Job) → any p (xs ++ ys) ≡ (any p xs || any p ys)
any-◌++◌ p [] ys = refl
any-◌++◌ p (x ∷ xs) ys = ground (arith, any-◌++◌ p xs ys)

any_found :
    (p : Job → Bool) (k : String) (rs : List Rendition) (r : Rendition)
    → find? (has_job k) rs ≡ some r
    → p r.job ≡ true
    → any p (map (λ (x : Rendition). x.job) rs) ≡ true
any_found p k [] r e h = absurd (cc)
any_found p k (x ∷ xs) r e h = elim (Bool-cases (x.job.id == k)) [
  | inl mine ↦
      let same : x ≡ r = ground arith in
      let holds : p x.job ≡ true = ap (λ (y : Rendition). p y.job) same ∙ h in simp holds refl
  | inr other ↦ let later = any_found p k xs r (ground arith) h in ground (arith, later)
]

-- The job that is found is one of the jobs.
any-all_jobs :
    (p : Job → Bool) (k : String) (db : List Video) (job : Job)
    → job_at k db ≡ some job
    → p job ≡ true
    → any p (all_jobs db) ≡ true
any-all_jobs p k [] job e h = absurd (cc)
any-all_jobs p k (v ∷ vs) job e h =
    any-◌++◌ p (map (λ (x : Rendition). x.job) v.renditions) (all_jobs vs)
    ∙ option_cases
        (λ (_ : Option Job).
          (any p (map (λ (x : Rendition). x.job) v.renditions) || any p (all_jobs vs)) ≡ true)
        (find? (has_job k) v.renditions) (some job) (λ r. some job)
        (λ q.
          let later = any-all_jobs p k vs job (sym (job_at_behind k v vs q) ∙ e) h in
          ground (arith, later))
        (λ r q.
          let same : r.job ≡ job = ground (arith, job_at_front k v r vs q) in
          let here = any_found p k v.renditions r q (ap p same ∙ h) in ground (arith, here))

any-take : (p : Job → Bool) (n : ℕ) (xs : List Job) → length xs ≤ n → any p (take n xs) ≡ any p xs
any-take p zero [] h = refl
any-take p zero (x ∷ xs) h = absurd (omega arith)
any-take p (suc n) [] h = refl
any-take p (suc n) (x ∷ xs) h = ap (λ b. if p x then true else b) (any-take p n xs (omega arith))

-- The job is among those asked for, or there are no more due than the limit.
abbrev pub IsAsked : ℕ → ℕ → Option (List String) → List Video → String → Type 0
IsAsked now limit none db k = length (filter (is_publishable now) (all_jobs db)) ≤ limit
IsAsked now limit (some ids) db k = any (λ id. id == k) ids ≡ true

any_chosen :
    (k : String) (ids : List String) (js : List Job)
    → any (λ id. id == k) ids ≡ true
    → any (is_for k) js ≡ true
    → any (is_for k) (filter (λ (job : Job). any (λ id. id == job.id) ids) js) ≡ true
any_chosen k ids [] asked e = absurd (cc)
any_chosen k ids (j ∷ js) asked e = elim (Bool-cases (j.id == k)) [
  | inl mine ↦
      let same : k ≡ j.id = sym ((string_eq.equals_iff j.id k).0 mine) in
      let kept : any (λ id. id == j.id) ids ≡ true =
        subst (λ i. any (λ id. id == i) ids ≡ true) same asked in
      simp kept (simp mine refl)
  | inr other ↦ let later = any_chosen k ids js asked (ground arith) in ground (arith, later, other)
]

module _ (now limit : ℕ) (db : List Video) (k : String) (job : Job) (found : job_at k db ≡ some job)
    (due : is_publishable now job ≡ true) (id : (job.id == k) ≡ true) where
  any_due :
      any (is_for k) (
        sort_by
          (λ (j : Job). created_at j.outbox_message)
          (filter (is_publishable now) (all_jobs db)))
      ≡ true
  any_due =
      any-sort_by (λ (j : Job). created_at j.outbox_message) (is_for k)
        (filter (is_publishable now) (all_jobs db))
      ∙ any-filter (is_for k) (is_publishable now) (all_jobs db)
      ∙ any-all_jobs (λ j. is_publishable now j && is_for k j) k db job found
          (ground (arith, due, id))

  asked_for :
      (ids : Option (List String))
      → IsAsked now limit ids db k
      → any (is_for k) (publishable_jobs now limit ids db) ≡ true
  unfolding publishable_jobs
  asked_for none few =
      any-take (is_for k) limit _ (
        subst (λ n. n ≤ limit)
          (sym (
            length-sort_by (λ (j : Job). created_at j.outbox_message)
              (filter (is_publishable now) (all_jobs db))))
          few)
      ∙ any_due
  asked_for (some ids) asked = any_chosen k ids _ asked any_due

no_ids-IsAsked :
    (now limit : ℕ) (ids : Option (List String)) (db : List Video) (k : String)
    → IsAsked now limit ids db k
    → no_ids ids ≡ false
no_ids-IsAsked now limit none db k asked = refl
no_ids-IsAsked now limit (some []) db k asked = absurd (cc)
no_ids-IsAsked now limit (some (x ∷ xs)) db k asked = refl

job_at-id :
    (k : String) (db : List Video) (job : Job) → job_at k db ≡ some job → (job.id == k) ≡ true
job_at-id k [] job e = absurd (cc)
job_at-id k (v ∷ vs) job e =
    option_cases (λ (_ : Option Job). (job.id == k) ≡ true) (find? (has_job k) v.renditions)
      (some job) (λ r. some job) (λ q. job_at-id k vs job (sym (job_at_behind k v vs q) ∙ e))
      (λ r q.
        let same : r.job ≡ job = ground (arith, job_at_front k v r vs q) in
        ap (λ i. i == k) (sym (ap (λ (j : Job). j.id) same) ∙ found_id k v.renditions r q)
        ∙ ==_refl k)

pub publish_delivers :
    (now : ℕ) (publisher : Publisher) (limit : ℕ) (ids : Option (List String)) (db : List Video)
    (k : String) (job : Job)
    → publisher.opens ≡ none
    → publisher.closes ≡ none
    → publisher.publishes k ≡ none
    → job_at k db ≡ some job
    → is_publishable now job ≡ true
    → IsAsked now limit ids db k
    → job_at k (publish_pending_outbox_messages now publisher limit ids db).1
      ≡ some (delivered now job)
unfolding publish_pending_outbox_messages
publish_delivers now publisher limit ids db k job opens closes takes found due asked =
    let jobs = publishable_jobs now limit ids db in
    simp (no_ids-IsAsked now limit ids db k asked) (
      publish_messages-own now publisher opens closes k takes jobs db
        (asked_for now limit db k job found due (job_at-id k db job found) ids asked)
      ∙ ap (map_job (delivered now)) found)
