-- ===== src/Service/Jobs/Delivery.antt =====
-- core/services/outbox_service.py, lines 37-101: the jobs whose messages the broker takes.
pub mod Due
use rendition.Common.{
  ℕ, zero, suc, ◌≤◌, String, Bool, true, false, ◌&&◌, ◌||◌, Option, none, some, List, [], ◌∷◌, ◌++◌,
  ◌≡◌, refl, sym, subst, ap, ◌∙◌, arith, map, if_cases, option_cases, find?, string_eq, ◌==◌,
  ==_refl, if◌then◌else◌, Bool-cases, inl, inr, any, filter, take, length, leb,
}
use rendition.Common.Sorting.{sort_by, length-sort_by, any-sort_by}
use rendition.Service.{OutboxMessage, Job, Rendition, Video, Outcome}
use rendition.Service.Jobs.{has_job, replace}
use rendition.Service.Jobs.Outbox.{
  Publisher, is_publishable, publishable_jobs, message_after, map_message, with_message,
  publish_message, publish_messages, publish_pending_outbox_messages, after, in_loop, in_session,
  created_at, published_message, no_ids,
}
use rendition.Service.Jobs.Database.{with_job, all_jobs}
use rendition.Service.Jobs.Changes.{found_id}
use rendition.Service.Jobs.Owners.{job_at, job_at_behind, job_at_front, find?-replace}

abbrev pub map_job : (Job → Job) → Option Job → Option Job
map_job f none = none
map_job f (some job) = some (f job)

abbrev rewritten : (OutboxMessage → OutboxMessage) → Job → Job
rewritten f job = record job { outbox_message = map_message f job.outbox_message }

-- The job once its message is with the broker.
abbrev pub delivered : ℕ → Job → Job
delivered now = rewritten (published_message now)

abbrev pub is_for : String → Job → Bool
is_for k job = job.id == k

find?-replace_other :
    (k : String) (new : Rendition) (rs : List Rendition)
    → (new.job.id == k) ≡ false
    → find? (has_job k) (replace new rs) ≡ find? (has_job k) rs
find?-replace_other k new [] differ = refl
find?-replace_other k new (r ∷ rs) differ = elim (Bool-cases (r.job.id == new.job.id)) [
  | inl e ↦
      let same : r.job.id ≡ new.job.id = (string_eq.equals_iff r.job.id new.job.id).0 e in
      let other : (r.job.id == k) ≡ false = ap (λ i. i == k) same ∙ differ in
      simp (e, differ, other) refl
  | inr e ↦ ground (arith, find?-replace_other k new rs differ)
]

module _ (now : ℕ) (publisher : Publisher) where
  -- One message concerns its own job only.
  publish_message-other :
      (j k : String) (db : List Video)
      → (j == k) ≡ false
      → job_at k (with_job j (publish_message now publisher j) db).1 ≡ job_at k db
  unfolding with_job
  publish_message-other j k [] differ = refl
  publish_message-other j k (v ∷ vs) differ =
      option_cases (λ (p : Outcome Bool × List Video). job_at k p.1 ≡ job_at k (v ∷ vs))
        (find? (has_job j) v.renditions) _ _
        (λ q. ground (arith, publish_message-other j k vs differ))
        (λ r q.
          let id : r.job.id ≡ j = found_id j v.renditions r q in
          let rows =
            find?-replace_other k (with_message (message_after now publisher j) r) v.renditions
              (ap (λ i. i == k) id ∙ differ) in
          ground (arith, rows))

  publish_message-own :
      (k : String) (db : List Video)
      → job_at k (with_job k (publish_message now publisher k) db).1
        ≡ map_job (rewritten (message_after now publisher k)) (job_at k db)
  unfolding with_job
  publish_message-own k [] = refl
  publish_message-own k (v ∷ vs) =
      option_cases
        (λ (p : Outcome Bool × List Video).
          job_at k p.1 ≡ map_job (rewritten (message_after now publisher k)) (job_at k (v ∷ vs)))
        (find? (has_job k) v.renditions) _ _ (λ q. ground (arith, publish_message-own k vs))
        (λ r q.
          let row =
            find?-replace k (with_message (message_after now publisher k) r) v.renditions r
              (found_id k v.renditions r q) q in
          ground (arith, row))

  publish_messages-other :
      (k : String) (jobs : List Job) (db : List Video)
      → any (is_for k) jobs ≡ false
      → job_at k (publish_messages now publisher jobs db) ≡ job_at k db
  unfolding publish_messages
  publish_messages-other k [] db none_for = refl
  publish_messages-other k (j ∷ js) db none_for =
      publish_messages-other k js (with_job j.id (publish_message now publisher j.id) db).1
        (ground arith)
      ∙ publish_message-other j.id k db (ground arith)

  module _ (opens : publisher.opens ≡ none) (closes : publisher.closes ≡ none) (k : String)
      (takes : publisher.publishes k ≡ none) where
    message_after-taken : message_after now publisher k ≡ published_message now
    unfolding message_after
    message_after-taken =
        ap (in_session now publisher k) opens
        ∙ ap (λ o m. after o (in_loop now (publisher.publishes k) m)) closes
        ∙ ap (in_loop now) takes

    delivered-twice :
        (o : Option Job)
        → map_job (delivered now) (map_job (delivered now) o) ≡ map_job (delivered now) o
    delivered-twice none = refl
    delivered-twice (some job) =
        ap (λ (m : Option OutboxMessage). some (record job { outbox_message = m }))
          (published_twice job.outbox_message)
      where
        published_twice :
            (m : Option OutboxMessage)
            → map_message (published_message now) (map_message (published_message now) m)
              ≡ map_message (published_message now) m
        published_twice none = refl
        published_twice (some m) = refl

    own :
        (j : String) (db : List Video)
        → (j == k) ≡ true
        → job_at k (with_job j (publish_message now publisher j) db).1
          ≡ map_job (delivered now) (job_at k db)
    own j db e =
        subst
          (λ i.
            job_at k (with_job i (publish_message now publisher i) db).1
            ≡ map_job (delivered now) (job_at k db))
          (sym ((string_eq.equals_iff j k).0 e))
          (publish_message-own k db
            ∙ ap (λ f. map_job (rewritten f) (job_at k db)) message_after-taken)

    pub publish_messages-own :
        (jobs : List Job) (db : List Video)
        → any (is_for k) jobs ≡ true
        → job_at k (publish_messages now publisher jobs db) ≡ map_job (delivered now) (job_at k db)
    unfolding publish_messages
    publish_messages-own [] db e = absurd (cc)
    publish_messages-own (j ∷ js) db e =
        let db' = (with_job j.id (publish_message now publisher j.id) db).1 in
        elim (Bool-cases (j.id == k)) [
          | inl mine ↦ elim (Bool-cases (any (is_for k) js)) [
            | inl again ↦
                publish_messages-own js db' again
                ∙ ap (map_job (delivered now)) (own j.id db mine)
                ∙ delivered-twice (job_at k db)
            | inr last ↦ publish_messages-other k js db' last ∙ own j.id db mine
          ]
          | inr other ↦
              publish_messages-own js db' (ground arith)
              ∙ ap (map_job (delivered now)) (publish_message-other j.id k db other)
        ]
