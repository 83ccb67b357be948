-- ===== src/Service/Jobs/Outbox.antt =====
-- core/services/outbox_service.py, lines 37-101: publishing the messages of jobs that wait. What the broker
-- answers is an argument: a session that cannot be opened or closed raises, as does a message that is not
-- taken.
use rendition.Common.{
  ℕ, suc, String, Bool, true, false, not, ◌&&◌, Option, none, some, List, [], ◌∷◌, take, filter,
  any, length, if◌then◌else◌, string_eq, ◌==◌, is_some,
}
use rendition.Common.Sorting.{sort_by}
use rendition.Service.{OutboxStatus, OutboxMessage, Job, Rendition, Video, Outcome, returns}
use rendition.Service.Status.{is_empty}
use rendition.Service.Jobs.{is_claimable, replace}
use rendition.Service.Jobs.Database.{with_job, all_jobs}

pub record Publisher : Type 0 where
  pub opens : Option String
  pub publishes : String → Option String
  pub closes : Option String

abbrev is_pending_message : Option OutboxMessage → Bool
is_pending_message none = false
is_pending_message (some m) = elim m.status [
  | OutboxStatus.pending ↦ true
  | OutboxStatus.published ↦ false
]

-- The filters of the query: the job waits and is due, which is `_is_claimable`.
unfoldable pub is_publishable : ℕ → Job → Bool
is_publishable now job = is_pending_message job.outbox_message && is_claimable now job

abbrev pub created_at : Option OutboxMessage → ℕ
created_at none = 0
created_at (some m) = m.created_at

abbrev chosen : ℕ → Option (List String) → List Job → List Job
chosen limit none jobs = take limit jobs
chosen limit (some ids) jobs = filter (λ (job : Job). any (λ id. id == job.id) ids) jobs

-- The messages go by the ids of their jobs.
unfoldable pub publishable_jobs : ℕ → ℕ → Option (List String) → List Video → List Job
publishable_jobs now limit ids db = chosen limit ids (
    sort_by (λ (job : Job). created_at job.outbox_message)
      (filter (is_publishable now) (all_jobs db)))

abbrev failed_attempt : String → OutboxMessage → OutboxMessage
failed_attempt error m = record m { attempt_count = suc m.attempt_count; last_error = some error }

abbrev pub published_message : ℕ → OutboxMessage → OutboxMessage
published_message now m = record m {
  status = OutboxStatus.published;
  published_at = some now;
  last_error = none;
}

abbrev pub after : Option String → OutboxMessage → OutboxMessage
after none m = m
after (some error) m = failed_attempt error m

abbrev pub in_loop : ℕ → Option String → OutboxMessage → OutboxMessage
in_loop now none m = published_message now m
in_loop now (some error) m = failed_attempt error m

abbrev pub in_session : ℕ → Publisher → String → Option String → OutboxMessage → OutboxMessage
in_session now publisher job_id none m =
    after publisher.closes (in_loop now (publisher.publishes job_id) m)
in_session now publisher job_id (some error) m = failed_attempt error m

-- What becomes of one message.
unfoldable pub message_after : ℕ → Publisher → String → OutboxMessage → OutboxMessage
message_after now publisher job_id m = in_session now publisher job_id publisher.opens m

abbrev pub map_message :
    (OutboxMessage → OutboxMessage) → Option OutboxMessage → Option OutboxMessage
map_message f none = none
map_message f (some m) = some (f m)

abbrev pub with_message : (OutboxMessage → OutboxMessage) → Rendition → Rendition
with_message f r = record r {
  job = record r.job { outbox_message = map_message f r.job.outbox_message };
}

abbrev pub publish_message : ℕ → Publisher → String → Video → Rendition → Outcome Bool × Video
publish_message now publisher job_id video r = (
  returns true,
  record video {
    renditions = replace (with_message (message_after now publisher job_id) r) video.renditions;
  },
)

unfoldable pub publish_messages : ℕ → Publisher → List Job → List Video → List Video
publish_messages now publisher [] db = db
publish_messages now publisher (job ∷ jobs) db =
    publish_messages now publisher jobs
      (with_job job.id (publish_message now publisher job.id) db).1

abbrev is_clean : Publisher → Bool
is_clean publisher = not (is_some publisher.opens) && not (is_some publisher.closes)

abbrev pub no_ids : Option (List String) → Bool
no_ids none = false
no_ids (some ids) = is_empty ids

unfoldable pub publish_pending_outbox_messages :
    ℕ → Publisher → ℕ → Option (List String) → List Video → ℕ × List Video
publish_pending_outbox_messages now publisher limit ids db =
    if no_ids ids
    then (0, db)
    else let jobs = publishable_jobs now limit ids db in
      (
        (if is_clean publisher
            then length (filter (λ (job : Job). not (is_some (publisher.publishes job.id))) jobs)
            else 0),
        publish_messages now publisher jobs db,
      )
