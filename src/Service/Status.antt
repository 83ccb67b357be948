-- ===== src/Service/Status.antt =====
-- core/services/job_service.py, lines 63-89: the status of a video from those of its renditions.
pub mod Counts
use rendition.Common.{Bool, true, false, not, ◌≡◌, refl, List, [], ◌∷◌, filter, any, if◌then◌else◌}
use rendition.Api.{
  ProcessingStatus, uploading, uploaded, pending, running, partial, done, skipped, failed,
}

abbrev pub is_pending : ProcessingStatus → Bool
is_pending pending = true
is_pending _ = false

abbrev pub is_running : ProcessingStatus → Bool
is_running running = true
is_running _ = false

abbrev pub is_done : ProcessingStatus → Bool
is_done done = true
is_done _ = false

abbrev pub is_failed : ProcessingStatus → Bool
is_failed failed = true
is_failed _ = false

abbrev pub is_skipped : ProcessingStatus → Bool
is_skipped skipped = true
is_skipped _ = false

abbrev pub is_empty {ℓ} : {A : Type ℓ} → List A → Bool
is_empty [] = true
is_empty (x ∷ xs) = false

-- all(p(x) for x in xs)
abbrev pub all {ℓ} : {A : Type ℓ} → (A → Bool) → List A → Bool
all p xs = not (any (λ x. not (p x)) xs)

-- `available_statuses` is a set, of which only `all` and `any` are asked: a list serves.
unfoldable pub derive_video_status : List ProcessingStatus → ProcessingStatus
derive_video_status statuses =
    let available_statuses = filter (λ status. not (is_skipped status)) statuses in
    if is_empty statuses
    then pending
    else if is_empty available_statuses
    then failed
    else if all is_done available_statuses
    then done
    else if any is_failed available_statuses
    then if any is_done available_statuses then partial else failed
    else if any is_running available_statuses
    then running
    else if any is_done available_statuses
    then partial
    else pending

pub is_running-eq : (s : ProcessingStatus) → is_running s ≡ true → s ≡ running
is_running-eq running h = refl
is_running-eq uploading h = cc
is_running-eq uploaded h = cc
is_running-eq pending h = cc
is_running-eq partial h = cc
is_running-eq done h = cc
is_running-eq skipped h = cc
is_running-eq failed h = cc

pub is_pending-eq : (s : ProcessingStatus) → is_pending s ≡ true → s ≡ pending
is_pending-eq pending h = refl
is_pending-eq uploading h = cc
is_pending-eq uploaded h = cc
is_pending-eq running h = cc
is_pending-eq partial h = cc
is_pending-eq done h = cc
is_pending-eq skipped h = cc
is_pending-eq failed h = cc
