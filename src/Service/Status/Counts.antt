-- ===== src/Service/Status/Counts.antt =====
-- core/services/job_service.py, lines 63-89: how many renditions have which status decides the video's.
use rendition.Common.{
  ℕ, ◌+◌, ◌≤◌, Bool, false, not, List, [], ◌∷◌, ◌≡◌, refl, arith, filter, any, length,
  if◌then◌else◌, nat_eq, ◌==◌,
}
use rendition.Api.{
  ProcessingStatus, uploading, uploaded, pending, running, partial, done, skipped, failed,
}
use rendition.Service.Status.{
  is_running, is_done, is_failed, is_skipped, is_empty, all, derive_video_status,
}

-- How many elements pass.
abbrev pub count {ℓ} : {A : Type ℓ} → (A → Bool) → List A → ℕ
count p [] = 0
count p (x ∷ xs) = (if p x then 1 else 0) + count p xs

-- A video without renditions waits. Otherwise it has failed if all are skipped, and is done if all others
-- are; a failure leaves it partial beside one that is done and failed otherwise; without a failure it
-- runs while one runs, is partial as soon as one is done, and waits else.
abbrev pub by_counts : ℕ → ℕ → ℕ → ℕ → ℕ → ProcessingStatus
by_counts total skipped_ones done_ones failed_ones running_ones =
    if total == 0
    then pending
    else if skipped_ones == total
    then failed
    else if skipped_ones + done_ones == total
    then done
    else if not (failed_ones == 0)
    then if done_ones == 0 then failed else partial
    else if not (running_ones == 0)
    then running
    else if done_ones == 0
    then pending
    else partial

abbrev available : List ProcessingStatus → List ProcessingStatus
available = filter (λ status. not (is_skipped status))

is_empty-length {ℓ} : {A : Type ℓ} (xs : List A) → is_empty xs ≡ (length xs == 0)
is_empty-length [] = refl
is_empty-length (x ∷ xs) = ground arith

any-available :
    (p : ProcessingStatus → Bool) (ss : List ProcessingStatus)
    → p skipped ≡ false
    → any p (available ss) ≡ not (count p ss == 0)
any-available p [] h = refl
any-available p (skipped ∷ ss) h = ground (arith, h, any-available p ss h)
any-available p (uploading ∷ ss) h = ground (arith, any-available p ss h)
any-available p (uploaded ∷ ss) h = ground (arith, any-available p ss h)
any-available p (pending ∷ ss) h = ground (arith, any-available p ss h)
any-available p (running ∷ ss) h = ground (arith, any-available p ss h)
any-available p (partial ∷ ss) h = ground (arith, any-available p ss h)
any-available p (done ∷ ss) h = ground (arith, any-available p ss h)
any-available p (failed ∷ ss) h = ground (arith, any-available p ss h)

count-le {ℓ} : {A : Type ℓ} (p : A → Bool) (xs : List A) → count p xs ≤ length xs
count-le p [] = omega arith
count-le p (x ∷ xs) = ground (arith, count-le p xs)

is_empty-available :
    (ss : List ProcessingStatus) → is_empty (available ss) ≡ (count is_skipped ss == length ss)
is_empty-available [] = refl
is_empty-available (skipped ∷ ss) = ground (arith, is_empty-available ss)
is_empty-available (uploading ∷ ss) = ground (arith, count-le is_skipped ss)
is_empty-available (uploaded ∷ ss) = ground (arith, count-le is_skipped ss)
is_empty-available (pending ∷ ss) = ground (arith, count-le is_skipped ss)
is_empty-available (running ∷ ss) = ground (arith, count-le is_skipped ss)
is_empty-available (partial ∷ ss) = ground (arith, count-le is_skipped ss)
is_empty-available (done ∷ ss) = ground (arith, count-le is_skipped ss)
is_empty-available (failed ∷ ss) = ground (arith, count-le is_skipped ss)

pub both_le : (ss : List ProcessingStatus) → count is_skipped ss + count is_done ss ≤ length ss
both_le [] = omega arith
both_le (s ∷ ss) = ground (arith, both_le ss)

all-available :
    (ss : List ProcessingStatus)
    → all is_done (available ss) ≡ (count is_skipped ss + count is_done ss == length ss)
all-available [] = refl
all-available (s ∷ ss) = ground (arith, all-available ss, both_le ss)

-- The status that the code derives is the one that the numbers of renditions in the states decide, so it
-- depends neither on their order nor on which rendition is in which state.
pub derive_by_counts :
    (ss : List ProcessingStatus)
    → derive_video_status ss
      ≡ by_counts
          (length ss)
          (count is_skipped ss)
          (count is_done ss)
          (count is_failed ss)
          (count is_running ss)
unfolding derive_video_status
derive_by_counts ss = ground (
  arith,
  is_empty-length ss,
  is_empty-available ss,
  all-available ss,
  any-available is_failed ss refl,
  any-available is_running ss refl,
  any-available is_done ss refl,
)
