-- ===== src/Uploads/Multipart/Success.antt =====
-- frontend/src/components/uploads/multipart-upload.ts, lines 222-257: how often a part number stands in a queue,
-- among the parts on their way and among those that are completed.
pub mod Stands
pub mod Served
pub mod Completed
use rendition.Common.{
  ℕ, zero, suc, ◌+◌, ◌-◌, ◌≤◌, ◌<◌, String, Bool, true, false, not, ◌&&◌, Option, none, some, List,
  [], ◌∷◌, ◌≡◌, refl, sym, ap, ◌∙◌, arith, length, length-map, get_elem?, set, drop, if_cases,
  option_cases, if◌then◌else◌, nat_eq, ◌==◌, is_some, subst, ==_refl, Bool-cases, inl, inr,
}
use rendition.Common.Maps.{get, put, values, get-put, length-put}
use rendition.Common.Sorting.{sort_by, length-sort_by, weigh}
use rendition.Api.{MultipartUploadPart, CompletedPart}
use rendition.Api.Requests.{complete_video_upload}
use rendition.Uploads.Multipart.Cases.{parts_in_order}
use rendition.Uploads.Multipart.{
  Options, Controller, Output, call, InFlight, Pool, Phase, transferring, completing, part_count,
  set_run, present, complete_upload, join, resume, next_part, all_idle, is_idle, has_failed,
}
use rendition.Uploads.Multipart.Pools.Ending.{busy, left, busy-set-none, busy-set-some, within}

-- 1 if the numbers are the same.
abbrev pub hit : ℕ → ℕ → ℕ
hit n m = if m == n then 1 else 0

-- How often a part number stands in a queue, and among the parts on their way; whether it is completed.
abbrev pub waits : ℕ → List MultipartUploadPart → ℕ
waits n = weigh (λ p. hit n p.part_number)

abbrev pub flies : ℕ → List (Option InFlight) → ℕ
flies n [] = 0
flies n (none ∷ ws) = flies n ws
flies n (some w ∷ ws) = hit n w.part.part_number + flies n ws

abbrev pub kept : ℕ → List (ℕ × CompletedPart) → ℕ
kept n m = if is_some (get n m) then 1 else 0

pub flies-set-none :
    (n : ℕ) (ws : List (Option InFlight)) (slot : ℕ) (w : InFlight)
    → get_elem? ws slot ≡ some (some w)
    → flies n (set ws slot none) + hit n w.part.part_number ≡ flies n ws
flies-set-none n [] slot w e = cc
flies-set-none n (none ∷ ws) zero w e = cc
flies-set-none n (some v ∷ ws) zero w e = ground arith
flies-set-none n (none ∷ ws) (suc slot) w e = flies-set-none n ws slot w e
flies-set-none n (some v ∷ ws) (suc slot) w e = omega (arith, flies-set-none n ws slot w e)

pub flies-set-some :
    (n : ℕ) (ws : List (Option InFlight)) (slot : ℕ) (w v : InFlight)
    → get_elem? ws slot ≡ some (some w)
    → flies n (set ws slot (some v)) + hit n w.part.part_number
      ≡ flies n ws + hit n v.part.part_number
flies-set-some n [] slot w v e = cc
flies-set-some n (none ∷ ws) zero w v e = cc
flies-set-some n (some u ∷ ws) zero w v e = ground arith
flies-set-some n (none ∷ ws) (suc slot) w v e = flies-set-some n ws slot w v e
flies-set-some n (some u ∷ ws) (suc slot) w v e = omega (arith, flies-set-some n ws slot w v e)

pub waits-drop :
    (n : ℕ) (ps : List MultipartUploadPart) (k : ℕ) (p : MultipartUploadPart)
    → get_elem? ps k ≡ some p
    → waits n (drop k ps) ≡ hit n p.part_number + waits n (drop (suc k) ps)
waits-drop n [] k p e = cc
waits-drop n (q ∷ ps) zero p e = ground arith
waits-drop n (q ∷ ps) (suc k) p e = waits-drop n ps k p e

pub kept-put :
    (n m : ℕ) (part : CompletedPart) (parts : List (ℕ × CompletedPart))
    → kept n (put m part parts) ≤ hit n m + kept n parts
kept-put n m part parts = ground (arith, get-put m n part parts)

pub some_busy :
    (ws : List (Option InFlight)) (slot : ℕ) (w : InFlight)
    → get_elem? ws slot ≡ some (some w)
    → 0 < busy ws
some_busy ws slot w e = omega (arith, busy-set-none ws slot w e)

pub behind : (ps : List MultipartUploadPart) (k : ℕ) → get_elem? ps k ≡ none → length ps ≤ k
behind [] k e = omega arith
behind (p ∷ ps) zero e = cc
behind (p ∷ ps) (suc k) e = omega (arith, behind ps k e)

pub all_idle-busy : (ws : List (Option InFlight)) → all_idle ws ≡ (busy ws == 0)
all_idle-busy [] = refl
all_idle-busy (none ∷ ws) = all_idle-busy ws
all_idle-busy (some w ∷ ws) = ground arith

pub set_at {ℓ} :
    {A : Type ℓ} (xs : List A) (i : ℕ) (x y : A)
    → get_elem? xs i ≡ some x
    → get_elem? (set xs i y) i ≡ some y
set_at [] i x y e = cc
set_at (z ∷ zs) zero x y e = refl
set_at (z ∷ zs) (suc i) x y e = set_at zs i x y e
