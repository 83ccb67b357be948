-- ===== src/Uploads/Multipart/Retry.antt =====
-- frontend/src/components/uploads/multipart-upload.ts, lines 190-252: which parts a retry sends.
use mathlib.Core.List.{Perm}
use rendition.Common.{
  ℕ, zero, suc, min, Bool, true, not, ◌&&◌, some, List, [], ◌∷◌, ◌≡◌, refl, sym, subst, length, All,
  get_elem?, set, map, take, filter, any, if_cases, Bool-cases, inl, inr, nat_eq, ◌==◌,
}
use rendition.Common.Sorting.{sort_by-perm, sort_by-IsAscending, IsAscending, All-sort_by}
use rendition.Api.{MultipartUploadPart, VideoCreateResponse}
use rendition.Api.Http.{ok, Failure}
use rendition.Uploads.Multipart.{
  Options, Controller, Pool, Phase, transferring, completing, settled, caught, emit, join, resume,
  upload_missing_parts, begin_worker, all_idle, has_failed,
}
use rendition.Uploads.Multipart.Cases.{complete_upload_cases}
use rendition.Uploads.Multipart.Steps.{refresh_answered}

pool_of :
    (ps : List Phase) (i : ℕ) (p q : Pool)
    → get_elem? (set ps i (transferring p)) i ≡ some (transferring q)
    → q ≡ p
pool_of [] i p q e = cc
pool_of (x ∷ ps) zero p q e = cc
pool_of (x ∷ ps) (suc i) p q e = pool_of ps i p q e

no_pool_settled :
    (ps : List Phase) (i : ℕ) (p q : Pool)
    → get_elem? (set ps i settled) i ≡ some (transferring q)
    → q ≡ p
no_pool_settled [] i p q e = cc
no_pool_settled (x ∷ ps) zero p q e = cc
no_pool_settled (x ∷ ps) (suc i) p q e = no_pool_settled ps i p q e

no_pool_completing :
    (ps : List Phase) (i : ℕ) (p q : Pool)
    → get_elem? (set ps i completing) i ≡ some (transferring q)
    → q ≡ p
no_pool_completing [] i p q e = cc
no_pool_completing (x ∷ ps) zero p q e = cc
no_pool_completing (x ∷ ps) (suc i) p q e = no_pool_completing ps i p q e

module _ (o : Options) (i : ℕ) (p : Pool) where
  -- If the run transfers parts, then with this pool.
  abbrev OnlyPool : Controller → Type 0
  OnlyPool c = (q : Pool) → get_elem? c.runs i ≡ some (transferring q) → q ≡ p

  caught-OnlyPool : (e : Failure) (c : Controller) → OnlyPool (caught o i e c)
  unfolding caught emit
  caught-OnlyPool e c =
      if_cases OnlyPool c.aborted _ _ (λ _. no_pool_settled c.runs i p)
        (λ _. no_pool_settled c.runs i p)

  join-OnlyPool : (c : Controller) → OnlyPool (join o i c)
  unfolding join
  join-OnlyPool c =
      if_cases OnlyPool (has_failed c) _ _ (λ _. caught-OnlyPool _ c)
        λ _.
          complete_upload_cases OnlyPool o i c (no_pool_settled c.runs i p)
            (λ e. caught-OnlyPool e c) (λ id full. no_pool_completing c.runs i p)

  resume-OnlyPool : (c : Controller) → OnlyPool (resume o i p c)
  unfolding resume
  resume-OnlyPool c =
      if_cases OnlyPool (all_idle p.workers && not p.rejected) _ _ (λ _. join-OnlyPool _)
        (λ _. pool_of c.runs i p)

filter-All :
    (f : MultipartUploadPart → Bool) (ps : List MultipartUploadPart)
    → All (λ p. f p ≡ true) (filter f ps)
filter-All f [] = tt
filter-All f (p ∷ ps) = elim (Bool-cases (f p)) [
  | inl e ↦ rw e (e, filter-All f ps)
  | inr e ↦ rw e (filter-All f ps)
]

-- The part is one of those that had failed.
abbrev pub had_failed : Controller → MultipartUploadPart → Bool
had_failed c p = any (λ n. n == p.part_number) c.failed_part_numbers

-- If a retry's run, once the service has answered, transfers parts, then its queue has just those of the
-- listed parts that had failed, the lowest numbers first, and the first three of them are on their way.
pub refresh_answered-resends :
    (o : Options) (i : ℕ) (upload : VideoCreateResponse) (c : Controller) (pool : Pool)
    → get_elem? (refresh_answered o i (ok upload) c).runs i ≡ some (transferring pool)
    → Perm pool.queue (filter (had_failed c) upload.parts)
      × All (λ p. had_failed c p ≡ true) pool.queue
      × IsAscending (λ (p : MultipartUploadPart). p.part_number) 0 pool.queue
      × (pool.workers ≡ map (begin_worker c.signal) (take (min 3 (length pool.queue)) pool.queue))
unfolding refresh_answered upload_missing_parts
refresh_answered-resends o i upload c pool e =
    let number = λ (p : MultipartUploadPart). p.part_number in
    let missing = filter (had_failed c) upload.parts in
    let same = resume-OnlyPool o i _ _ pool e in
    subst
      (λ q.
        Perm q.queue missing
        × All (λ p. had_failed c p ≡ true) q.queue
        × IsAscending (λ (p : MultipartUploadPart). p.part_number) 0 q.queue
        × (q.workers ≡ map (begin_worker c.signal) (take (min 3 (length q.queue)) q.queue)))
      (sym same)
      (
        sort_by-perm number missing,
        All-sort_by number _ missing (filter-All (had_failed c) upload.parts),
        sort_by-IsAscending number missing,
        refl,
      )
