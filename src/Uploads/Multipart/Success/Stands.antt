-- ===== src/Uploads/Multipart/Success/Stands.antt =====
-- frontend/src/components/uploads/multipart-upload.ts, lines 222-301: what is kept while the requests of the
-- parts succeed. Each part number is completed, on its way or still to come, and never twice.
use rendition.Common.{
  ℕ, suc, ◌+◌, ◌≤◌, ◌<◌, String, false, not, ◌&&◌, some, List, [], ◌∷◌, ◌≡◌, refl, ap, ◌∙◌, arith,
  length, length-map, get_elem?, drop, if_cases, option_cases, nat_eq, ◌==◌, is_some, subst,
  ==_refl,
}
use rendition.Common.Maps.{get, put, values, length-put}
use rendition.Common.Sorting.{length-sort_by}
use rendition.Api.{CompletedPart}
use rendition.Api.Requests.{complete_video_upload}
use rendition.Uploads.Multipart.Cases.{parts_in_order}
use rendition.Uploads.Multipart.{
  Options, Controller, Output, call, InFlight, Pool, Phase, transferring, completing, part_count,
  set_run, present, complete_upload, join, resume, next_part, all_idle, has_failed,
}
use rendition.Uploads.Multipart.Pools.Ending.{busy, left, busy-set-none, busy-set-some, within}
use rendition.Uploads.Multipart.Success.{
  waits, flies, kept, flies-set-none, flies-set-some, waits-drop, kept-put, some_busy, behind,
  all_idle-busy, set_at,
}

module _ (o : Options) (i : ℕ) (id : String) where
  -- What is counted of a run with its pool.
  pub record IsCounted (pool : Pool) (c : Controller) : Type 0 where
    pub named : present c.video_id ≡ some id
    pub unfailed : c.failed_part_numbers ≡ []
    pub going : pool.rejected ≡ false
    pub drained : busy pool.workers ≡ 0 → length pool.queue ≤ pool.next_index
    pub once :
        (n : ℕ)
        → kept n c.completed_parts
            + flies n pool.workers
            + waits n (drop pool.next_index pool.queue)
          ≤ 1
    pub complete : length c.completed_parts + left pool ≡ part_count o

  -- The run transfers parts, with `k` answers to come, or the upload is completed.
  pub data Stands (k : ℕ) (c : Controller) : Type 0 where
    sending :
        (pool : Pool)
        → get_elem? c.runs i ≡ some (transferring pool)
        → left pool ≡ k
        → 0 < left pool
        → IsCounted pool c
        → Stands k c
    sent :
        (ps : List CompletedPart) (log : List Output)
        → k ≡ 0
        → get_elem? c.runs i ≡ some completing
        → c.log ≡ call (complete_video_upload id ps) ∷ log
        → Stands k c

  joined :
      (pool : Pool) (c : Controller) (phase : Phase)
      → get_elem? c.runs i ≡ some phase
      → present c.video_id ≡ some id
      → c.failed_part_numbers ≡ []
      → length c.completed_parts ≡ part_count o
      → Stands 0 (join o i c)
  unfolding join complete_upload
  joined pool c phase run named unfailed full =
      let enough : length (parts_in_order c) ≡ part_count o =
        length-sort_by _ (values c.completed_parts) ∙ length-map _ c.completed_parts ∙ full in
      if_cases (Stands 0) (has_failed c) _ _ (λ some_failed. absurd (ground (arith, unfailed)))
        λ _.
          option_cases (Stands 0) (present c.video_id) _ _ (λ e. absurd (cc))
            λ v e.
              let same : v ≡ id = ground (arith, e) in
              if_cases (Stands 0) (not (length (parts_in_order c) == part_count o)) _ _
                (λ short. absurd (ground (arith, enough)))
                (λ _.
                  sent _ c.log refl (set_at c.runs i phase completing run)
                    (ap (λ u. call (complete_video_upload u (parts_in_order c)) ∷ c.log) same))

  pub resume-Stands :
      (pool : Pool) (c : Controller) (phase : Phase)
      → get_elem? c.runs i ≡ some phase
      → IsCounted pool c
      → Stands (left pool) (resume o i pool c)
  unfolding resume
  resume-Stands pool c phase run k =
      let at = set_at c.runs i phase (transferring pool) run in
      if_cases (Stands (left pool)) (all_idle pool.workers && not pool.rejected) _ _
        (λ over.
          let idle : busy pool.workers ≡ 0 = ground (arith, all_idle-busy pool.workers) in
          let empty : 0 ≡ left pool = omega (arith, k.drained idle) in
          subst (λ n. Stands n (join o i (set_run i (transferring pool) c))) empty
            (joined pool (set_run i (transferring pool) c) (transferring pool) at k.named k.unfailed
              (omega (arith, k.complete))))
        (λ open_work.
          sending pool at refl (ground (arith, k.going, all_idle-busy pool.workers, open_work))
            (record {
              named = k.named;
              unfailed = k.unfailed;
              going = k.going;
              drained = k.drained;
              once = k.once;
              complete = k.complete;
            }))

  once_fresh :
      (pool : Pool) (slot : ℕ) (w : InFlight) (c : Controller)
      → get_elem? pool.workers slot ≡ some (some w)
      → IsCounted pool c
      → is_some (get w.part.part_number c.completed_parts) ≡ false
  once_fresh pool slot w c at k =
      let n = w.part.part_number in
      ground (arith, k.once n, flies-set-none n pool.workers slot w at, ==_refl n)

  -- The request of a worker has succeeded: its part is completed, and it takes the next one.
  pub next_part-IsCounted :
      (signal slot : ℕ) (pool : Pool) (w : InFlight) (part : CompletedPart) (c : Controller)
      → get_elem? pool.workers slot ≡ some (some w)
      → IsCounted pool c
      → IsCounted
          (next_part signal slot pool)
          (record c { completed_parts = put w.part.part_number part c.completed_parts })
        × (left (next_part signal slot pool) + 1 ≡ left pool)
  unfolding next_part
  next_part-IsCounted signal slot pool w done_part c at k =
      option_cases
        (λ p.
          IsCounted p
            (record c { completed_parts = put w.part.part_number done_part c.completed_parts })
          × (left p + 1 ≡ left pool))
        (get_elem? pool.queue pool.next_index) _ _
        (λ none_left.
          let out = behind pool.queue pool.next_index none_left in
          let fewer = busy-set-none pool.workers slot w at in
          (
            record {
              named = k.named;
              unfailed = k.unfailed;
              going = k.going;
              drained = λ _. out;
              once = λ n. omega (
                arith,
                k.once n,
                kept-put n m done_part c.completed_parts,
                flies-set-none n pool.workers slot w at,
              );
              complete = omega (arith, longer, fewer, k.complete);
            },
            omega (arith, fewer, out),
          ))
        (λ part there.
          let v : InFlight = record { part = part; signal = signal } in
          let as_many = busy-set-some pool.workers slot w v at in
          let inside = within pool.queue pool.next_index part there in
          (
            record {
              named = k.named;
              unfailed = k.unfailed;
              going = k.going;
              drained =
                  λ idle. absurd (omega (arith, as_many, some_busy pool.workers slot w at, idle));
              once = λ n. omega (
                arith,
                k.once n,
                kept-put n m done_part c.completed_parts,
                flies-set-some n pool.workers slot w v at,
                waits-drop n pool.queue pool.next_index part there,
                next_drop n,
              );
              complete = omega (arith, longer, as_many, inside, k.complete);
            },
            omega (arith, as_many, inside),
          ))
    where
      m : ℕ
      m = w.part.part_number

      longer : length (put m done_part c.completed_parts) ≡ suc (length c.completed_parts)
      longer = rw (length-put m done_part c.completed_parts, once_fresh pool slot w c at k) refl

      next_drop :
          (n : ℕ)
          → waits n (drop (pool.next_index + 1) pool.queue)
            ≡ waits n (drop (suc pool.next_index) pool.queue)
      next_drop n =
          let e : pool.next_index + 1 ≡ suc pool.next_index = omega arith in
          ap (λ d. waits n (drop d pool.queue)) e
