-- ===== src/Uploads/Multipart/Success/Served.antt =====
-- frontend/src/components/uploads/multipart-upload.ts, lines 227-276: progress and success keep the count of
-- the parts.
use rendition.Common.{
  ℕ, suc, ◌<◌, String, Bool, false, ◌||◌, Option, none, some, List, [], ◌∷◌, ◌≡◌, refl, sym, ap,
  arith, length, get_elem?, if_cases, nat_eq, string_eq, ◌==◌, subst, ltb, leb,
}
use rendition.Uploads.Multipart.{
  Options, Controller, InFlight, Pool, transferring, next_part, emit, on_progress, on_load, reports,
  resolves, silent, part_blob, upload_part, etag_outcome,
}
use rendition.Uploads.Multipart.Steps.{
  Event, xhr, report_progress, part_outcome, xhr_event, at_phase, flatten_option, step, run,
}
use rendition.Uploads.Multipart.Pools.Ending.{left}
use rendition.Uploads.Multipart.Success.Stands.{
  IsCounted, Stands, sending, sent, resume-Stands, next_part-IsCounted,
}

module _ (o : Options) (i : ℕ) where
  -- Each event tells progress or is the success of a request on its way, with a status from 200 to
  -- 299 and an ETag; `k` are successes.
  pub data Serves : ℕ → List Event → Controller → Type 0 where
    all_served : {c : Controller} → Serves 0 [] c
    progress :
        {k : ℕ} {evs : List Event} {c : Controller} (slot : ℕ) (computable : Bool) (loaded : ℕ)
        → Serves k evs (step o (xhr i slot (on_progress computable loaded)) c)
        → Serves k (xhr i slot (on_progress computable loaded) ∷ evs) c
    success :
        {k : ℕ} {evs : List Event} {c : Controller} (slot status : ℕ) (etag : String) (pool : Pool)
        (w : InFlight)
        → get_elem? c.runs i ≡ some (transferring pool)
        → get_elem? pool.workers slot ≡ some (some w)
        → (ltb status 200 || leb 300 status) ≡ false
        → (etag == "") ≡ false
        → Serves k evs (step o (xhr i slot (on_load status (some etag))) c)
        → Serves (suc k) (xhr i slot (on_load status (some etag)) ∷ evs) c

  module _ (id : String) where
    -- What is counted reads neither progress nor rows.
    report_progress-IsCounted :
        (n loaded : ℕ) (pool : Pool) (c : Controller)
        → IsCounted o i id pool c
        → IsCounted o i id pool (report_progress o n loaded c)
    unfolding report_progress emit
    report_progress-IsCounted n loaded pool c k = record {
      named = k.named;
      unfailed = k.unfailed;
      going = k.going;
      drained = k.drained;
      once = k.once;
      complete = k.complete;
    }

    succeeded :
        (slot loaded : ℕ) (etag : String) (pool : Pool) (w : InFlight) (c : Controller)
        → get_elem? c.runs i ≡ some (transferring pool)
        → get_elem? pool.workers slot ≡ some (some w)
        → IsCounted o i id pool c
        → Stands o i id
            (left (next_part c.signal slot pool))
            (part_outcome o i slot pool w (resolves loaded etag) c)
    unfolding part_outcome report_progress emit
    succeeded slot loaded etag pool w c running at k =
        let d = report_progress o w.part.part_number loaded c in
        let k' =
          next_part-IsCounted o i id c.signal slot pool w
            (record { part_number = w.part.part_number; etag = etag }) d at
            (report_progress-IsCounted w.part.part_number loaded pool c k) in
        resume-Stands o i id (next_part c.signal slot pool) _ (transferring pool) running
          (report_progress-IsCounted w.part.part_number loaded _ _ k'.0)

    loads :
        (blob status : ℕ) (etag : String)
        → (ltb status 200 || leb 300 status) ≡ false
        → (etag == "") ≡ false
        → upload_part blob (on_load status (some etag)) ≡ resolves blob etag
    unfolding upload_part etag_outcome
    loads blob status etag good h = simp (good, h) refl

    same_pool :
        (p q : Pool) (c : Controller)
        → get_elem? c.runs i ≡ some (transferring p)
        → get_elem? c.runs i ≡ some (transferring q)
        → p ≡ q
    same_pool p q c e f = cc

    success-Stands :
        (k slot status : ℕ) (etag : String) (pool : Pool) (w : InFlight) (c : Controller)
        → get_elem? c.runs i ≡ some (transferring pool)
        → get_elem? pool.workers slot ≡ some (some w)
        → (ltb status 200 || leb 300 status) ≡ false
        → (etag == "") ≡ false
        → Stands o i id (suc k) c
        → Stands o i id k (step o (xhr i slot (on_load status (some etag))) c)
    unfolding step at_phase xhr_event
    success-Stands k slot status etag pool w c running at good tag
          (sent ps log none_left completing_now logged) =
        absurd (omega arith)
    success-Stands k slot status etag pool w c running at good tag
          (sending q running' count some_left counted) =
        let e : q ≡ pool = same_pool q pool c running' running in
        let counted' = subst (λ p. IsCounted o i id p c) e counted in
        let fewer =
          (next_part-IsCounted o i id c.signal slot pool w (record { part_number = 0; etag = "" }) c
            at counted').1 in
        let count' : left (next_part c.signal slot pool) ≡ k =
          omega (arith, fewer, count, e_left e) in
        let blob = part_blob o.file w.part.part_number o.upload_config.part_size_bytes in
        let ev = on_load status (some etag) in
        subst (λ phase. Stands o i id k (at_phase o (xhr i slot ev) phase c)) (sym running)
          (subst (λ v. Stands o i id k (xhr_event o i slot pool (flatten_option v) ev c)) (sym at)
            (subst (λ x. Stands o i id k (part_outcome o i slot pool w x c))
              (sym (loads (length blob) status etag good tag))
              (subst
                (λ n.
                  Stands o i id n (part_outcome o i slot pool w (resolves (length blob) etag) c))
                count' (succeeded slot (length blob) etag pool w c running at counted'))))
      where
        e_left : {p r : Pool} → p ≡ r → left p ≡ left r
        e_left h = ap left h

    module _ (k slot : ℕ) (computable : Bool) (loaded : ℕ) (c : Controller) where
      quiet_worker :
          (q : Pool) (v : Option InFlight)
          → get_elem? c.runs i ≡ some (transferring q)
          → left q ≡ k
          → 0 < left q
          → IsCounted o i id q c
          → Stands o i id k (xhr_event o i slot q v (on_progress computable loaded) c)
      unfolding xhr_event upload_part part_outcome report_progress emit
      quiet_worker q none running count some_left counted =
          sending q running count some_left counted
      quiet_worker q (some w) running count some_left counted =
          if_cases (λ x. Stands o i id k (part_outcome o i slot q w x c)) computable
            (reports loaded) silent
            (λ _.
              sending q running count some_left
                (report_progress-IsCounted w.part.part_number loaded q c counted))
            (λ _. sending q running count some_left counted)

      quiet :
          Stands o i id k c
          → Stands o i id k (step o (xhr i slot (on_progress computable loaded)) c)
      unfolding step at_phase
      quiet (sent ps log none_left completing_now logged) =
          subst
            (λ phase.
              Stands o i id k (at_phase o (xhr i slot (on_progress computable loaded)) phase c))
            (sym completing_now) (sent ps log none_left completing_now logged)
      quiet (sending q running count some_left counted) =
          subst
            (λ phase.
              Stands o i id k (at_phase o (xhr i slot (on_progress computable loaded)) phase c))
            (sym running)
            (quiet_worker q (flatten_option (get_elem? q.workers slot)) running count some_left
              counted)

    pub run-Stands :
        (k : ℕ) (evs : List Event) (c : Controller)
        → Serves k evs c
        → Stands o i id k c
        → Stands o i id 0 (run o evs c)
    unfolding run
    run-Stands _ _ c all_served h = h
    run-Stands k _ c (progress {evs} slot computable loaded s) h =
        run-Stands k evs _ s (quiet k slot computable loaded c h)
    run-Stands _ _ c (success {k} {evs} slot status etag pool w running at good tag s) h =
        run-Stands k evs _ s (success-Stands k slot status etag pool w c running at good tag h)
