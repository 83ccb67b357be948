-- ===== src/Uploads/Multipart/Completion.antt =====
-- What is kept of a controller so that it completes its upload with all parts: completed parts are
-- under their numbers, and all numbers are in range.
pub mod Tags
pub mod Transfers
pub mod Reached
use rendition.Common.{
  false, string_eq, ◌==◌, String, ℕ, zero, suc, ◌+◌, ◌-◌, ◌≤◌, ◌<◌, Bool, true, not, Option, none,
  some, List, [], ◌∷◌, ◌++◌, ◌≡◌, ◌≢◌, refl, sym, arith, length, length-map, All, All-append,
  All-filter, Distinct, map, take, set, get_elem?, if_cases, option_cases, nat_eq, Option-cases,
  inl, inr, subst, ap, ◌∙◌, All-map, All-mono, All-set, All-take, All-get_elem?, Bool-cases,
}
use rendition.Common.Maps.{put, values, All-put, put-Distinct}
use rendition.Common.Sorting.{sort_by, IsRising, sort_by-IsRising, length-sort_by, All-sort_by}
use rendition.Api.{MultipartUploadPart, VideoCreateResponse, VideoState, CompletedPart}
use rendition.Api.Requests.{
  Body, nothing, parts, complete_video_upload, create_video_upload, refresh_video_upload,
  abort_video_upload,
}
use rendition.Api.Http.{Result, ok, err, Failure, error}
use rendition.Uploads.Multipart.{
  Options, Controller, Output, change, call, throws, InFlight, Pool, Phase, creating, refreshing,
  transferring, completing, settled, XhrEvent, XhrOutcome, reports, resolves, rejects, silent,
  part_count, emit, caught, complete_upload, join, resume, upload_missing_parts, next_part, set_run,
  present, begin_worker, has_failed, create_multipart_upload_controller, output,
}
use rendition.Uploads.Multipart.Steps.{
  finish, Event, start, retry_failed_parts, cancel, created, refreshed, xhr, completed,
  start_upload, retry_upload, cancel_upload, create_answered, refresh_answered, complete_answered,
  report_progress, part_failed, part_outcome, xhr_event, at_phase, step, run, abort_pool, abort_run,
  abort_worker, listens, flatten_option,
}
use rendition.Uploads.Multipart.Numbers.{numbers, rising_full}

module _ (o : Options) where
  abbrev pub InRange : ℕ → Type 0
  InRange n = (0 < n) × (n ≤ part_count o)

  abbrev pub PartInRange : MultipartUploadPart → Type 0
  PartInRange part = InRange part.part_number

  abbrev pub WorkerInRange : Option InFlight → Type 0
  WorkerInRange none = Unit {0}
  WorkerInRange (some w) = PartInRange w.part

  abbrev pub PhaseInRange : Phase → Type 0
  PhaseInRange (transferring pool) = All PartInRange pool.queue × All WorkerInRange pool.workers
  PhaseInRange creating = Unit {0}
  PhaseInRange refreshing = Unit {0}
  PhaseInRange completing = Unit {0}
  PhaseInRange settled = Unit {0}

-- `T` holds of the ETags that the storage answers with.
module _ (o : Options) (T : String → Type 0) where
  abbrev pub Tagged : CompletedPart → Type 0
  Tagged part = T part.etag

  abbrev pub EntryInRange : ℕ × CompletedPart → Type 0
  EntryInRange (n, part) = (part.part_number ≡ n) × Tagged part × InRange o n

  -- The parts in a call's body, if it lists some, are those from 1 to the part count in order, each with
  -- such an ETag.
  abbrev pub BodyOrdered : Body → Type 0
  BodyOrdered (parts ps) =
      (map (λ (p : CompletedPart). p.part_number) ps ≡ numbers 0 (part_count o)) × All Tagged ps
  BodyOrdered _ = Unit {0}

  abbrev pub IsOrdered : Output → Type 0
  IsOrdered (call r) = BodyOrdered r.body
  IsOrdered (change row) = Unit {0}
  IsOrdered (throws i e) = Unit {0}

  pub record Inv (c : Controller) : Type 0 where
    pub entries : All EntryInRange c.completed_parts
    pub distinct : Distinct (λ p. p.0) c.completed_parts
    pub phases : All (PhaseInRange o) c.runs
    pub calls : All IsOrdered c.log

  pub emit-Inv : (c : Controller) → Inv c → Inv (emit o c)
  unfolding emit
  emit-Inv c v = record {
    entries = v.entries;
    distinct = v.distinct;
    phases = v.phases;
    calls = (tt, v.calls);
  }

  pub set_run-Inv :
      (i : ℕ) (phase : Phase) (c : Controller)
      → PhaseInRange o phase
      → Inv c
      → Inv (set_run i phase c)
  set_run-Inv i phase c h v = record {
    entries = v.entries;
    distinct = v.distinct;
    phases = All-set (PhaseInRange o) c.runs i phase h v.phases;
    calls = v.calls;
  }

  pub log-Inv :
      (x : Output) (c : Controller) → IsOrdered x → Inv c → Inv (record c { log = x ∷ c.log })
  log-Inv x c h v = record {
    entries = v.entries;
    distinct = v.distinct;
    phases = v.phases;
    calls = (h, v.calls);
  }

  -- `Inv` does not read the other fields.
  pub frame_Inv :
      (c d : Controller)
      → d.completed_parts ≡ c.completed_parts
      → d.runs ≡ c.runs
      → d.log ≡ c.log
      → Inv c
      → Inv d
  frame_Inv c d e₁ e₂ e₃ v = record {
    entries = rw e₁ v.entries;
    distinct = rw e₁ v.distinct;
    phases = rw e₂ v.phases;
    calls = rw e₃ v.calls;
  }

  pub caught-Inv : (i : ℕ) (e : Failure) (c : Controller) → Inv c → Inv (caught o i e c)
  unfolding caught
  caught-Inv i e c v =
      let w = set_run-Inv i settled c tt v in
      if_cases Inv c.aborted _ _ (λ _. w)
        λ _.
          log-Inv (throws i e) _ tt
            (emit-Inv _ (frame_Inv (set_run i settled c) _ refl refl refl w))

abbrev pub NotEmpty : String → Type 0
NotEmpty etag = (etag == "") ≡ false

-- The call, if it completes an upload, lists the parts in order, each with an ETag that is not empty.
abbrev pub IsInOrder : Options → Output → Type 0
IsInOrder o = IsOrdered o NotEmpty
