-- ===== src/Video/Detail/Polling.antt =====
-- Before the video is done: what the page shows and asks for.
use rendition.Common.{
  ℕ, zero, suc, String, false, Option, none, some, List, [], ◌∷◌, ◌≡◌, refl, arith, All, All-set,
  All-append, get_elem?, if_cases, ap,
}
use rendition.Api.{VideoState}
use rendition.Api.Requests.{get_video_state}
use rendition.Api.Http.{Failure, Result, ok, err}
use rendition.Video.Detail.{
  Detail, Origin, first, interval, button, Await, state, playback, reload, done, Event, tick,
  refresh_clicked, player_reloads, unmounted, state_reply, playback_reply, mount, step, run,
  is_playable, load_video, at_await, state_answered, reload_playback, succeeded, failed_with,
  settle,
}

-- The status of an answer, if it is one, is not "done".
abbrev pub NotDone : Event → Type 0
NotDone (state_reply i (ok v)) = is_playable v.status ≡ false
NotDone _ = Unit {0}

abbrev NoPlayback : Await → Type 0
NoPlayback (state origin) = Unit {0}
NoPlayback done = Unit {0}
NoPlayback (playback origin) = ⊥
NoPlayback reload = ⊥

record Inv (id : String) (s : Detail) : Type 0 where
  same : s.video_id ≡ id
  nothing : s.current_playback ≡ none
  awaits : All NoPlayback s.awaits
  calls : All (λ r. r ≡ get_video_state id) s.calls

module _ (id : String) where
  succeeded-Inv : (origin : Origin) (s : Detail) → Inv id s → Inv id (succeeded origin s)
  unfolding succeeded
  succeeded-Inv first s v =
      if_cases (Inv id) s.is_mounted _ s
        (λ _. record { same = v.same; nothing = v.nothing; awaits = v.awaits; calls = v.calls })
        (λ _. v)
  succeeded-Inv interval s v = v
  succeeded-Inv button s v = v

  failed_with-Inv :
      (origin : Origin) (e : Failure) (s : Detail) → Inv id s → Inv id (failed_with origin e s)
  unfolding failed_with
  failed_with-Inv first e s v =
      if_cases (Inv id) s.is_mounted _ s
        (λ _. record { same = v.same; nothing = v.nothing; awaits = v.awaits; calls = v.calls })
        (λ _. v)
  failed_with-Inv interval e s v = record {
    same = v.same;
    nothing = v.nothing;
    awaits = v.awaits;
    calls = v.calls;
  }
  failed_with-Inv button e s v = record {
    same = v.same;
    nothing = v.nothing;
    awaits = v.awaits;
    calls = v.calls;
  }

  load_video-Inv : (origin : Origin) (s : Detail) → Inv id s → Inv id (load_video origin s)
  unfolding load_video
  load_video-Inv origin s v = record {
    same = v.same;
    nothing = v.nothing;
    awaits = All-append NoPlayback s.awaits _ v.awaits (tt, tt);
    calls = (ap get_video_state v.same, v.calls);
  }

  state_answered-Inv :
      (origin : Origin) (reply : Result VideoState) (i : ℕ) (s : Detail)
      → NotDone (state_reply i reply)
      → Inv id s
      → Inv id (state_answered origin reply s)
  unfolding state_answered
  state_answered-Inv origin (err e) i s h v = failed_with-Inv origin e s v
  state_answered-Inv origin (ok next) i s h v =
      if_cases (Inv id) (is_playable next.status) _ _ (λ e. absurd (ground arith))
        λ _.
          succeeded-Inv origin _
            (record { same = v.same; nothing = v.nothing; awaits = v.awaits; calls = v.calls })

  settle-Inv : (i : ℕ) (s : Detail) → Inv id s → Inv id (settle i s)
  settle-Inv i s v = record {
    same = v.same;
    nothing = v.nothing;
    awaits = All-set NoPlayback s.awaits i done tt v.awaits;
    calls = v.calls;
  }

  abbrev MaybeNoPlayback : Option Await → Type 0
  MaybeNoPlayback none = Unit {0}
  MaybeNoPlayback (some a) = NoPlayback a

  awaited : (xs : List Await) (i : ℕ) → All NoPlayback xs → MaybeNoPlayback (get_elem? xs i)
  awaited [] i h = tt
  awaited (a ∷ xs) zero h = h.0
  awaited (a ∷ xs) (suc i) h = awaited xs i h.1

  at_await-Inv :
      (ev : Event) (a : Option Await) (s : Detail)
      → NotDone ev
      → MaybeNoPlayback a
      → Inv id s
      → Inv id (at_await ev a s)
  unfolding at_await
  at_await-Inv (state_reply i reply) (some (state origin)) s n h v =
      state_answered-Inv origin reply i _ n (settle-Inv i s v)
  at_await-Inv (playback_reply i reply) (some (playback origin)) s n h v = absurd h
  at_await-Inv (playback_reply i reply) (some reload) s n h v = absurd h
  at_await-Inv _ _ s n h v = v

  step-Inv : (ev : Event) (s : Detail) → NotDone ev → Inv id s → Inv id (step ev s)
  unfolding step
  step-Inv tick s n v = if_cases (Inv id) _ _ s (λ _. load_video-Inv interval s v) (λ _. v)
  step-Inv refresh_clicked s n v = if_cases (Inv id) _ _ s (λ _. load_video-Inv button s v) (λ _. v)
  step-Inv player_reloads s n v =
      if_cases (Inv id) _ (reload_playback s) s (λ e. absurd (ground (arith, v.nothing))) (λ _. v)
  step-Inv unmounted s n v = record {
    same = v.same;
    nothing = v.nothing;
    awaits = v.awaits;
    calls = v.calls;
  }
  step-Inv ev s n v = at_await-Inv ev _ s n (awaited s.awaits _ v.awaits) v

  run-Inv : (evs : List Event) (s : Detail) → All NotDone evs → Inv id s → Inv id (run evs s)
  unfolding run
  run-Inv [] s n v = v
  run-Inv (ev ∷ evs) s n v = run-Inv evs (step ev s) n.1 (step-Inv ev s n.0 v)

  mount-Inv : Inv id (mount id)
  unfolding mount load_video
  mount-Inv = record { same = refl; nothing = refl; awaits = (tt, tt); calls = (refl, tt) }

-- As long as no answer has said that the video is done, the page has no playback to show and every call
-- that it has made asks for the video's state.
pub no_playback_before_done :
    (id : String) (evs : List Event)
    → All NotDone evs
    → ((run evs (mount id)).current_playback ≡ none)
      × All (λ r. r ≡ get_video_state id) (run evs (mount id)).calls
no_playback_before_done id evs n =
    let v = run-Inv id evs (mount id) n (mount-Inv id) in (v.nothing, v.calls)
