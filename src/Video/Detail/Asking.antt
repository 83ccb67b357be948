-- ===== src/Video/Detail/Asking.antt =====
-- frontend/src/components/video/video-detail.tsx, lines 71-121: the interval that asks for the video's state.
use rendition.Common.{
  ℕ, suc, ◌+◌, ◌≤◌, String, true, false, not, ◌&&◌, Option, none, some, List, [], ◌∷◌, ◌≡◌, refl,
  ap, subst, ◌∙◌, arith, All, length, filter, if_cases, string_eq, ◌==◌, ==_refl,
}
use rendition.Api.{VideoState, VideoPlayback}
use rendition.Api.Requests.{Request, get_video_state}
use rendition.Api.Http.{Failure, Result, ok, err}
use rendition.Video.Detail.{
  Detail, Origin, first, interval, button, Await, state, playback, reload, Event, tick,
  refresh_clicked, player_reloads, unmounted, state_reply, playback_reply, step, run, polls,
  is_playable, load_video, at_await, state_answered, playback_answered, reload_answered,
  reload_playback, succeeded, failed_with,
}
use rendition.Video.Detail.Polling.{NotDone}

-- How many calls ask for the state of the video.
abbrev pub asks : String → List Request → ℕ
asks id calls = length (filter (λ (r : Request). r.path == (get_video_state id).path) calls)

abbrev pub ticks : List Event → ℕ
ticks [] = 0
ticks (tick ∷ evs) = suc (ticks evs)
ticks (ev ∷ evs) = ticks evs

-- A tick asks once more.
abbrev after : Event → ℕ → ℕ
after tick n = suc n
after _ n = n

-- The page stays, and no answer says that the video is done.
abbrev pub KeepsWaiting : Event → Type 0
KeepsWaiting unmounted = ⊥
KeepsWaiting ev = NotDone ev

record Waits (id : String) (n : ℕ) (s : Detail) : Type 0 where
  same : s.video_id ≡ id
  mounted : s.is_mounted ≡ true
  waiting : polls s.video_state ≡ true
  asked : n ≤ asks id s.calls

module _ (id : String) (n : ℕ) where
  -- `Waits` does not read the other fields.
  frame_Waits :
      (s s' : Detail)
      → s'.video_id ≡ s.video_id
      → s'.is_mounted ≡ s.is_mounted
      → s'.video_state ≡ s.video_state
      → s'.calls ≡ s.calls
      → Waits id n s
      → Waits id n s'
  frame_Waits s s' e₁ e₂ e₃ e₄ w = record {
    same = e₁ ∙ w.same;
    mounted = e₂ ∙ w.mounted;
    waiting = ap polls e₃ ∙ w.waiting;
    asked = rw e₄ w.asked;
  }

  succeeded-Waits : (origin : Origin) (s : Detail) → Waits id n s → Waits id n (succeeded origin s)
  unfolding succeeded
  succeeded-Waits first s w =
      if_cases (Waits id n) s.is_mounted _ s (λ _. frame_Waits s _ refl refl refl refl w) (λ _. w)
  succeeded-Waits interval s w = w
  succeeded-Waits button s w = w

  failed_with-Waits :
      (origin : Origin) (e : Failure) (s : Detail)
      → Waits id n s
      → Waits id n (failed_with origin e s)
  unfolding failed_with
  failed_with-Waits first e s w =
      if_cases (Waits id n) s.is_mounted _ s (λ _. frame_Waits s _ refl refl refl refl w) (λ _. w)
  failed_with-Waits interval e s w = frame_Waits s _ refl refl refl refl w
  failed_with-Waits button e s w = frame_Waits s _ refl refl refl refl w

  state_answered-Waits :
      (origin : Origin) (reply : Result VideoState) (i : ℕ) (s : Detail)
      → NotDone (state_reply i reply)
      → Waits id n s
      → Waits id n (state_answered origin reply s)
  unfolding state_answered polls
  state_answered-Waits origin (err e) i s h w = failed_with-Waits origin e s w
  state_answered-Waits origin (ok next) i s h w =
      if_cases (Waits id n) (is_playable next.status) _ _ (λ e. absurd (ground (arith, e, h)))
        λ _.
          succeeded-Waits origin _
            (record { same = w.same; mounted = w.mounted; waiting = ap not h; asked = w.asked })

  playback_answered-Waits :
      (origin : Origin) (reply : Result VideoPlayback) (s : Detail)
      → Waits id n s
      → Waits id n (playback_answered origin reply s)
  unfolding playback_answered
  playback_answered-Waits origin (err e) s w = failed_with-Waits origin e s w
  playback_answered-Waits origin (ok next) s w =
      succeeded-Waits origin _ (frame_Waits s _ refl refl refl refl w)

  reload_answered-Waits :
      (reply : Result VideoPlayback) (s : Detail)
      → Waits id n s
      → Waits id n (reload_answered reply s)
  unfolding reload_answered
  reload_answered-Waits (err e) s w = frame_Waits s _ refl refl refl refl w
  reload_answered-Waits (ok next) s w = frame_Waits s _ refl refl refl refl w

  at_await-Waits :
      (ev : Event) (a : Option Await) (s : Detail)
      → NotDone ev
      → Waits id n s
      → Waits id n (at_await ev a s)
  unfolding at_await
  at_await-Waits (state_reply i reply) (some (state origin)) s h w =
      state_answered-Waits origin reply i _ h (frame_Waits s _ refl refl refl refl w)
  at_await-Waits (playback_reply i reply) (some (playback origin)) s h w =
      playback_answered-Waits origin reply _ (frame_Waits s _ refl refl refl refl w)
  at_await-Waits (playback_reply i reply) (some reload) s h w =
      reload_answered-Waits reply _ (frame_Waits s _ refl refl refl refl w)
  at_await-Waits _ _ s h w = w

  -- A load is one call more that asks.
  load_video-Waits :
      (origin : Origin) (s : Detail) → Waits id n s → Waits id (suc n) (load_video origin s)
  unfolding load_video
  load_video-Waits origin s w = record {
    same = w.same;
    mounted = w.mounted;
    waiting = w.waiting;
    asked =
        let mine : ((get_video_state s.video_id).path == (get_video_state id).path) ≡ true =
          ap (λ i. (get_video_state i).path == (get_video_state id).path) w.same
          ∙ ==_refl (get_video_state id).path in
        simp mine (omega (arith, w.asked));
  }

  more : (s : Detail) → Waits id (suc n) s → Waits id n s
  more s w = record {
    same = w.same;
    mounted = w.mounted;
    waiting = w.waiting;
    asked = omega (arith, w.asked);
  }

  reload_playback-Waits : (s : Detail) → Waits id n s → Waits id n (reload_playback s)
  unfolding reload_playback
  reload_playback-Waits s w = record {
    same = w.same;
    mounted = w.mounted;
    waiting = w.waiting;
    asked = ground (arith, w.asked);
  }

  step-Waits :
      (ev : Event) (s : Detail) → KeepsWaiting ev → Waits id n s → Waits id (after ev n) (step ev s)
  unfolding step
  step-Waits tick s h w =
      if_cases (Waits id (suc n)) (s.is_mounted && polls s.video_state) _ s
        (λ _. load_video-Waits interval s w)
        (λ stops. absurd (ground (arith, w.mounted, w.waiting, stops)))
  step-Waits refresh_clicked s h w =
      if_cases (Waits id n) _ _ s (λ _. more _ (load_video-Waits button s w)) (λ _. w)
  step-Waits player_reloads s h w =
      if_cases (Waits id n) _ _ s (λ _. reload_playback-Waits s w) (λ _. w)
  step-Waits unmounted s h w = absurd h
  step-Waits (state_reply i reply) s h w = at_await-Waits (state_reply i reply) _ s h w
  step-Waits (playback_reply i reply) s h w = at_await-Waits (playback_reply i reply) _ s h w

abbrev after_all : List Event → ℕ → ℕ
after_all [] n = n
after_all (ev ∷ evs) n = after_all evs (after ev n)

after_all-ticks : (evs : List Event) (n : ℕ) → after_all evs n ≡ ticks evs + n
after_all-ticks [] n = omega arith
after_all-ticks (tick ∷ evs) n = omega (arith, after_all-ticks evs (suc n))
after_all-ticks (refresh_clicked ∷ evs) n = after_all-ticks evs n
after_all-ticks (player_reloads ∷ evs) n = after_all-ticks evs n
after_all-ticks (unmounted ∷ evs) n = after_all-ticks evs n
after_all-ticks (state_reply i reply ∷ evs) n = after_all-ticks evs n
after_all-ticks (playback_reply i reply ∷ evs) n = after_all-ticks evs n

run-Waits :
    (id : String) (n : ℕ) (evs : List Event) (s : Detail)
    → All KeepsWaiting evs
    → Waits id n s
    → Waits id (after_all evs n) (run evs s)
unfolding run
run-Waits id n [] s h w = w
run-Waits id n (ev ∷ evs) s h w =
    run-Waits id (after ev n) evs (step ev s) h.1 (step-Waits id n ev s h.0 w)

known :
    (o : Option VideoState)
    → polls o ≡ true
    → (v : VideoState) × (o ≡ some v) × (is_playable v.status ≡ false)
unfolding polls
known none e = absurd (cc)
known (some v) e = (v, refl, ground (arith, e))

-- While a page whose video's state is known, and is not "done", stays mounted, and no answer says that the
-- video is done, the interval does not stop: whatever else happens - answers, failures, clicks, in any order,
-- and a video that has failed or was skipped as well - the state stays known and not "done", and the page asks
-- for it at least once more with each tick.
pub ticks_ask_until_done :
    (s : Detail) (v : VideoState) (evs : List Event)
    → s.is_mounted ≡ true
    → s.video_state ≡ some v
    → is_playable v.status ≡ false
    → All KeepsWaiting evs
    → ((last : VideoState) × ((run evs s).video_state ≡ some last)
        × (is_playable last.status ≡ false))
      × (ticks evs + asks s.video_id s.calls ≤ asks s.video_id (run evs s).calls)
unfolding polls
ticks_ask_until_done s v evs mounted shown not_done h =
    let w = run-Waits s.video_id (asks s.video_id s.calls) evs s h (record {
      same = refl;
      mounted = mounted;
      waiting = ap polls shown ∙ ap not not_done;
      asked = omega arith;
    }) in
    (
      known (run evs s).video_state w.waiting,
      subst (λ m. m ≤ asks s.video_id (run evs s).calls)
          (after_all-ticks evs (asks s.video_id s.calls)) w.asked,
    )
