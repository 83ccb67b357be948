-- ===== src/Feed/Page/Selection.antt =====
-- What holds of the feed whatever happens: nothing is selected, and only finished videos are asked for.
use rendition.Common.{
  ℕ, ◌+◌, ◌-◌, max, ◌<◌, String, Bool, true, false, Option, none, some, List, [], ◌∷◌, ◌≡◌, refl,
  arith, All, if_cases,
}
use rendition.Api.{VideoListItem}
use rendition.Api.Requests.{Request}
use rendition.Api.Http.{Result, ok, err}
use rendition.Feed.Page.{
  Feed, initial, Event, timer_fired, answered, refresh_clicked, previous_clicked, next_clicked,
  back_clicked, card_clicked, up_next_clicked, step, run, load_videos, answer, videos_answered,
  set_page, video_feed, shows_player, page_request, Load,
}

-- A call for some page, from 1 on, of finished videos.
abbrev pub AsksForPage : Request → Type 0
AsksForPage r = (page : ℕ) × (0 < page) × (r ≡ page_request page)

abbrev TimerFits : Option ℕ → ℕ → Type 0
TimerFits none page = Unit {0}
TimerFits (some p) page = p ≡ page

record Inv (s : Feed) : Type 0 where
  unselected : s.selected_video ≡ none
  positive : 0 < s.page
  timer : TimerFits s.timer s.page
  calls : All AsksForPage s.calls

load_videos-Inv : (page : ℕ) (t : Bool) (s : Feed) → 0 < page → Inv s → Inv (load_videos page t s)
unfolding load_videos
load_videos-Inv page t s h v = record {
  unselected = v.unselected;
  positive = v.positive;
  timer = v.timer;
  calls = ((page, h, refl), v.calls);
}

set_page-Inv : (page : ℕ) (s : Feed) → 0 < page → Inv s → Inv (set_page page s)
unfolding set_page
set_page-Inv page s h v =
    if_cases Inv _ s (record s { page = page; timer = some page }) (λ _. v)
      λ _. record { unselected = v.unselected; positive = h; timer = refl; calls = v.calls }

videos_answered-Inv :
    (f : String → String) (load : Load) (reply : Result (List VideoListItem)) (s : Feed)
    → Inv s
    → Inv (videos_answered f load reply s)
unfolding videos_answered
videos_answered-Inv f load (ok response) s v =
    if_cases Inv load.show_toast _ _
      (λ _. record { unselected = refl; positive = v.positive; timer = v.timer; calls = v.calls })
      (λ _. record { unselected = refl; positive = v.positive; timer = v.timer; calls = v.calls })
videos_answered-Inv f load (err e) s v = record {
  unselected = v.unselected;
  positive = v.positive;
  timer = v.timer;
  calls = v.calls;
}

answer-Inv :
    (f : String → String) (i : ℕ) (reply : Result (List VideoListItem)) (l : Option Load) (s : Feed)
    → Inv s
    → Inv (answer f i reply l s)
unfolding answer
answer-Inv f i reply none s v = v
answer-Inv f i reply (some load) s v =
    videos_answered-Inv f load reply _ (record {
      unselected = v.unselected;
      positive = v.positive;
      timer = v.timer;
      calls = v.calls;
    })

timer-Inv :
    (t : Option ℕ) (s : Feed)
    → s.timer ≡ t
    → TimerFits t s.page
    → Inv s
    → Inv (elim t [ none ↦ s | some page ↦ load_videos page false (record s { timer = none }) ])
timer-Inv none s e h v = v
timer-Inv (some page) s e h v =
    load_videos-Inv page false _ (omega arith)
      (record { unselected = v.unselected; positive = v.positive; timer = tt; calls = v.calls })

hides_player : (s : Feed) → s.selected_video ≡ none → shows_player (video_feed s) ≡ false
unfolding video_feed
hides_player s e = ground arith

step-Inv : (f : String → String) (ev : Event) (s : Feed) → Inv s → Inv (step f ev s)
unfolding step
step-Inv f timer_fired s v = timer-Inv s.timer s refl v.timer v
step-Inv f (answered i reply) s v = answer-Inv f i reply _ s v
step-Inv f refresh_clicked s v =
    if_cases Inv s.is_loading _ _ (λ _. v) (λ _. load_videos-Inv s.page true s v.positive v)
step-Inv f previous_clicked s v =
    if_cases Inv _ (set_page (max 1 (s.page - 1)) s) s (λ _. set_page-Inv _ s (omega arith) v)
      (λ _. v)
step-Inv f next_clicked s v =
    if_cases Inv _ (set_page (s.page + 1) s) s (λ _. set_page-Inv _ s (omega arith) v) (λ _. v)
step-Inv f back_clicked s v =
    if_cases Inv (shows_player (video_feed s)) _ _
      (λ e. absurd (ground (arith, hides_player s v.unselected))) (λ _. v)
step-Inv f (card_clicked video) s v =
    if_cases Inv _ _ s
      (λ _. record {
        unselected = v.unselected;
        positive = v.positive;
        timer = v.timer;
        calls = v.calls;
      })
      (λ _. v)
step-Inv f (up_next_clicked video) s v =
    if_cases Inv (shows_player (video_feed s)) _ _
      (λ e. absurd (ground (arith, hides_player s v.unselected))) (λ _. v)

run-Inv : (f : String → String) (evs : List Event) (s : Feed) → Inv s → Inv (run f evs s)
unfolding run
run-Inv f [] s v = v
run-Inv f (ev ∷ evs) s v = run-Inv f evs (step f ev s) (step-Inv f ev s v)

initial-Inv : Inv initial
initial-Inv = record { unselected = refl; positive = omega arith; timer = refl; calls = tt }

pub run_never_selects :
    (f : String → String) (evs : List Event)
    → ((run f evs initial).selected_video ≡ none)
      × (shows_player (video_feed (run f evs initial)) ≡ false)
      × (0 < (run f evs initial).page)
      × All AsksForPage (run f evs initial).calls
run_never_selects f evs =
    let v = run-Inv f evs initial initial-Inv in
    (v.unselected, hides_player _ v.unselected, v.positive, v.calls)
