-- ===== src/Video/Player/Resources.antt =====
-- frontend/src/components/video/hls-player.tsx, lines 62-121: what the effect of `src` opens, its clean-up
-- closes.
use rendition.Common.{
  ℕ, suc, ◌+◌, Bool, true, false, not, List, [], ◌∷◌, ◌≡◌, refl, arith, if_cases, string_eq, String,
  nat_eq,
}
use rendition.Video.Player.{
  Command, set_src, load_source, remove_src, destroy, Mode, idle, native, hls, Player, Support,
  Event, ErrorType, media_error, other_error, source_changed, manifest_parsed, level_switched,
  stream_error, quality_chosen, unmounted, initial, clean_up, open_source, on_error, listen,
  handle_quality_change, step, run,
}

-- How many commands open a source in the mode, and how many close one.
abbrev pub opened : Mode → List Command → ℕ
opened hls (load_source src ∷ cs) = suc (opened hls cs)
opened native (set_src src ∷ cs) = suc (opened native cs)
opened m [] = 0
opened m (c ∷ cs) = opened m cs

abbrev pub closed : Mode → List Command → ℕ
closed hls (destroy ∷ cs) = suc (closed hls cs)
closed native (remove_src ∷ cs) = suc (closed native cs)
closed m [] = 0
closed m (c ∷ cs) = closed m cs

-- 1 if the player is in the mode now.
abbrev pub open_now : Mode → Player → ℕ
open_now hls p = elim p.mode [ hls ↦ 1 | _ ↦ 0 ]
open_now native p = elim p.mode [ native ↦ 1 | _ ↦ 0 ]
open_now idle p = 0

pub record IsBalanced (p : Player) : Type 0 where
  pub hls_js : opened hls p.commands ≡ closed hls p.commands + open_now hls p
  pub browser : opened native p.commands ≡ closed native p.commands + open_now native p

-- Nothing is open.
abbrev Shut : Player → Type 0
Shut p =
    (p.mode ≡ idle)
    × (opened hls p.commands ≡ closed hls p.commands)
    × (opened native p.commands ≡ closed native p.commands)

clean_up-Shut : (m : Mode) (p : Player) → p.mode ≡ m → IsBalanced p → Shut (clean_up m p)
unfolding clean_up
clean_up-Shut idle p e h = (e, ground (arith, e, h.hls_js), ground (arith, e, h.browser))
clean_up-Shut native p e h = (refl, ground (arith, e, h.hls_js), ground (arith, e, h.browser))
clean_up-Shut hls p e h = (refl, ground (arith, e, h.hls_js), ground (arith, e, h.browser))

Shut-IsBalanced : (p : Player) → Shut p → IsBalanced p
Shut-IsBalanced p h = record { hls_js = ground (arith, h); browser = ground (arith, h) }

open_source-IsBalanced :
    (s : Support) (src : String) (p : Player) → Shut p → IsBalanced (open_source s src p)
unfolding open_source
open_source-IsBalanced s src p h =
    if_cases IsBalanced s.plays_hls _ _
      (λ _. record { hls_js = omega (arith, h.1); browser = omega (arith, h.2) })
      (λ _.
        if_cases IsBalanced (not s.hls_js) _ _ (λ _. Shut-IsBalanced _ h)
          (λ _. record { hls_js = omega (arith, h.1); browser = omega (arith, h.2) }))

on_error-IsBalanced :
    (fatal : Bool) (type : ErrorType) (p : Player)
    → IsBalanced p
    → IsBalanced (on_error fatal type p)
unfolding on_error
on_error-IsBalanced false type p h = h
on_error-IsBalanced true media_error p h = record { hls_js = h.hls_js; browser = h.browser }
on_error-IsBalanced true other_error p h = record { hls_js = h.hls_js; browser = h.browser }

handle_quality_change-IsBalanced :
    (value : String) (m : Mode) (p : Player)
    → IsBalanced p
    → IsBalanced (handle_quality_change value m p)
unfolding handle_quality_change
handle_quality_change-IsBalanced value hls p h = record { hls_js = h.hls_js; browser = h.browser }
handle_quality_change-IsBalanced value idle p h = record { hls_js = h.hls_js; browser = h.browser }
handle_quality_change-IsBalanced value native p h = record {
  hls_js = h.hls_js;
  browser = h.browser;
}

listen-IsBalanced : (m : Mode) (ev : Event) (p : Player) → IsBalanced p → IsBalanced (listen m ev p)
unfolding listen
listen-IsBalanced hls (manifest_parsed levels) p h = record {
  hls_js = h.hls_js;
  browser = h.browser;
}
listen-IsBalanced hls (level_switched i) p h = record { hls_js = h.hls_js; browser = h.browser }
listen-IsBalanced hls (stream_error fatal type) p h = on_error-IsBalanced fatal type p h
listen-IsBalanced _ _ p h = h

step-IsBalanced : (ev : Event) (p : Player) → IsBalanced p → IsBalanced (step ev p)
unfolding step
step-IsBalanced (source_changed s src) p h =
    open_source-IsBalanced s src _ (clean_up-Shut p.mode p refl h)
step-IsBalanced (quality_chosen value) p h = handle_quality_change-IsBalanced value p.mode p h
step-IsBalanced unmounted p h = Shut-IsBalanced _ (clean_up-Shut p.mode p refl h)
step-IsBalanced ev p h = listen-IsBalanced p.mode ev p h

run_from-IsBalanced : (evs : List Event) (p : Player) → IsBalanced p → IsBalanced (run evs p)
unfolding run
run_from-IsBalanced [] p h = h
run_from-IsBalanced (ev ∷ evs) p h = run_from-IsBalanced evs (step ev p) (step-IsBalanced ev p h)

-- Whatever sources are opened and whatever happens then, all but at most one of the sources that hls.js has
-- loaded have been destroyed, the exception being the player that is in use now, and the same holds of the
-- sources that the browser plays itself; so after the player has gone none is left of either kind.
pub run-closes :
    (evs : List Event)
    → IsBalanced (run evs initial)
      × (opened hls (step unmounted (run evs initial)).commands
          ≡ closed hls (step unmounted (run evs initial)).commands)
      × (opened native (step unmounted (run evs initial)).commands
          ≡ closed native (step unmounted (run evs initial)).commands)
unfolding step
run-closes evs =
    let p = run evs initial in
    let h = run_from-IsBalanced evs initial (record { hls_js = refl; browser = refl }) in
    let gone = clean_up-Shut p.mode p refl h in (h, gone.1, gone.2)
