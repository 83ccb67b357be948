-- ===== src/Video/Player/Quality.antt =====
-- The quality menu: its order, and which level of the stream a choice selects.
use rendition.Common.{
  ℕ, zero, suc, ◌+◌, String, Bool, true, false, not, none, some, List, [], ◌∷◌, get_elem?, find?,
  All, ◌≡◌, refl, sym, ap, ◌∙◌, arith, ◌==◌, string_eq, if_cases, Bool-cases, inl, inr, ==_refl,
  All-get_elem?, subst,
}
use text.Mathlib.TextEquality.{eq_iff}
use mathlib.Core.List.{Perm}
use mathlib.Core.Option.{some-injective}
use rendition.Common.Sorting.{
  sort_down_by, sort_down_by-perm, sort_down_by-IsDescending, All-sort_down_by, IsDescending,
}
use rendition.Common.Text.{show, number_of, number_of-show}
use rendition.Video.Player.{
  Level, QualityLevel, quality_label, indexed_levels, parsed_levels, level, set_current_level,
  Player, initial, Mode, idle, native, hls, Event, source_changed, manifest_parsed, level_switched,
  stream_error, quality_chosen, unmounted, step, run, listen, open_source, clean_up, on_error,
  handle_quality_change, selected_quality_label, Support, media_error, other_error,
}

-- The menu lists every level of the manifest once, the tallest first.
parsed_levels_order :
    (levels : List Level)
    → Perm (parsed_levels levels) (indexed_levels 0 levels)
      × IsDescending (λ (l : QualityLevel). l.height) (parsed_levels levels)
unfolding parsed_levels
parsed_levels_order levels = (sort_down_by-perm _ _, sort_down_by-IsDescending _ _)

-- The entry's value is the place of a level in the manifest, and it shows that level's label and height.
record Names (levels : List Level) (l : QualityLevel) : Type 0 where
  place : ℕ
  shown : Level
  value : l.value ≡ show place
  there : get_elem? levels place ≡ some shown
  label : l.label ≡ quality_label shown
  height : l.height ≡ shown.height

indexed_levels-Names :
    (all levels : List Level) (i : ℕ)
    → ((k : ℕ) (lv : Level) → get_elem? levels k ≡ some lv → get_elem? all (i + k) ≡ some lv)
    → All (Names all) (indexed_levels i levels)
unfolding indexed_levels
indexed_levels-Names all [] i h = tt
indexed_levels-Names all (lv ∷ levels) i h = (
  record {
    place = i;
    shown = lv;
    value = refl;
    there =
        let e : i + 0 ≡ i = omega arith in subst (λ k. get_elem? all k ≡ some lv) e (h 0 lv refl);
    label = refl;
    height = refl;
  },
  indexed_levels-Names all levels (suc i) (λ k x e.
      let shift : i + suc k ≡ suc i + k = omega arith in
      subst (λ m. get_elem? all m ≡ some x) shift (h (suc k) x e)),
)

parsed_levels-Names : (levels : List Level) → All (Names levels) (parsed_levels levels)
unfolding parsed_levels
parsed_levels-Names levels = All-sort_down_by _ (Names levels) _ (
    indexed_levels-Names levels levels 0
      (λ k lv e. let start : 0 + k ≡ k = omega arith in rw start e))

-- What `find?` gives passes the test, and it gives something if an element passes.
find?-passes {ℓ} :
    {A : Type ℓ} (q : A → Bool) (xs : List A) (j : ℕ) (x : A)
    → get_elem? xs j ≡ some x
    → q x ≡ true
    → (k : ℕ) × (y : A) × (get_elem? xs k ≡ some y) × (find? q xs ≡ some y) × (q y ≡ true)
find?-passes q [] j x e h = absurd (cc)
find?-passes q (y ∷ ys) zero x e h =
    let hit : q y ≡ true = ground arith in (0, y, refl, ground arith, hit)
find?-passes q (y ∷ ys) (suc j) x e h =
    let (k, z, at, found, passes) = find?-passes q ys j x e h in
    elim (Bool-cases (q y)) [
      | inl hit ↦ (0, y, refl, ground arith, hit)
      | inr miss ↦ (suc k, z, at, ground arith, passes)
    ]

-- While hls.js plays, the menu is that of the manifest.
abbrev InStep : Mode → Player → Type 0
InStep hls p = p.levels ≡ parsed_levels p.manifest
InStep idle p = Unit {0}
InStep native p = Unit {0}

abbrev Inv : Player → Type 0
Inv p = InStep p.mode p

clean_up-idle : (m : Mode) (p : Player) → p.mode ≡ m → (clean_up m p).mode ≡ idle
unfolding clean_up
clean_up-idle idle p e = e
clean_up-idle native p e = refl
clean_up-idle hls p e = refl

idle-Inv : (p : Player) → p.mode ≡ idle → Inv p
idle-Inv p e = subst (λ m. InStep m p) (sym e) tt

open_source-Inv :
    (s : Support) (src : String) (p : Player) → p.mode ≡ idle → Inv (open_source s src p)
unfolding open_source parsed_levels indexed_levels sort_down_by
open_source-Inv s src p e =
    if_cases Inv s.plays_hls _ _ (λ _. tt)
      λ _. if_cases Inv (not s.hls_js) _ _ (λ _. idle-Inv _ e) (λ _. refl)

listen-Inv : (m : Mode) (ev : Event) (p : Player) → p.mode ≡ m → InStep m p → Inv (listen m ev p)
unfolding listen on_error
listen-Inv hls (manifest_parsed levels) p e h = rw e refl
listen-Inv hls (level_switched i) p e h = rw e h
listen-Inv hls (stream_error false t) p e h = rw e h
listen-Inv hls (stream_error true media_error) p e h = rw e h
listen-Inv hls (stream_error true other_error) p e h = rw e h
listen-Inv m _ p e h = subst (λ n. InStep n p) (sym e) h

quality-Inv :
    (value : String) (m : Mode) (p : Player)
    → p.mode ≡ m
    → InStep m p
    → Inv (handle_quality_change value m p)
unfolding handle_quality_change
quality-Inv value idle p e h =
    subst (λ n. InStep n (record p { selected_quality = value })) (sym e) tt
quality-Inv value native p e h =
    subst (λ n. InStep n (record p { selected_quality = value })) (sym e) tt
quality-Inv value hls p e h =
    let q = handle_quality_change value hls p in subst (λ n. InStep n q) (sym e) h

step-Inv : (ev : Event) (p : Player) → Inv p → Inv (step ev p)
unfolding step
step-Inv (source_changed s src) p h = open_source-Inv s src _ (clean_up-idle p.mode p refl)
step-Inv (quality_chosen value) p h = quality-Inv value p.mode p refl h
step-Inv unmounted p h = idle-Inv _ (clean_up-idle p.mode p refl)
step-Inv ev p h = listen-Inv p.mode ev p refl h

run-Inv : (evs : List Event) (p : Player) → Inv p → Inv (run evs p)
unfolding run
run-Inv [] p h = h
run-Inv (ev ∷ evs) p h = run-Inv evs (step ev p) (step-Inv ev p h)

auto_is_no_number : number_of "auto" ≡ none
unfolding number_of
auto_is_no_number = refl

show-ne-auto : (i : ℕ) → (show i == "auto") ≡ false
show-ne-auto i = elim (Bool-cases (show i == "auto")) [
  | inl same ↦
      absurd
        (cc (number_of-show i, ap number_of ((eq_iff (show i) "auto").0 same), auto_is_no_number))
  | inr other ↦ other
]

same_place :
    (levels : List Level) (l m : QualityLevel)
    → Names levels l
    → Names levels m
    → m.value ≡ l.value
    → m.label ≡ l.label
same_place levels l m n k e =
    let same : some k.place ≡ some n.place =
      sym (number_of-show k.place)
      ∙ ap number_of (sym k.value ∙ e ∙ n.value)
      ∙ number_of-show n.place in
    cc (k.there, n.there, k.label, n.label, some-injective _ _ same)

chosen_commands :
    (p : Player) (value : String) (place : ℕ)
    → p.mode ≡ hls
    → value ≡ show place
    → (step (quality_chosen value) p).commands ≡ set_current_level (level (some place)) ∷ p.commands
unfolding step handle_quality_change
chosen_commands p value place e k = ground (arith, show-ne-auto place, number_of-show place)

chosen_label :
    (p : Player) (j : ℕ) (l : QualityLevel)
    → p.mode ≡ hls
    → All (Names p.manifest) p.levels
    → Names p.manifest l
    → get_elem? p.levels j ≡ some l
    → selected_quality_label (step (quality_chosen l.value) p) ≡ l.label
unfolding step handle_quality_change selected_quality_label
chosen_label p j l e all n at =
    let (k, m, there, found, passes) =
      find?-passes (λ (x : QualityLevel). x.value == l.value) p.levels j l at (==_refl l.value) in
    let label =
      same_place p.manifest l m n (All-get_elem? (Names p.manifest) p.levels k m there all)
        ((eq_iff m.value l.value).0 passes) in
    ground (arith, show-ne-auto n.place, n.value, label)

-- While hls.js plays, whatever has happened before, a choice in the menu makes hls.js take the level whose
-- label the choice shows, and the menu then shows that label.
pub quality_chosen_selects :
    (evs : List Event) (j : ℕ) (l : QualityLevel)
    → (run evs initial).mode ≡ hls
    → get_elem? (run evs initial).levels j ≡ some l
    → (place : ℕ) × (shown : Level) × (get_elem? (run evs initial).manifest place ≡ some shown)
      × (l.label ≡ quality_label shown)
      × ((step (quality_chosen l.value) (run evs initial)).commands
          ≡ set_current_level (level (some place)) ∷ (run evs initial).commands)
      × (selected_quality_label (step (quality_chosen l.value) (run evs initial)) ≡ l.label)
quality_chosen_selects evs j l playing at =
    let p = run evs initial in
    let in_step : p.levels ≡ parsed_levels p.manifest =
      subst (λ m. InStep m p) playing (run-Inv evs initial tt) in
    let all = subst (All (Names p.manifest)) (sym in_step) (parsed_levels-Names p.manifest) in
    let n = All-get_elem? (Names p.manifest) p.levels j l at all in
    (
      n.place,
      n.shown,
      n.there,
      n.label,
      chosen_commands p l.value n.place playing n.value,
      chosen_label p j l playing all n at,
    )
