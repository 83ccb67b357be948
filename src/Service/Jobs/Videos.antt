-- ===== src/Service/Jobs/Videos.antt =====
-- core/services/job_service.py, lines 63-410, and core/services/playback_service.py, lines 55-153: a video's
-- status is the one derived from its renditions, and a video that is done can be played.
use rendition.Common.{
  ℕ, ◌+◌, String, Bool, true, false, Option, some, List, [], ◌∷◌, ◌≡◌, refl, sym, ◌∙◌, arith, All,
  is_some, map, ◌++◌, length, ap, get_elem?, All-get_elem?, Option-cases, inl, inr,
}
use mathlib.Core.Bool.{false≢true}
use rendition.Api.{done}
use rendition.Service.{OutboxMessage, Rendition, Video, statuses, returns}
use rendition.Service.Status.{derive_video_status, is_done, is_skipped, is_empty}
use rendition.Service.Status.Counts.{count, both_le, derive_by_counts}
use rendition.Service.Playback.{
  is_active, has_active_renditions, completed_renditions, completed_rendition,
  validate_playable_video, get_video_playback, playback_of,
}
use rendition.Service.Jobs.Steps.{Event, run}
use rendition.Service.Jobs.Outbox.{with_message}
use rendition.Service.Jobs.Changes.{
  Replaced, here, there, Change, stays, beats, queues, turns, beaten, is_finished,
}
use rendition.Service.Jobs.Histories.{run-keeps}

holds_of_new {ℓ κ} :
    {A : Type ℓ} (P : A → Type κ) {x y : A} {xs ys : List A} → Replaced x y xs ys → All P ys → P y
holds_of_new P here h = h.0
holds_of_new P (there q) h = holds_of_new P q h.1

map-Replaced {ℓ κ} :
    {A : Type ℓ} {B : Type κ} (f : A → B) {x y : A} {xs ys : List A}
    → f x ≡ f y
    → Replaced x y xs ys
    → map f xs ≡ map f ys
map-Replaced f e (here {xs}) = ap (λ b. b ∷ map f xs) e
map-Replaced f e (there {z} q) = ap (λ bs. f z ∷ bs) (map-Replaced f e q)

finished_by_counts :
    (rs : List Rendition)
    → count is_skipped (statuses rs) + count is_done (statuses rs) ≡ length (statuses rs)
    → All (λ (r : Rendition). is_finished r.status ≡ true) rs
unfolding statuses
finished_by_counts [] h = tt
finished_by_counts (r ∷ rs) h = (
  ground (arith, both_le (statuses rs)),
  finished_by_counts rs (ground (arith, both_le (statuses rs))),
)

finished_of_done :
    (rs : List Rendition)
    → derive_video_status (statuses rs) ≡ done
    → All (λ (r : Rendition). is_finished r.status ≡ true) rs
finished_of_done rs h = finished_by_counts rs (ground (arith, derive_by_counts (statuses rs)))

-- A video without renditions is not followed: it is uploading, or its upload has failed.
abbrev pub IsDerived : Video → Type 0
IsDerived v = is_empty v.renditions ≡ false → v.status ≡ derive_video_status (statuses v.renditions)

abbrev pub HasPlaylist : Video → Type 0
HasPlaylist v =
    v.status ≡ done
    → is_empty (completed_renditions v.renditions) ≡ false
    → is_some v.playback_path ≡ true

pub record IsFollowed (v : Video) : Type 0 where
  pub derived : IsDerived v
  pub playlist : HasPlaylist v

Replaced-nonempty {ℓ} :
    {A : Type ℓ} {x y : A} {xs ys : List A} → Replaced x y xs ys → is_empty xs ≡ false
Replaced-nonempty here = refl
Replaced-nonempty (there q) = refl

beaten-completed :
    {r : Rendition} (now : ℕ) {rs rs' : List Rendition}
    → Replaced r (beaten now r) rs rs'
    → completed_renditions rs' ≡ completed_renditions rs
unfolding completed_renditions
beaten-completed now here = refl
beaten-completed now (there {z} q) =
    ap (λ cs. completed_rendition z.resolution (is_done z.status) z.output_path ++ cs)
      (beaten-completed now q)

message-completed :
    {r : Rendition} (f : OutboxMessage → OutboxMessage) {rs rs' : List Rendition}
    → Replaced r (with_message f r) rs rs'
    → completed_renditions rs' ≡ completed_renditions rs
unfolding completed_renditions
message-completed f here = refl
message-completed f (there {z} q) =
    ap (λ cs. completed_rendition z.resolution (is_done z.status) z.output_path ++ cs)
      (message-completed f q)

finished_inactive :
    (rs : List Rendition)
    → All (λ (r : Rendition). is_finished r.status ≡ true) rs
    → has_active_renditions rs ≡ false
unfolding has_active_renditions is_active
finished_inactive [] h = refl
finished_inactive (r ∷ rs) h = ground (arith, finished_inactive rs, h)

pub Change-IsFollowed : (v w : Video) → Change v w → IsFollowed v → IsFollowed w
unfolding statuses
Change-IsFollowed v _ stays f = f
Change-IsFollowed v w (beats r now busy q same path) f = record {
  derived = λ _.
      same
      ∙ f.derived (Replaced-nonempty q)
      ∙ ap derive_video_status (map-Replaced (λ (x : Rendition). x.status) refl q);
  playlist = λ over some_done.
      rw path
        (f.playlist (sym same ∙ over) (ap is_empty (sym (beaten-completed now q)) ∙ some_done));
}
Change-IsFollowed v w (queues r f q same path) g = record {
  derived = λ _.
      same
      ∙ g.derived (Replaced-nonempty q)
      ∙ ap derive_video_status (map-Replaced (λ (x : Rendition). x.status) refl q);
  playlist = λ over some_done.
      rw path
        (g.playlist (sym same ∙ over) (ap is_empty (sym (message-completed f q)) ∙ some_done));
}
Change-IsFollowed v w (turns r r' t q status p) f = record {
  derived = λ _. status;
  playlist = λ over some_done.
      let all = finished_of_done w.renditions (sym status ∙ over) in
      p (holds_of_new (λ (x : Rendition). is_finished x.status ≡ true) q all)
        (finished_inactive w.renditions all) some_done;
}

pub followed_plays :
    (signs : String → Bool) (url : String) (expires_at : Option String) (v : Video)
    → ((path : String) → signs path ≡ true)
    → IsFollowed v
    → v.status ≡ done
    → is_empty (completed_renditions v.renditions) ≡ false
    → get_video_playback signs url expires_at v ≡ returns (playback_of url expires_at v)
unfolding get_video_playback validate_playable_video
followed_plays signs url expires_at v h f over some_done = elim (Option-cases v.playback_path) [
  | inl e ↦ absurd (false≢true (ap is_some (sym e) ∙ f.playlist over some_done))
  | inr (path, e) ↦ simp (over, e, some_done, h path)
]

module _ (accepts : String → String → Bool) (backoffs : List ℕ) where
  run-IsFollowed :
      (evs : List Event) (db : List Video) (i : ℕ) (v : Video)
      → All IsFollowed db
      → get_elem? (run accepts backoffs evs db).1 i ≡ some v
      → IsFollowed v
  run-IsFollowed evs db i v h e =
      All-get_elem? IsFollowed (run accepts backoffs evs db).1 i v e
        (run-keeps accepts backoffs IsFollowed Change-IsFollowed evs db h)

  -- Whatever transactions come, a video with renditions has the status that is derived from them, if it
  -- was so in each video before.
  pub run-status_derived :
      (evs : List Event) (db : List Video) (i : ℕ) (v : Video)
      → All IsFollowed db
      → get_elem? (run accepts backoffs evs db).1 i ≡ some v
      → is_empty v.renditions ≡ false
      → v.status ≡ derive_video_status (statuses v.renditions)
  run-status_derived evs db i v h e rows = (run-IsFollowed evs db i v h e).derived rows

  -- Whatever transactions come and whichever of them could not store a playlist, a video that is done and
  -- has a rendition that is done with its output can be played, if the storage signs its paths and if
  -- each video before had the status that is derived, and a playlist if it was done.
  pub run-plays :
      (evs : List Event) (db : List Video) (i : ℕ) (v : Video) (signs : String → Bool)
      (url : String) (expires_at : Option String)
      → ((path : String) → signs path ≡ true)
      → All IsFollowed db
      → get_elem? (run accepts backoffs evs db).1 i ≡ some v
      → v.status ≡ done
      → is_empty (completed_renditions v.renditions) ≡ false
      → get_video_playback signs url expires_at v ≡ returns (playback_of url expires_at v)
  run-plays evs db i v signs url expires_at s h e =
      followed_plays signs url expires_at v s (run-IsFollowed evs db i v h e)
