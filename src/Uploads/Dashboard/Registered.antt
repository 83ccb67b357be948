-- ===== src/Uploads/Dashboard/Registered.antt =====
-- frontend/src/components/uploads/upload-dashboard.tsx, lines 71-274: each upload row of the dashboard has
-- its controller in the map of the ref.
use rendition.Common.{
  String, true, false, not, List, [], ◌∷◌, ◌++◌, ◌≡◌, subst, arith, ◌&&◌, All, All-append,
  All-filter, All-mono, filter, map, any, if_cases, Bool-cases, inl, inr, string_eq, ◌==◌,
  if◌then◌else◌, is_some, ==_refl,
}
use text.Mathlib.TextEquality.{eq_iff}
use rendition.Common.Maps.{get, put, get-put}
use rendition.Uploads.{UploadedVideo}
use rendition.Uploads.Multipart.{Options, Controller, create_multipart_upload_controller}
use rendition.Uploads.Dashboard.{Dashboard, Browser, initial, update_upload_row, load_videos}
use rendition.Uploads.Dashboard.Steps.{Event, file_chosen, registered, run}
use rendition.Uploads.Dashboard.Kept.{KeepsRows, Begins, run_keeps}

-- The id is a key of the map.
abbrev pub Listed : List String → String → Type 0
Listed ids id = any (λ i. i == id) ids ≡ true

abbrev Stored : List (String × (Options × Controller)) → String → Type 0
Stored store id = is_some (get id store) ≡ true

pub record IsRegistered (d : Dashboard) : Type 0 where
  pub rows : All (λ (r : UploadedVideo). Listed d.upload_controllers r.id) d.upload_rows
  pub controllers : All (Stored d.store) d.upload_controllers

Listed-append : (ids : List String) (new id : String) → Listed ids id → Listed (ids ++ new ∷ []) id
Listed-append [] new id h = cc
Listed-append (i ∷ ids) new id h = ground (arith, h, Listed-append ids new id)

Listed-new : (ids : List String) (new : String) → Listed (ids ++ new ∷ []) new
Listed-new [] new = ground (arith, ==_refl new)
Listed-new (i ∷ ids) new = ground (arith, Listed-new ids new)

Listed-filter :
    (ids : List String) (gone id : String)
    → (id == gone) ≡ false
    → Listed ids id
    → Listed (filter (λ i. not (i == gone)) ids) id
Listed-filter [] gone id other h = h
Listed-filter (i ∷ ids) gone id other h =
    ground
      (arith, h, other, eq_iff i gone, eq_iff i id, eq_iff id gone, Listed-filter ids gone id other)

rows_filter :
    (ids : List String) (gone : String) (rows : List UploadedVideo)
    → All (λ (r : UploadedVideo). Listed ids r.id) rows
    → All
        (λ (r : UploadedVideo). Listed (filter (λ i. not (i == gone)) ids) r.id)
        (filter (λ (r : UploadedVideo). not (r.id == gone)) rows)
rows_filter ids gone [] h = tt
rows_filter ids gone (r ∷ rows) h = elim (Bool-cases (r.id == gone)) [
  | inl same ↦ rw same (rows_filter ids gone rows h.1)
  | inr other ↦ rw other (Listed-filter ids gone r.id other h.0, rows_filter ids gone rows h.1)
]

rows_map :
    (ids : List String) (row : UploadedVideo) (rows : List UploadedVideo)
    → All (λ (r : UploadedVideo). Listed ids r.id) rows
    → All
        (λ (r : UploadedVideo). Listed ids r.id)
        (map (λ (r : UploadedVideo). if r.id == row.id then row else r) rows)
rows_map ids row [] h = tt
rows_map ids row (r ∷ rows) h = (
  if_cases (λ (x : UploadedVideo). Listed ids x.id) (r.id == row.id) row r
      (λ same. subst (Listed ids) ((eq_iff r.id row.id).0 same) h.0) (λ _. h.0),
  rows_map ids row rows h.1,
)

Stored-put :
    (new id : String) (o : Options) (c : Controller)
    (store : List (String × (Options × Controller)))
    → Stored store id
    → Stored (put new (o, c) store) id
Stored-put new id o c store h = ground (arith, get-put new id (o, c) store, h)

Stored-new :
    (new : String) (o : Options) (c : Controller) (store : List (String × (Options × Controller)))
    → Stored (put new (o, c) store) new
Stored-new new o c store = ground (arith, get-put new new (o, c) store, ==_refl new)

update_upload_row-IsRegistered :
    (row : UploadedVideo) (d : Dashboard) → IsRegistered d → IsRegistered (update_upload_row row d)
unfolding update_upload_row load_videos
update_upload_row-IsRegistered row d h =
    if_cases IsRegistered (not row.can_cancel && not row.can_retry) _ _
      (λ _. record {
        rows = rows_filter d.upload_controllers row.id d.upload_rows h.rows;
        controllers = All-filter (Stored d.store) _ d.upload_controllers h.controllers;
      })
      (λ _. record {
        rows = rows_map d.upload_controllers row d.upload_rows h.rows;
        controllers = h.controllers;
      })

keeps_IsRegistered : KeepsRows (λ id. Unit {0}) IsRegistered
unfolding create_multipart_upload_controller
keeps_IsRegistered = record {
  frame = λ d e e₁ e₂ e₃ h. record {
    rows = rw (e₂, e₃) h.rows;
    controllers = rw (e₁, e₂) h.controllers;
  };
  updates = update_upload_row-IsRegistered;
  stores = λ id o c d h. record {
    rows = h.rows;
    controllers =
        All-mono (Stored d.store) _ (λ i. Stored-put id i o c d.store) d.upload_controllers
          h.controllers;
  };
  begins = λ o d a h.
      let c = create_multipart_upload_controller o in
      record {
        rows = (
          Listed-new d.upload_controllers o.row_id,
          All-mono _ _ (λ (r : UploadedVideo). Listed-append d.upload_controllers o.row_id r.id)
              d.upload_rows h.rows,
        );
        controllers =
            All-append _ d.upload_controllers (o.row_id ∷ [])
              (All-mono (Stored d.store) _ (λ i. Stored-put o.row_id i o c d.store)
                d.upload_controllers h.controllers)
              (Stored-new o.row_id o c d.store, tt);
      };
  cancels = λ id d h. record {
    rows = rows_filter d.upload_controllers id d.upload_rows h.rows;
    controllers = All-filter (Stored d.store) _ d.upload_controllers h.controllers;
  };
}

every-Begins : (evs : List Event) → All (Begins (λ id. Unit {0})) evs
every-Begins [] = tt
every-Begins (ev ∷ evs) = (begins_any ev, every-Begins evs)
  where
    begins_any : (ev : Event) → Begins (λ id. Unit {0}) ev
    begins_any (file_chosen row_id file) = tt
    begins_any _ = tt

pub run-IsRegistered : (b : Browser) (evs : List Event) → IsRegistered (run b evs initial)
run-IsRegistered b evs =
    run_keeps _ IsRegistered keeps_IsRegistered b evs initial (every-Begins evs)
      (record { rows = tt; controllers = tt })

pub Listed-Stored :
    (ids : List String) (store : List (String × (Options × Controller))) (id : String)
    → All (Stored store) ids
    → Listed ids id
    → Stored store id
Listed-Stored [] store id all h = cc
Listed-Stored (i ∷ ids) store id all h = elim (Bool-cases (i == id)) [
  | inl same ↦ subst (Stored store) ((eq_iff i id).0 same) all.0
  | inr other ↦ Listed-Stored ids store id all.1 (ground (arith, h, other))
]

registered_row :
    (d : Dashboard) (id : String)
    → IsRegistered d
    → Listed d.upload_controllers id
    → is_some (registered id d) ≡ true
unfolding registered
registered_row d id h listed =
    ground (arith, listed, Listed-Stored d.upload_controllers d.store id h.controllers listed)

-- Whatever the user does and the service answers, each upload row that the dashboard shows has its
-- controller in the map where "Retry" and "Cancel" look for it.
pub upload_rows_registered :
    (b : Browser) (evs : List Event)
    → All
        (λ (r : UploadedVideo). is_some (registered r.id (run b evs initial)) ≡ true)
        (run b evs initial).upload_rows
upload_rows_registered b evs =
    let h = run-IsRegistered b evs in
    All-mono _ _ (λ (r : UploadedVideo). registered_row (run b evs initial) r.id h)
      (run b evs initial).upload_rows h.rows
