-- ===== src/Uploads/Dashboard/Cancelling.antt =====
-- frontend/src/components/uploads/upload-dashboard.tsx, lines 231-274: a row that the user has cancelled.
use rendition.Common.{
  String, false, not, ◌&&◌, none, List, [], ◌∷◌, ◌++◌, ◌≡◌, refl, subst, arith, All, All-filter,
  filter, map, any, if_cases, option_cases, Bool-cases, inl, inr, string_eq, ◌==◌, if◌then◌else◌,
}
use text.Mathlib.TextEquality.{eq_iff}
use rendition.Uploads.{UploadedVideo}
use rendition.Uploads.Multipart.{create_multipart_upload_controller}
use rendition.Uploads.Multipart.Steps as Upload
use rendition.Uploads.Dashboard.{
  Dashboard, Browser, initial, update_upload_row, load_videos, step_controller,
}
use rendition.Uploads.Dashboard.Steps.{
  Event, cancel_clicked, registered, handle_cancel_upload, step, run,
}
use rendition.Uploads.Dashboard.Kept.{KeepsRows, Begins, run_keeps}
use rendition.Uploads.Dashboard.Registered.{IsRegistered, Listed, run-IsRegistered, Listed-Stored}

-- Neither a row nor the map of the ref has the id.
pub record IsGone (id : String) (d : Dashboard) : Type 0 where
  pub rows : All (λ (r : UploadedVideo). (r.id == id) ≡ false) d.upload_rows
  pub controllers : any (λ i. i == id) d.upload_controllers ≡ false

any-filter :
    (id gone : String) (ids : List String)
    → any (λ i. i == id) ids ≡ false
    → any (λ i. i == id) (filter (λ i. not (i == gone)) ids) ≡ false
any-filter id gone [] h = refl
any-filter id gone (i ∷ ids) h = ground (arith, h, any-filter id gone ids)

filtered_out :
    (id : String) (ids : List String) → any (λ i. i == id) (filter (λ i. not (i == id)) ids) ≡ false
filtered_out id [] = refl
filtered_out id (i ∷ ids) = ground (arith, filtered_out id ids)

rows_out :
    (id : String) (rows : List UploadedVideo)
    → All
        (λ (r : UploadedVideo). (r.id == id) ≡ false)
        (filter (λ (r : UploadedVideo). not (r.id == id)) rows)
rows_out id [] = tt
rows_out id (r ∷ rows) = elim (Bool-cases (r.id == id)) [
  | inl same ↦ rw same (rows_out id rows)
  | inr other ↦ rw other (other, rows_out id rows)
]

rows_map :
    (id : String) (row : UploadedVideo) (rows : List UploadedVideo)
    → All (λ (r : UploadedVideo). (r.id == id) ≡ false) rows
    → All
        (λ (r : UploadedVideo). (r.id == id) ≡ false)
        (map (λ (r : UploadedVideo). if r.id == row.id then row else r) rows)
rows_map id row [] h = tt
rows_map id row (r ∷ rows) h = (
  if_cases (λ (x : UploadedVideo). (x.id == id) ≡ false) (r.id == row.id) row r
      (λ same. subst (λ i. (i == id) ≡ false) ((eq_iff r.id row.id).0 same) h.0) (λ _. h.0),
  rows_map id row rows h.1,
)

update_upload_row-IsGone :
    (id : String) (row : UploadedVideo) (d : Dashboard)
    → IsGone id d
    → IsGone id (update_upload_row row d)
unfolding update_upload_row load_videos
update_upload_row-IsGone id row d h =
    if_cases (IsGone id) (not row.can_cancel && not row.can_retry) _ _
      (λ _. record {
        rows = All-filter _ _ d.upload_rows h.rows;
        controllers = any-filter id row.id d.upload_controllers h.controllers;
      })
      (λ _. record { rows = rows_map id row d.upload_rows h.rows; controllers = h.controllers })

any_append :
    (id new : String) (ids : List String)
    → any (λ i. i == id) ids ≡ false
    → (new == id) ≡ false
    → any (λ i. i == id) (ids ++ new ∷ []) ≡ false
any_append id new [] h e = ground (arith, e)
any_append id new (i ∷ ids) h e = ground (arith, h, e, any_append id new ids)

keeps_IsGone : (id : String) → KeepsRows (λ new. (new == id) ≡ false) (IsGone id)
unfolding create_multipart_upload_controller
keeps_IsGone id = record {
  frame = λ d e e₁ e₂ e₃ h. record { rows = rw e₃ h.rows; controllers = rw e₂ h.controllers };
  updates = update_upload_row-IsGone id;
  stores = λ _ o c d h. record { rows = h.rows; controllers = h.controllers };
  begins = λ o d new h. record {
    rows = (new, h.rows);
    controllers = any_append id o.row_id d.upload_controllers h.controllers new;
  };
  cancels = λ other d h. record {
    rows = All-filter _ _ d.upload_rows h.rows;
    controllers = any-filter id other d.upload_controllers h.controllers;
  };
}

unregistered_rows :
    (id : String) (ids : List String) (rows : List UploadedVideo)
    → any (λ i. i == id) ids ≡ false
    → All (λ (r : UploadedVideo). Listed ids r.id) rows
    → All (λ (r : UploadedVideo). (r.id == id) ≡ false) rows
unregistered_rows id ids [] none_listed h = tt
unregistered_rows id ids (r ∷ rows) none_listed h = (
  elim (Bool-cases (r.id == id)) [
    | inl same ↦ absurd (cc (subst (Listed ids) ((eq_iff r.id id).0 same) h.0, none_listed))
    | inr other ↦ other
  ],
  unregistered_rows id ids rows none_listed h.1,
)

unregistered-IsGone :
    (id : String) (d : Dashboard) → IsRegistered d → registered id d ≡ none → IsGone id d
unfolding registered
unregistered-IsGone id d h e = elim (Bool-cases (any (λ i. i == id) d.upload_controllers)) [
  | inl listed ↦ absurd (
      ground (arith, e, listed, Listed-Stored d.upload_controllers d.store id h.controllers listed))
  | inr unlisted ↦ record {
    rows = unregistered_rows id d.upload_controllers d.upload_rows unlisted h.rows;
    controllers = unlisted;
  }
]

handle_cancel_upload-IsGone :
    (id : String) (d : Dashboard) → IsRegistered d → IsGone id (handle_cancel_upload id d)
unfolding handle_cancel_upload
handle_cancel_upload-IsGone id d h =
    option_cases (IsGone id) (registered id d) _ _ (unregistered-IsGone id d h) λ p _.
      let d' = step_controller id Upload.cancel d in
      record {
        rows = rows_out id d'.upload_rows;
        controllers = filtered_out id d'.upload_controllers;
      }

-- Once the user has cancelled an upload, its row and its controller's entry are gone, and they do not come
-- back, whatever the user does and whatever the service or a request still answers, as long as no new
-- upload draws the same id.
pub cancelled_stays_away :
    (b : Browser) (before : List Event) (id : String) (after : List Event)
    → All (Begins (λ new. (new == id) ≡ false)) after
    → IsGone id (run b after (step b (cancel_clicked id) (run b before initial)))
unfolding step
cancelled_stays_away b before id after new =
    run_keeps _ (IsGone id) (keeps_IsGone id) b after _ new
      (handle_cancel_upload-IsGone id (run b before initial) (run-IsRegistered b before))
