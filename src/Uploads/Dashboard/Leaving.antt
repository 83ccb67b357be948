-- ===== src/Uploads/Dashboard/Leaving.antt =====
-- frontend/src/components/uploads/upload-dashboard.tsx, lines 87-95: the uploads when the page is left.
use rendition.Common.{
  ℕ, zero, suc, String, true, not, ◌&&◌, Option, none, some, List, [], ◌∷◌, ◌≡◌, refl, sym, ◌∙◌, ap,
  subst, All, if_cases, option_cases, string_eq, ◌==◌, if◌then◌else◌, ==_refl,
}
use rendition.Common.Maps.{get, put, get-put}
use rendition.Api.Http.{error, abort_error}
use rendition.Uploads.{UploadedVideo}
use rendition.Uploads.Multipart.{Options, Controller, Output, change, call, throws, present}
use rendition.Uploads.Multipart.Steps as Upload
use rendition.Uploads.Dashboard.{
  Dashboard, Browser, deliver, deliver_newest, step_controller, update_upload_row, load_videos,
}
use rendition.Uploads.Dashboard.Steps.{unmounted, unmount, step}

update_upload_row-store :
    (row : UploadedVideo) (d : Dashboard) → (update_upload_row row d).store ≡ d.store
unfolding update_upload_row load_videos
update_upload_row-store row d =
    if_cases (λ (e : Dashboard). e.store ≡ d.store) (not row.can_cancel && not row.can_retry) _ _
      (λ _. refl) (λ _. refl)

deliver-store : (x : Output) (d : Dashboard) → (deliver x d).store ≡ d.store
unfolding deliver
deliver-store (change row) d = update_upload_row-store row d
deliver-store (call r) d = refl
deliver-store (throws i abort_error) d = refl
deliver-store (throws i (error m)) d = refl

deliver_newest-store :
    (n : ℕ) (xs : List Output) (d : Dashboard) → (deliver_newest n xs d).store ≡ d.store
unfolding deliver_newest
deliver_newest-store zero xs d = refl
deliver_newest-store (suc n) [] d = refl
deliver_newest-store (suc n) (x ∷ xs) d = deliver-store x _ ∙ deliver_newest-store n xs d

-- The controller with the id, if there is one, has been cancelled.
abbrev Aborted : Option (Options × Controller) → Type 0
Aborted none = Unit {0}
Aborted (some (o, c)) = c.aborted ≡ true

abbrev pub IsAborted : String → Dashboard → Type 0
IsAborted id d = Aborted (get id d.store)

step_cancel-aborted :
    (o : Options) (c : Controller) → (Upload.step o Upload.cancel c).aborted ≡ true
unfolding Upload.step Upload.cancel_upload
step_cancel-aborted o c =
    let w = if_cases (λ (d : Controller). d.aborted ≡ true) c.aborted c _ (λ e. e) (λ _. refl) in
    option_cases (λ (d : Controller). d.aborted ≡ true) (present c.video_id) _ _ (λ _. w) (λ v _. w)

put-Aborted :
    (id j : String) (o : Options) (c : Controller) (store : List (String × (Options × Controller)))
    → c.aborted ≡ true
    → Aborted (get j store)
    → Aborted (get j (put id (o, c) store))
put-Aborted id j o c store a h =
    subst Aborted (sym (get-put id j (o, c) store))
      (if_cases Aborted (id == j) (some (o, c)) (get j store) (λ _. a) (λ _. h))

put_same-Aborted :
    (id : String) (o : Options) (c : Controller) (store : List (String × (Options × Controller)))
    → c.aborted ≡ true
    → Aborted (get id (put id (o, c) store))
put_same-Aborted id o c store a =
    subst Aborted
      (sym (
        get-put id id (o, c) store
        ∙ ap (λ b. if b then some (o, c) else get id store) (==_refl id)))
      a

step_controller-others :
    (id j : String) (d : Dashboard)
    → IsAborted j d
    → IsAborted j (step_controller id Upload.cancel d)
unfolding step_controller
step_controller-others id j d h =
    option_cases (IsAborted j) (get id d.store) _ _ (λ _. h)
      λ p _.
        let c' = Upload.step p.0 Upload.cancel p.1 in
        subst (λ s. Aborted (get j s)) (sym (deliver_newest-store _ _ _))
          (put-Aborted id j p.0 c' d.store (step_cancel-aborted p.0 p.1) h)

step_controller-aborts :
    (id : String) (d : Dashboard) → IsAborted id (step_controller id Upload.cancel d)
unfolding step_controller
step_controller-aborts id d =
    option_cases (IsAborted id) (get id d.store) _ _ (λ e. subst Aborted (sym e) tt)
      λ p _.
        let c' = Upload.step p.0 Upload.cancel p.1 in
        subst (λ s. Aborted (get id s)) (sym (deliver_newest-store _ _ _))
          (put_same-Aborted id p.0 c' d.store (step_cancel-aborted p.0 p.1))

unmount-others :
    (ids : List String) (j : String) (d : Dashboard) → IsAborted j d → IsAborted j (unmount ids d)
unfolding unmount
unmount-others [] j d h = h
unmount-others (id ∷ ids) j d h = unmount-others ids j _ (step_controller-others id j d h)

unmount-aborts : (ids : List String) (d : Dashboard) → All (λ id. IsAborted id (unmount ids d)) ids
unfolding unmount
unmount-aborts [] d = tt
unmount-aborts (id ∷ ids) d =
    let d' = step_controller id Upload.cancel d in
    (unmount-others ids id d' (step_controller-aborts id d), unmount-aborts ids d')

-- When the page is left, the controller of each upload in the map of the ref is cancelled, whatever it is
-- doing.
pub unmounted-aborts :
    (b : Browser) (d : Dashboard)
    → All (λ id. IsAborted id (step b unmounted d)) d.upload_controllers
unfolding step
unmounted-aborts b d = unmount-aborts d.upload_controllers d
