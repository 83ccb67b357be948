-- ===== src/Uploads/Dashboard/Kept.antt =====
-- Induction over the events of the dashboard, for a property of its upload rows and their controllers.
use rendition.Common.{
  ℕ, zero, suc, String, Bool, false, not, map, Option, none, some, List, [], ◌∷◌, ◌++◌, ◌≡◌, refl,
  length, All, filter, if_cases, option_cases, string_eq, ◌==◌, nat_eq,
}
use rendition.Uploads.Dashboard.{
  ask, ids_of, Dashboard, Browser, Await, loading_config, loading_videos, polling,
  poll_video_states, load_videos, deliver, deliver_newest, step_controller, update_upload_row,
  refusal, begin_upload, handle_file, pollable,
}
use rendition.Common.Maps.{get, put}
use rendition.Api.{VideoListItem, VideoState, UploadConfigResponse}
use rendition.Api.Requests.{get_video_state}
use rendition.Api.Http.{Result, ok, err, error, abort_error}
use rendition.Uploads.{UploadedVideo}
use rendition.Uploads.Multipart.{
  Options, Controller, Output, change, call, throws, File, create_multipart_upload_controller,
}
use rendition.Uploads.Multipart.Steps
use rendition.Uploads.Dashboard.Steps.{
  Event, mounted, rendered, tick, config_reply, videos_reply, states_reply, dragging, file_chosen,
  retry_clicked, cancel_clicked, upload, unmounted, config_answered, show_response, videos_answered,
  states_answered, registered, handle_retry_upload, handle_cancel_upload, unmount, at_await, mount,
  step, run,
}

-- What a property must bear so that every event keeps it, when the ids of new rows are as `A` says.
pub record KeepsRows (A : String → Type 0) (P : Dashboard → Type 0) : Type 0 where
  pub frame :
      (d e : Dashboard)
      → e.store ≡ d.store
      → e.upload_controllers ≡ d.upload_controllers
      → e.upload_rows ≡ d.upload_rows
      → P d
      → P e
  pub updates : (row : UploadedVideo) (d : Dashboard) → P d → P (update_upload_row row d)
  pub stores :
      (id : String) (o : Options) (c : Controller) (d : Dashboard)
      → P d
      → P (record d { store = put id (o, c) d.store })
  pub begins :
      (o : Options) (d : Dashboard)
      → A o.row_id
      → P d
      → P (record d {
        store = put o.row_id (o, create_multipart_upload_controller o) d.store;
        upload_controllers = d.upload_controllers ++ o.row_id ∷ [];
        upload_rows = (create_multipart_upload_controller o).row ∷ d.upload_rows;
      })
  pub cancels :
      (id : String) (d : Dashboard)
      → P d
      → P (record d {
        upload_controllers = filter (λ i. not (i == id)) d.upload_controllers;
        upload_rows = filter (λ (r : UploadedVideo). not (r.id == id)) d.upload_rows;
      })

-- The event begins no upload, or one with such an id.
abbrev pub Begins : (String → Type 0) → Event → Type 0
Begins A (file_chosen row_id file) = A row_id
Begins A _ = Unit {0}

module _ (A : String → Type 0) (P : Dashboard → Type 0) (k : KeepsRows A P) where
  deliver_keeps : (x : Output) (d : Dashboard) → P d → P (deliver x d)
  unfolding deliver
  deliver_keeps (change row) d h = k.updates row d h
  deliver_keeps (call r) d h = k.frame d _ refl refl refl h
  deliver_keeps (throws i abort_error) d h = h
  deliver_keeps (throws i (error m)) d h = k.frame d _ refl refl refl h

  deliver_newest_keeps :
      (n : ℕ) (xs : List Output) (d : Dashboard) → P d → P (deliver_newest n xs d)
  unfolding deliver_newest
  deliver_newest_keeps zero xs d h = h
  deliver_newest_keeps (suc n) [] d h = h
  deliver_newest_keeps (suc n) (x ∷ xs) d h = deliver_keeps x _ (deliver_newest_keeps n xs d h)

  pub step_controller_keeps :
      (id : String) (ev : Steps.Event) (d : Dashboard) → P d → P (step_controller id ev d)
  unfolding step_controller
  step_controller_keeps id ev d h =
      option_cases P (get id d.store) _ _ (λ _. h)
        λ p _. deliver_newest_keeps _ _ _ (k.stores id p.0 (Steps.step p.0 ev p.1) d h)

  poll_video_states_keeps : (d : Dashboard) → P d → P (poll_video_states d)
  unfolding poll_video_states
  poll_video_states_keeps d h =
      let polled = filter pollable d.videos_ref in
      if_cases P (length polled == 0) d
        (ask (map get_video_state (ids_of polled)) (polling (ids_of polled)) d) (λ _. h)
        (λ _. k.frame d _ refl refl refl h)

  begin_upload_keeps :
      (b : Browser) (config : UploadConfigResponse) (row_id : String) (file : File) (d : Dashboard)
      → A row_id
      → P d
      → P (begin_upload b config row_id file d)
  unfolding begin_upload
  begin_upload_keeps b config row_id file d a h =
      step_controller_keeps row_id Steps.start _ (k.frame _ _ refl refl refl (k.begins _ d a h))

  handle_file_keeps :
      (b : Browser) (row_id : String) (file : Option File) (d : Dashboard)
      → A row_id
      → P d
      → P (handle_file b row_id file d)
  unfolding handle_file
  handle_file_keeps b row_id none d a h = h
  handle_file_keeps b row_id (some file) d a h =
      option_cases P d.upload_config _ _ (λ _. k.frame d _ refl refl refl h)
        λ config _.
          option_cases P (refusal config file) _ _
            (λ _. begin_upload_keeps b config row_id file d a h)
            (λ t _. k.frame d _ refl refl refl h)

  config_answered_keeps :
      (reply : Result UploadConfigResponse) (d : Dashboard) → P d → P (config_answered reply d)
  unfolding config_answered
  config_answered_keeps (ok config) d h = k.frame d _ refl refl refl h
  config_answered_keeps (err e) d h = k.frame d _ refl refl refl h

  show_response_keeps :
      (b : Browser) (reply : Result (List VideoListItem)) (d : Dashboard)
      → P d
      → P (show_response b reply d)
  unfolding show_response
  show_response_keeps b (ok response) d h = k.frame d _ refl refl refl h
  show_response_keeps b (err e) d h = k.frame d _ refl refl refl h

  videos_answered_keeps :
      (b : Browser) (then_poll : Bool) (reply : Result (List VideoListItem)) (d : Dashboard)
      → P d
      → P (videos_answered b then_poll reply d)
  unfolding videos_answered
  videos_answered_keeps b then_poll reply d h =
      let w =
        k.frame _ (record (show_response b reply d) { is_loading_videos = false }) refl refl refl
          (show_response_keeps b reply d h) in
      if_cases P then_poll _ _ (λ _. poll_video_states_keeps _ w) (λ _. w)

  states_answered_keeps :
      (reply : Result (List VideoState)) (d : Dashboard) → P d → P (states_answered reply d)
  unfolding states_answered
  states_answered_keeps (ok states) d h = k.frame d _ refl refl refl h
  states_answered_keeps (err e) d h = k.frame d _ refl refl refl h

  at_await_keeps :
      (b : Browser) (ev : Event) (x : Option Await) (d : Dashboard) → P d → P (at_await b ev x d)
  unfolding at_await
  at_await_keeps b (config_reply i reply) (some loading_config) d h =
      config_answered_keeps reply _ (k.frame d _ refl refl refl h)
  at_await_keeps b (videos_reply i reply) (some (loading_videos then_poll)) d h =
      videos_answered_keeps b then_poll reply _ (k.frame d _ refl refl refl h)
  at_await_keeps b (states_reply i reply) (some (polling ids)) d h =
      states_answered_keeps reply _ (k.frame d _ refl refl refl h)
  at_await_keeps b _ _ d h = h

  handle_retry_upload_keeps : (id : String) (d : Dashboard) → P d → P (handle_retry_upload id d)
  unfolding handle_retry_upload
  handle_retry_upload_keeps id d h =
      option_cases P (registered id d) _ _ (λ _. h)
        λ p _. step_controller_keeps id Steps.retry_failed_parts _ (k.frame d _ refl refl refl h)

  handle_cancel_upload_keeps : (id : String) (d : Dashboard) → P d → P (handle_cancel_upload id d)
  unfolding handle_cancel_upload
  handle_cancel_upload_keeps id d h =
      option_cases P (registered id d) _ _ (λ _. h)
        λ p _.
          k.frame _ _ refl refl refl (k.cancels id _ (step_controller_keeps id Steps.cancel d h))

  unmount_keeps : (ids : List String) (d : Dashboard) → P d → P (unmount ids d)
  unfolding unmount
  unmount_keeps [] d h = h
  unmount_keeps (id ∷ ids) d h = unmount_keeps ids _ (step_controller_keeps id Steps.cancel d h)

  pub step_keeps : (b : Browser) (ev : Event) (d : Dashboard) → Begins A ev → P d → P (step b ev d)
  unfolding step mount load_videos
  step_keeps b mounted d a h = k.frame d _ refl refl refl h
  step_keeps b rendered d a h = k.frame d _ refl refl refl h
  step_keeps b tick d a h = poll_video_states_keeps d h
  step_keeps b (dragging is_dragging) d a h = k.frame d _ refl refl refl h
  step_keeps b (file_chosen row_id file) d a h = handle_file_keeps b row_id file d a h
  step_keeps b (retry_clicked row_id) d a h = handle_retry_upload_keeps row_id d h
  step_keeps b (cancel_clicked row_id) d a h = handle_cancel_upload_keeps row_id d h
  step_keeps b (upload row_id ev) d a h = step_controller_keeps row_id ev d h
  step_keeps b unmounted d a h = unmount_keeps d.upload_controllers d h
  step_keeps b (config_reply i reply) d a h = at_await_keeps b _ _ d h
  step_keeps b (videos_reply i reply) d a h = at_await_keeps b _ _ d h
  step_keeps b (states_reply i reply) d a h = at_await_keeps b _ _ d h

  pub run_keeps :
      (b : Browser) (evs : List Event) (d : Dashboard) → All (Begins A) evs → P d → P (run b evs d)
  unfolding run
  run_keeps b [] d a h = h
  run_keeps b (ev ∷ evs) d a h = run_keeps b evs (step b ev d) a.1 (step_keeps b ev d a.0 h)
