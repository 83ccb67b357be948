-- ===== src/Uploads/Dashboard/Checks.antt =====
-- frontend/src/components/uploads/upload-dashboard.tsx, lines 179-229: which files begin an upload, and
-- what the dashboard then asks of the service.
use rendition.Common.{
  ◌≤◌, String, true, none, some, List, ◌∷◌, ◌≡◌, ◌↔◌, refl, arith, any, string_eq, nat_eq, ◌==◌,
  ==_refl,
}
use rendition.Common.Maps.{get, put, get-put}
use rendition.Api.{UploadConfigResponse}
use rendition.Api.Requests.{create_video_upload}
use rendition.Uploads.Multipart.{
  File, Options, Controller, size, normalize_content_type, get_part_count, part_count,
  create_multipart_upload_controller, emit,
}
use rendition.Uploads.Multipart.Steps as Upload
use rendition.Uploads.Dashboard.{
  Browser, Dashboard, Toast, success, refusal, begin_upload, handle_file, step_controller,
  deliver_newest, deliver, update_upload_row,
}

-- A file is refused by no toast exactly if its content type is allowed, its size is at most the limit, and
-- its number of parts is at most the limit.
pub refusal-none_iff :
    (config : UploadConfigResponse) (file : File)
    → (refusal config file ≡ none) ↔ (
        (any (λ t. t == normalize_content_type file) config.allowed_content_types ≡ true)
        × (size file ≤ config.max_size_bytes)
        × (get_part_count file config.part_size_bytes ≤ config.max_part_count))
unfolding refusal get_part_count
refusal-none_iff config file = (λ e. ground arith, λ h. ground arith)

begun :
    (id : String) (o : Options) (c : Controller) (store : List (String × (Options × Controller)))
    → get id (put id (o, c) store) ≡ some (o, c)
begun id o c store = ground (arith, get-put id id (o, c) store, ==_refl id)

step_controller_start :
    (id : String) (o : Options) (d : Dashboard)
    → get id d.store ≡ some (o, create_multipart_upload_controller o)
    → ((step_controller id Upload.start d).calls
        ≡ create_video_upload (record {
          filename = o.file.name;
          content_type = normalize_content_type o.file;
          size_bytes = size o.file;
          part_count = part_count o;
        })
          ∷ d.calls)
      × ((step_controller id Upload.start d).awaits ≡ d.awaits)
      × ((step_controller id Upload.start d).toasts ≡ d.toasts)
unfolding step_controller Upload.step Upload.start_upload create_multipart_upload_controller emit
    deliver_newest deliver update_upload_row
step_controller_start id o d e = rw (e, step_controller) (refl, refl, refl)

-- Once the limits are loaded, a chosen file that no check refuses makes the dashboard call the service just
-- once, to create an upload of that file's name, content type, size and number of parts, await no further
-- answer of its own, and show the toast "Upload started"; a refused file makes it show the refusal and change
-- nothing else.
pub handle_file_outcome :
    (b : Browser) (row_id : String) (file : File) (config : UploadConfigResponse) (d : Dashboard)
    → d.upload_config ≡ some config
    → (refusal config file ≡ none
        → ((handle_file b row_id (some file) d).calls
            ≡ create_video_upload (record {
              filename = file.name;
              content_type = normalize_content_type file;
              size_bytes = size file;
              part_count = get_part_count file config.part_size_bytes;
            })
              ∷ d.calls)
          × ((handle_file b row_id (some file) d).awaits ≡ d.awaits)
          × ((handle_file b row_id (some file) d).toasts
              ≡ record { kind = success; title = "Upload started"; description = some file.name }
                ∷ d.toasts))
      × ((t : Toast)
          → refusal config file ≡ some t
          → handle_file b row_id (some file) d ≡ record d { toasts = t ∷ d.toasts })
unfolding handle_file begin_upload
handle_file_outcome b row_id file config d e = (
  λ passes.
      rw (e, passes, handle_file) (step_controller_start row_id _ _ (begun row_id _ _ d.store)),
  λ t refused. simp (e, refused, handle_file),
)
