-- ===== src/Uploads/Multipart/Rows.antt =====
-- What the rows say that the controller hands to `onChange`.
use rendition.Common.{
  ◌≤◌, true, false, ◌||◌, List, ◌≡◌, refl, sym, arith, All, String, nat_eq, subst,
}
use rendition.Uploads.{UploadedVideo}
use rendition.Api.{status_text, VideoState}
use rendition.Uploads.Multipart.{
  map_video_status, Options, Controller, Output, change, call, throws, is_uploading,
  is_upload_failed, emit, create_multipart_upload_controller,
}
use rendition.Uploads.Multipart.Outputs.{KeepsOutputs, run_keeps}
use rendition.Uploads.Multipart.Steps.{finish, Event, run}

-- A row can be cancelled exactly while its upload runs or has failed, can be retried only when it has
-- failed, and its progress is a percentage.
pub record IsCoherent (row : UploadedVideo) : Type 0 where
  pub cancel : row.can_cancel ≡ (is_uploading row.status || is_upload_failed row.status)
  pub retry : row.can_retry ≡ true → is_upload_failed row.status ≡ true
  pub percent : row.progress ≤ 100

abbrev pub IsCoherentOutput : Output → Type 0
IsCoherentOutput (change row) = IsCoherent row
IsCoherentOutput (call r) = Unit {0}
IsCoherentOutput (throws i e) = Unit {0}

abbrev Coherent : Controller → Type 0
Coherent c = All IsCoherentOutput c.log

emit-Coherent : (o : Options) (c : Controller) → Coherent c → Coherent (emit o c)
unfolding emit
emit-Coherent o c h = (record { cancel = refl; retry = ground arith; percent = ground arith }, h)

-- A finished upload is neither uploading nor failed, whatever status the service answers with.
pub map_video_status_ended :
    (s : String)
    → (is_uploading (map_video_status s) || is_upload_failed (map_video_status s)) ≡ false
unfolding map_video_status
map_video_status_ended s = ground arith

finish-Coherent : (video : VideoState) (c : Controller) → Coherent c → Coherent (finish video c)
unfolding finish
finish-Coherent video c h = (
  record {
    cancel = sym (map_video_status_ended (status_text video.status));
    retry = λ e. cc;
    percent = omega arith;
  },
  h,
)

keeps_rows : (o : Options) → KeepsOutputs o Coherent
keeps_rows o = record {
  quiet = λ c d e₁ e₂ h. subst (All IsCoherentOutput) (sym e₂) h;
  emits = emit-Coherent o;
  calls = λ r c h. (tt, h);
  throwing = λ i e c h. (tt, h);
  finishes = finish-Coherent;
}

-- Whatever calls, answers and request events come in whatever order, every row that the controller
-- hands out can be cancelled exactly if its status is "uploading" or "upload_failed", can be retried only
-- if its status is "upload_failed", and has a progress of at most 100.
pub rows-IsCoherent :
    (o : Options) (evs : List Event)
    → All IsCoherentOutput (run o evs (create_multipart_upload_controller o)).log
unfolding create_multipart_upload_controller
rows-IsCoherent o evs = run_keeps o Coherent (keeps_rows o) evs _ tt
