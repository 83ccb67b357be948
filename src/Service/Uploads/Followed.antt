-- ===== src/Service/Uploads/Followed.antt =====
-- core/services/upload_service.py, job_service.py and playback_service.py together: from the empty database
-- on, every video is kept well, whatever is called.
use rendition.Common.{
  ℕ, suc, String, Bool, true, false, not, Option, none, some, List, [], ◌∷◌, ◌≡◌, refl, sym, ◌∙◌,
  arith, All, if_cases, string_eq, ◌==◌, nat_eq, Bool-cases, inl, inr,
}
use mathlib.Core.Bool.{false≢true}
use rendition.Api.{ProcessingStatus, uploading, pending, done, failed, CompletedPart}
use rendition.Service.{UploadSession, Video, Outcome, raises, returns, statuses}
use rendition.Service.Status.{derive_video_status, is_empty}
use rendition.Service.Playback.Presets.{EncodingPreset, hls_presets}
use rendition.Service.Jobs.Rows.{IsConsistent}
use rendition.Service.Jobs.Videos.{IsFollowed}
use rendition.Service.Uploads.{
  get_active_upload_session, validate_completed_upload_parts, new_renditions,
  create_renditions_and_jobs, upload_completed, Completing, finish_upload, with_metadata,
  complete_session, is_uploading,
}
use rendition.Service.Uploads.Steps.{aborted, with_video}

pub record IsKept (v : Video) : Type 0 where
  pub rows : All IsConsistent v.renditions
  pub followed : IsFollowed v

-- The upload's session is not read.
session_IsKept :
    (s : Option UploadSession) (v : Video) → IsKept v → IsKept (record v { upload_session = s })
session_IsKept s v k = record {
  rows = k.rows;
  followed = record { derived = k.followed.derived; playlist = k.followed.playlist };
}

never_uploading : (ss : List ProcessingStatus) → derive_video_status ss ≡ uploading → ⊥
unfolding derive_video_status
never_uploading ss h = ground arith

-- While its upload goes on, a video has no renditions.
no_rows_yet : (v : Video) → IsKept v → v.status ≡ uploading → is_empty v.renditions ≡ true
no_rows_yet v k up = elim (Bool-cases (is_empty v.renditions)) [
  | inl h ↦ h
  | inr h ↦ absurd (never_uploading (statuses v.renditions) (sym (k.followed.derived h) ∙ up))
]

pub is_uploading-eq : (s : ProcessingStatus) → not (is_uploading s) ≡ false → s ≡ uploading
is_uploading-eq uploading h = refl
is_uploading-eq ProcessingStatus.uploaded h = cc
is_uploading-eq pending h = cc
is_uploading-eq ProcessingStatus.running h = cc
is_uploading-eq ProcessingStatus.partial h = cc
is_uploading-eq done h = cc
is_uploading-eq ProcessingStatus.skipped h = cc
is_uploading-eq failed h = cc

pub session_uploading :
    (v : Video) (session : UploadSession)
    → get_active_upload_session v ≡ returns session
    → v.status ≡ uploading
unfolding get_active_upload_session
session_uploading v session h = is_uploading-eq v.status (ground arith)

module _ (now : ℕ) (new_id : ℕ → String) (max_attempts : ℕ) where
  new_renditions-IsConsistent :
      (k : ℕ) (presets : List EncodingPreset)
      → All IsConsistent (new_renditions now new_id max_attempts k presets)
  unfolding new_renditions
  new_renditions-IsConsistent k [] = tt
  new_renditions-IsConsistent k (p ∷ ps) =
      ((refl, refl, refl, refl, omega arith), new_renditions-IsConsistent (suc k) ps)

  completed-IsKept :
      (session : UploadSession) (v : Video)
      → is_empty v.renditions ≡ true
      → IsKept (upload_completed now new_id max_attempts session v)
  unfolding upload_completed create_renditions_and_jobs new_renditions derive_video_status statuses
  completed-IsKept session v h = record {
    rows = simp h (new_renditions-IsConsistent 0 hls_presets);
    followed = record { derived = λ _. simp h refl; playlist = λ e. absurd (cc) };
  }

abbrev Keeps {ℓ} : {A : Type ℓ} → Outcome A × Video → Type 0
Keeps p = IsKept p.1

module _ (now : ℕ) (new_id : ℕ → String) (max_attempts : ℕ) (storage : Completing) (v : Video)
    (k : IsKept v) where
  finish_upload-Keeps :
      (e : Option String) (session : UploadSession)
      → v.status ≡ uploading
      → Keeps (finish_upload now new_id max_attempts storage e session v)
  finish_upload-Keeps none session up =
      completed-IsKept now new_id max_attempts session v (no_rows_yet v k up)
  finish_upload-Keeps (some error) session up =
      if_cases Keeps storage.deletes _ _ (λ _. session_IsKept _ v k) (λ _. session_IsKept _ v k)

  with_metadata-Keeps :
      (m : Outcome _) (session : UploadSession)
      → v.status ≡ uploading
      → Keeps (with_metadata now new_id max_attempts storage m session v)
  with_metadata-Keeps (raises e) session up = session_IsKept _ v k
  with_metadata-Keeps (returns m) session up = finish_upload-Keeps _ session up

  pub complete_session-Keeps :
      (parts : List CompletedPart) (o : Outcome UploadSession)
      → get_active_upload_session v ≡ o
      → Keeps (complete_session now new_id max_attempts storage parts o v)
  complete_session-Keeps parts (raises e) h = k
  complete_session-Keeps parts (returns session) h =
      if_cases Keeps (not (validate_completed_upload_parts session parts)) _ _ (λ _. k)
        λ _.
          if_cases Keeps storage.completes _ _
            (λ _. with_metadata-Keeps storage.metadata session (session_uploading v session h))
            (λ _. session_IsKept _ v k)

pub aborted-Keeps :
    (now : ℕ) (aborts : Bool) (v : Video) (o : Outcome UploadSession)
    → IsKept v
    → get_active_upload_session v ≡ o
    → Keeps (aborted now aborts o v)
aborted-Keeps now aborts v (raises e) k h = k
aborted-Keeps now aborts v (returns session) k h =
    if_cases Keeps aborts _ _
      (λ _. record {
        rows = k.rows;
        followed = record {
          derived = λ some_row.
              absurd (false≢true (sym some_row ∙ no_rows_yet v k (session_uploading v session h)));
          playlist = λ e. absurd (cc);
        };
      })
      (λ _. session_IsKept _ v k)

pub with_video-Keeps {ℓ} :
    {A : Type ℓ} (video_id : String) (f : Video → Outcome A × Video) (db : List Video)
    → ((v : Video) → IsKept v → Keeps (f v))
    → All IsKept db
    → All IsKept (with_video video_id f db).1
unfolding with_video
with_video-Keeps video_id f [] h k = tt
with_video-Keeps {A = A} video_id f (v ∷ vs) h k =
    if_cases (λ (p : Option (Outcome A) × List Video). All IsKept p.1) (v.id == video_id) _ _
      (λ _. (h v k.0, k.1)) (λ _. (k.0, with_video-Keeps video_id f vs h k.1))
