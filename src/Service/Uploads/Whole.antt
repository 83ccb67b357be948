-- ===== src/Service/Uploads/Whole.antt =====
-- core/services/upload_service.py, job_service.py and playback_service.py together: what holds of every
-- database that the calls of the service reach from the empty one.
use rendition.Common.{
  ℕ, String, Bool, true, false, Option, some, List, [], ◌∷◌, ◌≡◌, refl, All, All-append, get_elem?,
  All-get_elem?,
}
use rendition.Api.{done, MultipartUploadPart}
use rendition.Service.{Video, Outcome, raises, returns, statuses}
use rendition.Service.Status.{derive_video_status, is_empty}
use rendition.Service.Playback.{completed_renditions, get_video_playback, playback_of}
use rendition.Service.Jobs.Rows.{IsConsistent, Change-IsConsistent}
use rendition.Service.Jobs.Videos.{Change-IsFollowed, followed_plays}
use rendition.Service.Jobs.Changes.{Change}
use rendition.Service.Jobs.Histories.{step-keeps}
use rendition.Service.Uploads.{complete_video_upload}
use rendition.Service.Uploads.Steps.{
  Source, add_video, with_key, create_video_upload, abort_video_upload, Event, create, complete,
  abort, job, step, run,
}
use rendition.Service.Uploads.Followed.{
  IsKept, aborted-Keeps, with_video-Keeps, complete_session-Keeps,
}

Change-IsKept : (v w : Video) → Change v w → IsKept v → IsKept w
Change-IsKept v w c k = record {
  rows = Change-IsConsistent v w c k.rows;
  followed = Change-IsFollowed v w c k.followed;
}

module _ (accepts : String → String → Bool) (backoffs : List ℕ) (bucket : String) where
  add_video-IsKept :
      (video_id key : String) (source : Source) (o : Outcome (String × List MultipartUploadPart))
      (db : List Video)
      → All IsKept db
      → All IsKept (add_video video_id bucket key source o db).1
  add_video-IsKept video_id key source (raises e) db k = k
  add_video-IsKept video_id key source (returns (upload_id, parts)) db k =
      All-append IsKept db _ k (
        record {
          rows = tt;
          followed = record { derived = λ e. absurd (cc); playlist = λ e. absurd (cc) };
        },
        tt,
      )

  create-IsKept :
      (video_id : String) (presign : ℕ → Option String) (upload_id : Option String)
      (source : Source) (key : Outcome String) (db : List Video)
      → All IsKept db
      → All IsKept (with_key video_id bucket presign upload_id source key db).1
  create-IsKept video_id presign upload_id source (raises e) db k = k
  create-IsKept video_id presign upload_id source (returns key) db k =
      add_video-IsKept video_id key source _ db k

  step-IsKept :
      (ev : Event) (db : List Video)
      → All IsKept db
      → All IsKept (step accepts backoffs bucket ev db)
  unfolding step create_video_upload complete_video_upload abort_video_upload
  step-IsKept (create video_id presign upload_id source) db k =
      create-IsKept video_id presign upload_id source _ db k
  step-IsKept (complete now new_id max_attempts storage video_id parts) db k =
      with_video-Keeps video_id _ db
        (λ v h. complete_session-Keeps now new_id max_attempts storage v h parts _ refl) k
  step-IsKept (abort now aborts video_id) db k =
      with_video-Keeps video_id _ db (λ v h. aborted-Keeps now aborts v _ h refl) k
  step-IsKept (job ev) db k = step-keeps accepts backoffs IsKept Change-IsKept ev db k

  run-IsKept :
      (evs : List Event) (db : List Video)
      → All IsKept db
      → All IsKept (run accepts backoffs bucket evs db)
  unfolding run
  run-IsKept [] db k = k
  run-IsKept (ev ∷ evs) db k =
      run-IsKept evs (step accepts backoffs bucket ev db) (step-IsKept ev db k)

  service-IsKept :
      (evs : List Event) (i : ℕ) (v : Video)
      → get_elem? (run accepts backoffs bucket evs []) i ≡ some v
      → IsKept v
  service-IsKept evs i v e =
      All-get_elem? IsKept (run accepts backoffs bucket evs []) i v e (run-IsKept evs [] tt)

  -- Whatever is called from the empty database on - uploads created, completed and aborted, jobs claimed,
  -- kept alive, finished and reaped, messages published - and whatever storage and broker answer, each
  -- rendition of each video agrees with its job, a job that waits has a message, and a video that has
  -- renditions has the status that is derived from them.
  pub service-IsConsistent :
      (evs : List Event) (i : ℕ) (v : Video)
      → get_elem? (run accepts backoffs bucket evs []) i ≡ some v
      → is_empty v.renditions ≡ false
      → All IsConsistent v.renditions × (v.status ≡ derive_video_status (statuses v.renditions))
  service-IsConsistent evs i v e some_row =
      let k = service-IsKept evs i v e in (k.rows, k.followed.derived some_row)

  -- Whatever is called from the empty database on, and whichever playlists could not be stored, a video
  -- that is done and has a rendition that is done with its output can be played, if the storage signs
  -- its paths.
  pub service_plays :
      (evs : List Event) (i : ℕ) (v : Video) (signs : String → Bool) (url : String)
      (expires_at : Option String)
      → ((path : String) → signs path ≡ true)
      → get_elem? (run accepts backoffs bucket evs []) i ≡ some v
      → v.status ≡ done
      → is_empty (completed_renditions v.renditions) ≡ false
      → get_video_playback signs url expires_at v ≡ returns (playback_of url expires_at v)
  service_plays evs i v signs url expires_at s e =
      followed_plays signs url expires_at v s (service-IsKept evs i v e).followed
