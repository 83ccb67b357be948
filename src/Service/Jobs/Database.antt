-- ===== src/Service/Jobs/Database.antt =====
-- core/services/job_service.py, lines 46-60: the database as the list of its videos.
use rendition.Common.{String, none, some, List, [], ◌∷◌, ◌++◌, map, find?}
use rendition.Service.{Job, Rendition, Video, Outcome, raises}
use rendition.Service.Jobs.{has_job}

-- _get_job_for_update: the function is given the job's video and rendition.
unfoldable pub with_job {ℓ} :
    {A : Type ℓ}
    → String
    → (Video → Rendition → Outcome A × Video)
    → List Video
    → Outcome A × List Video
with_job job_id f [] = (raises "encoding job not found", [])
with_job job_id f (v ∷ vs) =
    let rest = with_job job_id f vs in
    elim (find? (has_job job_id) v.renditions) [
      | none ↦ (rest.0, v ∷ rest.1)
      | some r ↦ let changed = f v r in (changed.0, changed.1 ∷ vs)
    ]

abbrev pub all_jobs : List Video → List Job
all_jobs [] = []
all_jobs (v ∷ vs) = map (λ (r : Rendition). r.job) v.renditions ++ all_jobs vs
