-- ===== src/Api/Requests.antt =====
-- frontend/src/components/uploads/api.ts, lines 74-75 and 110-182: the calls of the service. A call is its
-- method, its path below the base URL and its body; `fetch` itself is outside.
use Prim.Native.String.{◌++◌ as append}
use rendition.Common.{
  ℕ, String, Option, none, some, List, [], ◌∷◌, ◌++◌, if◌then◌else◌, ◌==◌, string_eq,
}
use rendition.Common.Text.{show}
use rendition.Api.{ProcessingStatus, status_text, CompletedPart}

pub record VideoCreateRequest : Type 0 where
  pub filename : String
  pub content_type : String
  pub size_bytes : ℕ
  pub part_count : ℕ

-- What `JSON.stringify` is given.
pub data Body : Type 0 where
  nothing : Body
  create : VideoCreateRequest → Body
  part_count : ℕ → Body
  parts : List CompletedPart → Body

pub data Method : Type 0 where
  get post delete : Method

pub record Request : Type 0 where
  pub method : Method
  pub path : String
  pub body : Body

unfoldable pub create_video_upload : VideoCreateRequest → Request
create_video_upload payload = record { method = post; path = "/videos"; body = create payload }

unfoldable pub get_upload_config : Request
get_upload_config = record { method = get; path = "/videos/upload/config"; body = nothing }

pub record ListOptions : Type 0 where
  pub page : Option ℕ
  pub page_size : Option ℕ
  pub status : Option ProcessingStatus

abbrev param : String → Option String → List (String × String)
param name none = []
param name (some value) = (name, value) ∷ []

abbrev map_option {ℓ κ} : {A : Type ℓ} {B : Type κ} → (A → B) → Option A → Option B
map_option f none = none
map_option f (some a) = some (f a)

-- The entries of `params`, in the order in which they are set; no name is set twice.
unfoldable pub list_params : ListOptions → List (String × String)
list_params o =
    param "page" (map_option show o.page)
    ++ (param "page_size" (map_option show o.page_size)
        ++ param "status" (map_option status_text o.status))

-- params.toString(); names and values are made of letters, digits and `_`, which are not escaped.
unfoldable pub query_text : List (String × String) → String
query_text [] = ""
query_text ((k, v) ∷ []) = append k (append "=" v)
query_text ((k, v) ∷ p ∷ ps) = append k (append "=" (append v (append "&" (query_text (p ∷ ps)))))

unfoldable pub list_videos : Option ListOptions → Request
unfolding list_params query_text
list_videos none = record { method = get; path = "/videos"; body = nothing }
list_videos (some o) =
    let query = query_text (list_params o) in
    let path = append "/videos" (if query == "" then "" else append "?" query) in
    record { method = get; path = path; body = nothing }

unfoldable pub get_video_state : String → Request
get_video_state video_id = record {
  method = get;
  path = append "/videos/" video_id;
  body = nothing;
}

unfoldable pub get_video_playback : String → Request
get_video_playback video_id = record {
  method = get;
  path = append "/videos/" (append video_id "/playback");
  body = nothing;
}

unfoldable pub refresh_video_upload : String → ℕ → Request
refresh_video_upload video_id n = record {
  method = post;
  path = append "/videos/" (append video_id "/upload/refresh");
  body = part_count n;
}

unfoldable pub complete_video_upload : String → List CompletedPart → Request
complete_video_upload video_id ps = record {
  method = post;
  path = append "/videos/" (append video_id "/upload/complete");
  body = parts ps;
}

unfoldable pub abort_video_upload : String → Request
abort_video_upload video_id = record {
  method = delete;
  path = append "/videos/" (append video_id "/upload");
  body = nothing;
}
