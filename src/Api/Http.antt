-- ===== src/Api/Http.antt =====
-- frontend/src/components/uploads/api.ts, lines 65-108 and 174-182: reading the answer of `fetch`.
-- What `fetch` and `response.json()` give is the argument.
use Prim.Native.String.{◌++◌ as append}
use rendition.Common.{
  ℕ, String, Bool, not, ◌&&◌, Option, none, some, ◌≡◌, arith, ltb, leb, ◌==◌, nat_eq, ◌≤◌,
  if◌then◌else◌, or_else,
}
use rendition.Common.Text.{show}

-- What a promise is rejected with: an `Error` with its message, or the `DOMException` "AbortError".
pub data Failure : Type 0 where
  error : String → Failure
  abort_error : Failure

pub data Result {ℓ} (A : Type ℓ) : Type ℓ where
  ok : A → Result A
  err : Failure → Result A

pub record ErrorInfo : Type 0 where
  pub code : Option String
  pub message : Option String
  pub request_id : Option String

pub record ApiErrorBody : Type 0 where
  pub error_info : Option ErrorInfo

-- An answer: `json` is the body read at the type that the caller expects, `error_json` the body read
-- as an error; either is a failure where the text is not JSON.
pub record Response {ℓ} (A : Type ℓ) : Type ℓ where
  pub status : ℕ
  pub json : Result A
  pub error_json : Result ApiErrorBody

-- `fetch` resolves with an answer or is rejected.
pub data Fetched {ℓ} (A : Type ℓ) : Type ℓ where
  answered : Response A → Fetched A
  rejected : Failure → Fetched A

-- response.ok
abbrev pub is_ok : ℕ → Bool
is_ok status = leb 200 status && ltb status 300

-- The `try` of `readApiError`: a body that is no JSON counts as none.
abbrev body_or_null : Result ApiErrorBody → Option ApiErrorBody
body_or_null (ok body) = some body
body_or_null (err e) = none

-- body?.error?.message
abbrev message_of : Option ApiErrorBody → Option String
message_of none = none
message_of (some body) = elim body.error_info [ none ↦ none | some info ↦ info.message ]

unfoldable pub read_api_error {ℓ} : {A : Type ℓ} → Response A → String
read_api_error r =
    or_else (message_of (body_or_null r.error_json)) (append "request failed with " (show r.status))

unfoldable pub request_json {ℓ} : {A : Type ℓ} → Fetched A → Result A
request_json (rejected e) = err e
request_json (answered r) = if not (is_ok r.status) then err (error (read_api_error r)) else r.json

-- abortVideoUpload, after its `fetch`
unfoldable pub abort_video_upload {ℓ} : {A : Type ℓ} → Fetched A → Result (Unit {0})
abort_video_upload (rejected e) = err e
abort_video_upload (answered r) =
    if not (is_ok r.status) && not (r.status == 404) then err (error (read_api_error r)) else ok tt

-- A call returns a value only from an answer with a status of 200 to 299 whose body could be read, and
-- returns that body's value; every such answer gives it.
pub request_json-ok_iff {ℓ} :
    {A : Type ℓ} (f : Fetched A) (a : A)
    → ((request_json f ≡ ok a)
        → (r : Response A) × (f ≡ answered r)
          × (200 ≤ r.status)
          × (r.status ≤ 299)
          × (r.json ≡ ok a))
      × (((r : Response A) × (f ≡ answered r)
            × (200 ≤ r.status)
            × (r.status ≤ 299)
            × (r.json ≡ ok a))
          → (request_json f ≡ ok a))
unfolding request_json
request_json-ok_iff (rejected e) a = ((λ h. cc), λ h. ground arith)
request_json-ok_iff (answered r) a =
    ((λ h. (r, ground arith, ground arith, ground arith, ground arith)), λ h. ground arith)
