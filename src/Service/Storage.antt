-- ===== src/Service/Storage.antt =====
-- core/storage/s3.py, lines 146-200, and core/storage/keys.py: the parts of an upload that the service lists
-- for its client. Signing an URL for a part is outside: the signer returns it or raises.
use Prim.Native.String.{◌++◌ as append}
use rendition.Common.{
  ℕ, zero, suc, String, Bool, true, false, Option, none, some, List, [], ◌∷◌, ◌||◌, any,
  if◌then◌else◌, nat_eq, string_eq, ◌==◌,
}
use rendition.Common.Text.{codes}
use rendition.Api.{MultipartUploadPart}
use rendition.Service.{Outcome, raises, returns}

-- list(range(start, start + count))
unfoldable pub range : ℕ → ℕ → List ℕ
range start zero = []
range start (suc count) = start ∷ range (suc start) count

-- "/" is 47 and "\\" is 92.
unfoldable pub is_key_part : String → Bool
is_key_part value =
    if value == "" || (value == "." || value == "..")
    then false
    else if any (λ c. (c == 47) || (c == 92)) (codes value)
    then false
    else true

unfoldable pub build_source_key : String → String → Outcome String
build_source_key video_id filename =
    if is_key_part filename
    then returns (append "source/" (append video_id (append "/" filename)))
    else raises "filename must be a single object key segment"

-- The parts of the comprehension, which ends with the first URL that cannot be signed.
abbrev pub and_part :
    ℕ → Option String → Outcome (List MultipartUploadPart) → Outcome (List MultipartUploadPart)
and_part n none rest = raises "failed to create upload URLs"
and_part n (some url) (raises e) = raises e
and_part n (some url) (returns ps) = returns (record { part_number = n; upload_url = url } ∷ ps)

module _ (presign : ℕ → Option String) where
  unfoldable pub signed_parts : List ℕ → Outcome (List MultipartUploadPart)
  signed_parts [] = returns []
  signed_parts (n ∷ ns) = let rest = signed_parts ns in and_part n (presign n) rest

  unfoldable pub refresh_multipart_upload_urls : ℕ → Outcome (List MultipartUploadPart)
  refresh_multipart_upload_urls part_count = signed_parts (range 1 part_count)
