-- ===== src/Service/Uploads/Fits.antt =====
-- core/services/upload_service.py, lines 124-134, api/schemas/video.py, lines 12 and 70-83, and core/storage/s3.py, lines 169-200, with
-- frontend/src/components/uploads/multipart-upload.ts: what the client sends to complete an upload is what the
-- service accepts.
use rendition.Common.{
  ℕ, map, zero, suc, ◌+◌, ◌≤◌, ◌<◌, String, true, Option, none, some, List, [], ◌∷◌, ◌≡◌, refl, ap,
  arith, All, All-mono, nat_eq, ==_refl, subst,
}
use rendition.Service.Schemas.{is_part_etag, is_valid_complete_request, is_valid_part_lem}
use rendition.Api.{CompletedPart, MultipartUploadPart, VideoCreateResponse}
use rendition.Api.Http.{Result, ok, err}
use rendition.Api.Requests.{Body, parts}
use rendition.Service.{UploadSession, Outcome, raises, returns}
use rendition.Service.Storage.{range, signed_parts, refresh_multipart_upload_urls, and_part}
use rendition.Service.Uploads.{validate_completed_upload_parts, equal_lists}
use rendition.Uploads.Multipart.{
  Options, Output, change, call, throws, part_count, create_multipart_upload_controller,
}
use rendition.Uploads.Multipart.Steps.{Event, created, refreshed, run}
use rendition.Uploads.Multipart.Numbers.{numbers}
use rendition.Uploads.Multipart.Completion.{Tagged, BodyOrdered, IsOrdered, PartInRange}
use rendition.Uploads.Multipart.Completion.Reached.{FromService, TagsOf, complete_calls-IsOrdered}

range-numbers : (k n : ℕ) → range (suc k) n ≡ numbers k n
unfolding range
range-numbers k zero = refl
range-numbers k (suc n) = ap (λ ns. suc k ∷ ns) (range-numbers (suc k) n)

equal_lists_refl : (ns : List ℕ) → equal_lists ns ns ≡ true
equal_lists_refl [] = refl
equal_lists_refl (n ∷ ns) = simp (==_refl n, equal_lists_refl ns) refl

abbrev Between : ℕ → ℕ → MultipartUploadPart → Type 0
Between lo hi part = (lo < part.part_number) × (part.part_number ≤ hi)

abbrev AllReturned : (MultipartUploadPart → Type 0) → Outcome (List MultipartUploadPart) → Type 0
AllReturned P (raises e) = Unit {0}
AllReturned P (returns ps) = All P ps

and_part-AllReturned :
    (lo hi n : ℕ) (url : Option String) (rest : Outcome (List MultipartUploadPart))
    → lo < n
    → n ≤ hi
    → AllReturned (Between n hi) rest
    → AllReturned (Between lo hi) (and_part n url rest)
and_part-AllReturned lo hi n none rest l h a = tt
and_part-AllReturned lo hi n (some url) (raises e) l h a = tt
and_part-AllReturned lo hi n (some url) (returns ps) l h a =
    ((l, h), All-mono (Between n hi) (Between lo hi) (λ part b. (omega arith, b.1)) ps a)

signed_parts-AllReturned :
    (presign : ℕ → Option String) (k n hi : ℕ)
    → k + n ≤ hi
    → AllReturned (Between k hi) (signed_parts presign (range (suc k) n))
unfolding signed_parts range
signed_parts-AllReturned presign k zero hi h = tt
signed_parts-AllReturned presign k (suc n) hi h =
    and_part-AllReturned k hi (suc k) (presign (suc k)) _ (omega arith) (omega arith)
      (signed_parts-AllReturned presign (suc k) n hi (omega arith))

-- The storage names a part as the service expects it: 32 hexadecimal digits, quoted or not.
abbrev pub IsPartEtag : String → Type 0
IsPartEtag etag = is_part_etag etag ≡ true

valid_parts :
    (o : Options) (k n : ℕ) (ps : List CompletedPart)
    → 0 < n
    → map (λ (p : CompletedPart). p.part_number) ps ≡ numbers k n
    → All (Tagged o IsPartEtag) ps
    → is_valid_complete_request ps ≡ true
unfolding is_valid_complete_request
valid_parts o k zero ps h e t = absurd (omega arith)
valid_parts o k (suc n) [] h e t = absurd (cc)
valid_parts o k (suc n) (part ∷ []) h e t =
    let here : part.part_number ≡ suc k = cc in is_valid_part_lem part (ground (arith, here)) t.0
valid_parts o k (suc zero) (part ∷ p ∷ ps) h e t = absurd (cc)
valid_parts o k (suc (suc n)) (part ∷ p ∷ ps) h e t =
    let here : part.part_number ≡ suc k = cc in
    let later = valid_parts o (suc k) (suc n) (p ∷ ps) (omega arith) (cc) t.1 in
    simp (is_valid_part_lem part (ground (arith, here)) t.0) later

module _ (session : UploadSession) where
  abbrev BodyAccepted : Body → Type 0
  BodyAccepted (parts ps) =
      (is_valid_complete_request ps ≡ true) × (validate_completed_upload_parts session ps ≡ true)
  BodyAccepted _ = Unit {0}

  -- If the call completes an upload, its body is valid and its parts are those of the session.
  abbrev pub IsAccepted : Output → Type 0
  IsAccepted (call r) = BodyAccepted r.body
  IsAccepted (change row) = Unit {0}
  IsAccepted (throws i e) = Unit {0}

module _ (o : Options) (presign : ℕ → Option String) where
  -- The answers list the parts that the storage signs for the part count of the upload.
  abbrev pub IsServed : Result VideoCreateResponse → Type 0
  IsServed (ok upload) = refresh_multipart_upload_urls presign (part_count o) ≡ returns upload.parts
  IsServed (err e) = Unit {0}

  abbrev pub Served : Event → Type 0
  Served (created i reply) = IsServed reply
  Served (refreshed i reply) = IsServed reply
  Served _ = Unit {0}

  served_in_range :
      (upload : VideoCreateResponse) → IsServed (ok upload) → All (PartInRange o) upload.parts
  unfolding refresh_multipart_upload_urls
  served_in_range upload h =
      subst (AllReturned (PartInRange o)) h
        (signed_parts-AllReturned presign 0 (part_count o) (part_count o) (omega arith))

  reply_in_range : (ev : Event) → Served ev → FromService o ev
  reply_in_range (created i (ok upload)) h = served_in_range upload h
  reply_in_range (refreshed i (ok upload)) h = served_in_range upload h
  reply_in_range (created i (err e)) h = tt
  reply_in_range (refreshed i (err e)) h = tt
  reply_in_range _ h = tt

  module _ (session : UploadSession) (same_count : session.part_count ≡ part_count o)
      (some_part : 0 < session.part_count) where
    body_accepted : (b : Body) → BodyOrdered o IsPartEtag b → BodyAccepted session b
    unfolding validate_completed_upload_parts
    body_accepted (parts ps) h = (
      valid_parts o 0 (part_count o) ps (ground (arith, same_count, some_part)) h.0 h.1,
      simp (h.0, same_count, range-numbers 0 (part_count o))
          (equal_lists_refl (numbers 0 (part_count o))),
    )
    body_accepted Body.nothing h = tt
    body_accepted (Body.create payload) h = tt
    body_accepted (Body.part_count n) h = tt

    ordered-IsAccepted : (out : Output) → IsOrdered o IsPartEtag out → IsAccepted session out
    ordered-IsAccepted (call r) h = body_accepted r.body h
    ordered-IsAccepted (change row) h = tt
    ordered-IsAccepted (throws i e) h = tt

    -- If the session has the part count of the client's upload, which is positive, the client is answered
    -- with the parts that the storage signs for it, and the storage names each part by 32 hexadecimal digits,
    -- in double quotes or without, then whatever happens in whatever order, each call with which the client
    -- completes the upload is accepted: its body is a valid request, ETags included, and its part numbers are
    -- those that the session expects.
    pub client_calls-IsAccepted :
        (evs : List Event)
        → All Served evs
        → All (TagsOf IsPartEtag) evs
        → All (IsAccepted session) (run o evs (create_multipart_upload_controller o)).log
    client_calls-IsAccepted evs h t =
        All-mono (IsOrdered o IsPartEtag) (IsAccepted session) ordered-IsAccepted _ (
          complete_calls-IsOrdered o IsPartEtag evs
            (All-mono Served (FromService o) reply_in_range evs h) t)
