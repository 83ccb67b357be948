-- ===== src/Service/Schemas.antt =====
-- api/schemas/video.py, lines 12 and 70-83: what a request to complete an upload must look like before the
-- service reads it.
use rendition.Common.{
  ℕ, zero, suc, ◌+◌, String, Bool, true, false, ◌&&◌, ◌||◌, List, [], ◌∷◌, ◌≡◌, refl, arith, leb,
  ◌≤◌, ◌⊎◌, inl, inr, if◌then◌else◌, nat_eq, ◌==◌, length,
}
use rendition.Common.Text.{codes}
use rendition.Api.{CompletedPart}

-- [A-Fa-f0-9]
abbrev is_hex : ℕ → Bool
is_hex c = (leb b'A' c && leb c b'F') || ((leb b'a' c && leb c b'f') || (leb b'0' c && leb c b'9'))

-- Just `n` such characters and then those of `rest`.
hex_then : List ℕ → ℕ → List ℕ → Bool
hex_then [] zero [] = true
hex_then [] zero (c ∷ cs) = false
hex_then (r ∷ rs) zero [] = false
hex_then (r ∷ rs) zero (c ∷ cs) = let tail = hex_then rs zero cs in if c == r then tail else false
hex_then rest (suc n) [] = false
hex_then rest (suc n) (c ∷ cs) = let tail = hex_then rest n cs in if is_hex c then tail else false

-- PART_ETAG_PATTERN.fullmatch: 32 such characters, in double quotes or without.
matches_etag : List ℕ → Bool
unfolding hex_then
matches_etag [] = false
matches_etag (c ∷ cs) = if c == b'"' then hex_then (b'"' ∷ []) 32 cs else hex_then [] 32 (c ∷ cs)

unfoldable pub is_part_etag : String → Bool
unfolding matches_etag
is_part_etag etag = matches_etag (codes etag)

-- CompletedUploadPart
unfoldable pub is_valid_part : CompletedPart → Bool
is_valid_part part =
    leb 1 part.part_number
    && (leb 1 (length (codes part.etag))
        && (leb (length (codes part.etag)) 1024 && is_part_etag part.etag))

-- VideoUploadCompleteRequest
unfoldable pub is_valid_complete_request : List CompletedPart → Bool
is_valid_complete_request [] = false
is_valid_complete_request (part ∷ []) = is_valid_part part
is_valid_complete_request (part ∷ p ∷ ps) =
    let rest = is_valid_complete_request (p ∷ ps) in if is_valid_part part then rest else false

length-hex_then :
    (rest : List ℕ) (n : ℕ) (cs : List ℕ) → hex_then rest n cs ≡ true → length cs ≡ n + length rest
unfolding hex_then
length-hex_then [] zero [] e = refl
length-hex_then [] zero (c ∷ cs) e = absurd (cc)
length-hex_then (r ∷ rs) zero [] e = absurd (cc)
length-hex_then (r ∷ rs) zero (c ∷ cs) e = ground (arith, e, length-hex_then rs zero cs)
length-hex_then rest (suc n) [] e = absurd (cc)
length-hex_then rest (suc n) (c ∷ cs) e = ground (arith, e, length-hex_then rest n cs)

either_true : (b x y : Bool) → (if b then x else y) ≡ true → (x ≡ true) ⊎ (y ≡ true)
either_true true x y e = inl e
either_true false x y e = inr e

bounded : (n : ℕ) → n ≤ 33 → (leb 1 (suc n) && leb (suc n) 1024) ≡ true
bounded n hi = ground arith

-- The pattern keeps the bounds on the length.
length-matches_etag :
    (cs : List ℕ) → matches_etag cs ≡ true → (leb 1 (length cs) && leb (length cs) 1024) ≡ true
unfolding matches_etag
length-matches_etag [] e = absurd (cc)
length-matches_etag (c ∷ cs) e = elim (either_true (c == b'"') _ _ e) [
  | inl quoted ↦
      let n : length cs ≡ 33 = length-hex_then (b'"' ∷ []) 32 cs quoted in
      bounded (length cs) (omega (arith, n))
  | inr plain ↦
      let n : suc (length cs) ≡ 32 = length-hex_then [] 32 (c ∷ cs) plain in
      bounded (length cs) (omega (arith, n))
]

pub is_valid_part_lem :
    (part : CompletedPart)
    → (leb 1 part.part_number) ≡ true
    → is_part_etag part.etag ≡ true
    → is_valid_part part ≡ true
unfolding is_valid_part is_part_etag
is_valid_part_lem part positive etag =
    ground (arith, positive, etag, length-matches_etag (codes part.etag) etag)
