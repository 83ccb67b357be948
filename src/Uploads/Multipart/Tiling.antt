-- ===== src/Uploads/Multipart/Tiling.antt =====
-- The parts of a file: they follow one another, cover the file, and none is empty or too large.
use rendition.Common.{
  ℕ, zero, suc, ◌+◌, ◌-◌, ◌*◌, ◌≤◌, ◌<◌, min, List, [], ◌∷◌, ◌++◌, ◌≡◌, refl, ap, ap₂, sym, ◌∙◌,
  arith, length, take, drop, length-drop,
}
use rendition.Common.Chunks.{chunk, chunks, chunks_all, length-chunk}
use rendition.Uploads.Multipart.Numbers.{numbers}
use rendition.Uploads.Multipart.Parts.{File, size, get_part_count, part_blob}

-- The blobs of some parts, one behind another.
abbrev pub blobs : File → ℕ → List ℕ → List ℕ
blobs file p [] = []
blobs file p (n ∷ ns) = part_blob file n p ++ blobs file p ns

take-min : (p n : ℕ) (xs : List ℕ) → n ≡ length xs → take (min p n) xs ≡ take p xs
take-min zero n xs e = let nothing : min 0 n ≡ 0 = omega arith in ap (λ m. take m xs) nothing
take-min (suc p) zero [] e =
    let nothing : min (suc p) 0 ≡ 0 = omega arith in ap (λ m. take m []) nothing
take-min (suc p) zero (x ∷ xs) e = absurd (omega arith)
take-min (suc p) (suc n) [] e = absurd (omega arith)
take-min (suc p) (suc n) (x ∷ xs) e =
    let shift : min (suc p) (suc n) ≡ suc (min p n) = omega arith in
    ap (λ m. take m (x ∷ xs)) shift ∙ ap (◌∷◌ x) (take-min p n xs (omega arith))

clip : (s p n : ℕ) → min (s + p) n - s ≡ min p (n - s)
clip s p n = omega arith

pub part_blob-chunk : (file : File) (k p : ℕ) → part_blob file (suc k) p ≡ chunk p k file.content
unfolding part_blob
part_blob-chunk file k p =
    ap (λ n. take n (drop (k * p) file.content)) (clip (k * p) p (size file))
    ∙ take-min p (size file - k * p) (drop (k * p) file.content)
        (sym (length-drop (k * p) file.content))

blobs-chunks : (file : File) (p k n : ℕ) → blobs file p (numbers k n) ≡ chunks p k n file.content
blobs-chunks file p k zero = refl
blobs-chunks file p k (suc n) = ap₂ ◌++◌ (part_blob-chunk file k p) (blobs-chunks file p (suc k) n)

-- For a positive part size, the blobs of the parts 1 to `getPartCount`, in order, are together the file.
pub blobs-numbers :
    (file : File) (p : ℕ) → 0 < p → blobs file p (numbers 0 (get_part_count file p)) ≡ file.content
unfolding get_part_count
blobs-numbers file p h = blobs-chunks file p 0 _ ∙ chunks_all p file.content h

-- For a positive part size, each part from 1 to `getPartCount` has at least one byte and at most the part
-- size, and each but the last has just the part size.
pub length-part_blob :
    (file : File) (p k : ℕ)
    → 0 < p
    → k < get_part_count file p
    → (0 < length (part_blob file (suc k) p))
      × (length (part_blob file (suc k) p) ≤ p)
      × (suc k < get_part_count file p → length (part_blob file (suc k) p) ≡ p)
unfolding get_part_count
length-part_blob file p k h lt = rw (part_blob-chunk file k p) (length-chunk p k file.content h lt)
