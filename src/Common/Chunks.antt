-- ===== src/Common/Chunks.antt =====
-- A list cut into pieces of one length: the last may be shorter, and together they are the list.
use mathlib.Core.List.{append_assoc, append-nil, List, [], ◌++◌}
use Prim.Native.Nat.{ℕ, zero, suc, ◌+◌, ◌-◌, ◌*◌, ◌/◌, ◌≤◌, ◌<◌}
use mathlib.Core.Path.{◌≡◌, sym, ap, ◌∙◌}
use native.Mathlib.Omega.{arith}
use rendition.Common.Lists.{
  length, take, drop, take-append-drop, length-take, length-drop, drop-of_length-le, drop-drop,
}

pieces_cover : (n p : ℕ) → 0 < p → n ≤ (n + p - 1) / p * p
pieces_cover n p h = grind arith

piece_before_end : (n p k : ℕ) → 0 < p → k < (n + p - 1) / p → k * p < n
piece_before_end n p k h lt = grind arith

module _ {ℓ} {A : Type ℓ} where
  -- The piece at place `k`, from 0.
  abbrev pub chunk : ℕ → ℕ → List A → List A
  chunk p k xs = take p (drop (k * p) xs)

  -- The pieces k, …, k + n - 1, one behind another.
  abbrev pub chunks : ℕ → ℕ → ℕ → List A → List A
  chunks p k zero xs = []
  chunks p k (suc n) xs = chunk p k xs ++ chunks p (suc k) n xs

  chunks-append-drop :
      (p k n : ℕ) (xs : List A) → chunks p k n xs ++ drop ((k + n) * p) xs ≡ drop (k * p) xs
  chunks-append-drop p k zero xs =
      let e : (k + 0) * p ≡ k * p = omega arith in ap (λ m. drop m xs) e
  chunks-append-drop p k (suc n) xs =
      let rest = chunks-append-drop p (suc k) n xs in
      let e : (k + suc n) * p ≡ (suc k + n) * p = omega arith in
      rw (e, append_assoc, rest)
        (rw (← drop-drop (k * p) p (suc k * p) xs (omega arith))
          (take-append-drop p (drop (k * p) xs)))

  pub chunks_all : (p : ℕ) (xs : List A) → 0 < p → chunks p 0 ((length xs + p - 1) / p) xs ≡ xs
  chunks_all p xs h =
      let n = (length xs + p - 1) / p in
      let at_start : 0 * p ≡ 0 = omega arith in
      let none_left =
        drop-of_length-le ((0 + n) * p) xs (omega (arith, pieces_cover (length xs) p h)) in
      sym (append-nil _)
      ∙ ap (◌++◌ (chunks p 0 n xs)) (sym none_left)
      ∙ chunks-append-drop p 0 n xs
      ∙ ap (λ m. drop m xs) at_start

  -- A piece that begins before the end has at least one element, and the piece size unless it is the last.
  pub length-chunk :
      (p k : ℕ) (xs : List A)
      → 0 < p
      → k < (length xs + p - 1) / p
      → (0 < length (chunk p k xs))
        × (length (chunk p k xs) ≤ p)
        × (suc k < (length xs + p - 1) / p → length (chunk p k xs) ≡ p)
  length-chunk p k xs h lt =
      let e = length-take p (drop (k * p) xs) in
      let d = length-drop (k * p) xs in
      let b = piece_before_end (length xs) p k h lt in
      (
        omega arith,
        omega arith,
        λ more. omega (arith, piece_before_end (length xs) p (suc k) h more),
      )
