-- ===== src/Uploads/Multipart/Numbers.antt =====
-- Part numbers: runs of numbers, and the lists that must be one.
use rendition.Common.{
  ℕ, zero, suc, ◌+◌, ◌≤◌, List, [], ◌∷◌, map, ◌≡◌, refl, arith, length, All, subst,
}
use rendition.Common.Sorting.{IsRising}

-- k + 1, …, k + n
abbrev pub numbers : ℕ → ℕ → List ℕ
numbers k zero = []
numbers k (suc n) = suc k ∷ numbers (suc k) n

-- A rising list of as many numbers as there are places is the list of those numbers.
module _ {A : Type 0} (key : A → ℕ) where
  rising_bound :
      (lo hi : ℕ) (xs : List A)
      → IsRising key lo xs
      → All (λ x. key x ≤ hi) xs
      → lo ≤ hi
      → lo + length xs ≤ hi
  rising_bound lo hi [] r h le = omega arith
  rising_bound lo hi (x ∷ xs) r h le = omega (arith, rising_bound (key x) hi xs r.1 h.1 h.0)

  pub rising_full :
      (lo n : ℕ) (xs : List A)
      → IsRising key lo xs
      → All (λ x. key x ≤ lo + n) xs
      → length xs ≡ n
      → map key xs ≡ numbers lo n
  rising_full lo zero [] r h e = refl
  rising_full lo (suc n) [] r h e = absurd (omega arith)
  rising_full lo zero (x ∷ xs) r h e = absurd (omega arith)
  rising_full lo (suc n) (x ∷ xs) r h e =
      let first : key x ≡ suc lo =
        omega (arith, rising_bound (key x) (lo + suc n) xs r.1 h.1 h.0) in
      let shift : lo + suc n ≡ suc lo + n = omega arith in
      let rest =
        rising_full (suc lo) n xs (subst (λ k. IsRising key k xs) first r.1)
          (subst (λ k. All (λ x. key x ≤ k) xs) shift h.1) (omega arith) in
      λ i. first i ∷ rest i
