-- ===== src/Common/Sorting.antt =====
-- `[...xs].sort((left, right) => left.key - right.key)`: the standard fixes the result, the stable
-- sorted permutation, which insertion from the right computes.
use Prim.Native.Nat.{ℕ, ◌+◌, suc, ◌≤◌, ◌<◌}
use mathlib.Core.Path.{◌≡◌, refl, ap, ◌∙◌}
use mathlib.Core.Bool.{Bool, true}
use mathlib.Core.Logic.{◌≢◌, inl, inr}
use mathlib.Core.List.{List, [], ◌∷◌, Perm}
use mathlib.Core.List.Perm
use native.Mathlib.Omega.{arith}
use rendition.Common.Tests.{if◌then◌else◌, leb, Bool-cases, leb→le}
use rendition.Common.Lists.{length, any, All, Distinct}

module _ {ℓ} {A : Type ℓ} where
  -- What the elements weigh together.
  abbrev pub weigh : (A → ℕ) → List A → ℕ
  weigh f [] = 0
  weigh f (x ∷ xs) = f x + weigh f xs

module _ {ℓ} {A : Type ℓ} (key : A → ℕ) where
  pub insert_by : A → List A → List A
  insert_by x [] = x ∷ []
  insert_by x (y ∷ ys) = if leb (key x) (key y) then x ∷ y ∷ ys else y ∷ insert_by x ys

  -- xs.sort((left, right) => key(left) - key(right))
  unfoldable pub sort_by : List A → List A
  unfolding insert_by
  sort_by [] = []
  sort_by (x ∷ xs) = insert_by x (sort_by xs)

  weigh-insert_by : (f : A → ℕ) (x : A) (xs : List A) → weigh f (insert_by x xs) ≡ f x + weigh f xs
  unfolding insert_by
  weigh-insert_by f x [] = refl
  weigh-insert_by f x (y ∷ ys) = ground (arith, weigh-insert_by f x ys)

  -- Sorting keeps it.
  pub weigh-sort_by : (f : A → ℕ) (xs : List A) → weigh f (sort_by xs) ≡ weigh f xs
  unfolding sort_by
  weigh-sort_by f [] = refl
  weigh-sort_by f (x ∷ xs) = omega (arith, weigh-insert_by f x (sort_by xs), weigh-sort_by f xs)

  any-insert_by : (p : A → Bool) (x : A) (xs : List A) → any p (insert_by x xs) ≡ any p (x ∷ xs)
  unfolding insert_by
  any-insert_by p x [] = refl
  any-insert_by p x (y ∷ ys) = ground (arith, any-insert_by p x ys)

  pub any-sort_by : (p : A → Bool) (xs : List A) → any p (sort_by xs) ≡ any p xs
  unfolding sort_by
  any-sort_by p [] = refl
  any-sort_by p (x ∷ xs) =
      any-insert_by p x (sort_by xs) ∙ ap (λ b. if p x then true else b) (any-sort_by p xs)

  -- Keys do not fall along the list, and none is below the bound.
  abbrev pub IsAscending : ℕ → List A → Type 0
  IsAscending n [] = Unit {0}
  IsAscending n (x ∷ xs) = (n ≤ key x) × IsAscending (key x) xs

  insert_by-perm : (x : A) (xs : List A) → Perm (insert_by x xs) (x ∷ xs)
  unfolding insert_by
  insert_by-perm x [] = Perm.refl _
  insert_by-perm x (y ∷ ys) = elim (Bool-cases (leb (key x) (key y))) [
    | inl e ↦ rw e (Perm.refl _)
    | inr e ↦ rw e (Perm.trans (Perm.cons y (insert_by-perm x ys)) (Perm.swap x y ys))
  ]

  -- Sorting keeps every entry, as often as it stands.
  pub sort_by-perm : (xs : List A) → Perm (sort_by xs) xs
  unfolding sort_by
  sort_by-perm [] = Perm.refl []
  sort_by-perm (x ∷ xs) = Perm.trans (insert_by-perm x (sort_by xs)) (Perm.cons x (sort_by-perm xs))

  insert_by-IsAscending :
      (x : A) (n : ℕ) (xs : List A) → n ≤ key x → IsAscending n xs → IsAscending n (insert_by x xs)
  unfolding insert_by
  insert_by-IsAscending x n [] h s = (h, tt)
  insert_by-IsAscending x n (y ∷ ys) h s = ground (arith, insert_by-IsAscending x (key y) ys)

  pub sort_by-IsAscending : (xs : List A) → IsAscending 0 (sort_by xs)
  unfolding sort_by
  sort_by-IsAscending [] = tt
  sort_by-IsAscending (x ∷ xs) =
      insert_by-IsAscending x 0 (sort_by xs) (omega arith) (sort_by-IsAscending xs)

  length-insert_by : (x : A) (xs : List A) → length (insert_by x xs) ≡ suc (length xs)
  unfolding insert_by
  length-insert_by x [] = refl
  length-insert_by x (y ∷ ys) = ground (arith, length-insert_by x ys)

  pub length-sort_by : (xs : List A) → length (sort_by xs) ≡ length xs
  unfolding sort_by
  length-sort_by [] = refl
  length-sort_by (x ∷ xs) = length-insert_by x (sort_by xs) ∙ ap suc (length-sort_by xs)

  All-insert_by {κ} :
      (P : A → Type κ) (x : A) (xs : List A) → P x → All P xs → All P (insert_by x xs)
  unfolding insert_by
  All-insert_by P x [] h hs = (h, tt)
  All-insert_by P x (y ∷ ys) h hs = elim (Bool-cases (leb (key x) (key y))) [
    | inl e ↦ rw e (h, hs)
    | inr e ↦ rw e (hs.0, All-insert_by P x ys h hs.1)
  ]

  pub All-sort_by {κ} : (P : A → Type κ) (xs : List A) → All P xs → All P (sort_by xs)
  unfolding sort_by
  All-sort_by P [] h = tt
  All-sort_by P (x ∷ xs) h = All-insert_by P x (sort_by xs) h.0 (All-sort_by P xs h.1)

  -- Keys rise along the list, all above the bound.
  abbrev pub IsRising : ℕ → List A → Type 0
  IsRising n [] = Unit {0}
  IsRising n (x ∷ xs) = (n < key x) × IsRising (key x) xs

  insert_by-IsRising :
      (x : A) (n : ℕ) (xs : List A)
      → n < key x
      → All (λ y. key y ≢ key x) xs
      → IsRising n xs
      → IsRising n (insert_by x xs)
  unfolding insert_by
  insert_by-IsRising x n [] h d r = (h, tt)
  insert_by-IsRising x n (y ∷ ys) h d r = ground (arith, d.0, insert_by-IsRising x (key y) ys)

  -- Sorting distinct keys puts them in strict order.
  pub sort_by-IsRising :
      (n : ℕ) (xs : List A) → Distinct key xs → All (λ x. n < key x) xs → IsRising n (sort_by xs)
  unfolding sort_by
  sort_by-IsRising n [] d h = tt
  sort_by-IsRising n (x ∷ xs) d h =
      insert_by-IsRising x n (sort_by xs) h.0 (All-sort_by _ xs d.0) (sort_by-IsRising n xs d.1 h.1)

-- The other direction: `.sort((first, second) => key(second) - key(first))`.
module _ {ℓ} {A : Type ℓ} (key : A → ℕ) where
  insert_down : A → List A → List A
  insert_down x [] = x ∷ []
  insert_down x (y ∷ ys) = if leb (key y) (key x) then x ∷ y ∷ ys else y ∷ insert_down x ys

  unfoldable pub sort_down_by : List A → List A
  unfolding insert_down
  sort_down_by [] = []
  sort_down_by (x ∷ xs) = insert_down x (sort_down_by xs)

  -- Keys do not rise along the list, and none is above the bound, if there is one.
  abbrev pub IsDescending : List A → Type 0
  IsDescending [] = Unit {0}
  IsDescending (x ∷ xs) = All (λ y. key y ≤ key x) xs × IsDescending xs

  insert_down-perm : (x : A) (xs : List A) → Perm (insert_down x xs) (x ∷ xs)
  unfolding insert_down
  insert_down-perm x [] = Perm.refl _
  insert_down-perm x (y ∷ ys) = elim (Bool-cases (leb (key y) (key x))) [
    | inl e ↦ rw e (Perm.refl _)
    | inr e ↦ rw e (Perm.trans (Perm.cons y (insert_down-perm x ys)) (Perm.swap x y ys))
  ]

  pub sort_down_by-perm : (xs : List A) → Perm (sort_down_by xs) xs
  unfolding sort_down_by
  sort_down_by-perm [] = Perm.refl []
  sort_down_by-perm (x ∷ xs) =
      Perm.trans (insert_down-perm x (sort_down_by xs)) (Perm.cons x (sort_down_by-perm xs))

  All-insert_down {κ} :
      (P : A → Type κ) (x : A) (xs : List A) → P x → All P xs → All P (insert_down x xs)
  unfolding insert_down
  All-insert_down P x [] h hs = (h, tt)
  All-insert_down P x (y ∷ ys) h hs = elim (Bool-cases (leb (key y) (key x))) [
    | inl e ↦ rw e (h, hs)
    | inr e ↦ rw e (hs.0, All-insert_down P x ys h hs.1)
  ]

  pub All-sort_down_by {κ} : (P : A → Type κ) (xs : List A) → All P xs → All P (sort_down_by xs)
  unfolding sort_down_by
  All-sort_down_by P [] h = tt
  All-sort_down_by P (x ∷ xs) h =
      All-insert_down P x (sort_down_by xs) h.0 (All-sort_down_by P xs h.1)

  below_trans : (m n : ℕ) (xs : List A) → m ≤ n → All (λ y. key y ≤ m) xs → All (λ y. key y ≤ n) xs
  below_trans m n [] h hs = tt
  below_trans m n (x ∷ xs) h hs = (omega arith, below_trans m n xs h hs.1)

  insert_down-IsDescending :
      (x : A) (xs : List A) → IsDescending xs → IsDescending (insert_down x xs)
  unfolding insert_down
  insert_down-IsDescending x [] d = (tt, tt)
  insert_down-IsDescending x (y ∷ ys) d = elim (Bool-cases (leb (key y) (key x))) [
    | inl e ↦ rw e ((leb→le _ _ e, below_trans (key y) (key x) ys (leb→le _ _ e) d.0), d)
    | inr e ↦ rw e (
      All-insert_down (λ z. key z ≤ key y) x ys (ground arith) d.0,
      insert_down-IsDescending x ys d.1,
    )
  ]

  pub sort_down_by-IsDescending : (xs : List A) → IsDescending (sort_down_by xs)
  unfolding sort_down_by
  sort_down_by-IsDescending [] = tt
  sort_down_by-IsDescending (x ∷ xs) =
      insert_down-IsDescending x (sort_down_by xs) (sort_down_by-IsDescending xs)
