-- ===== src/Common/Sums.antt =====
-- Sums over the values of a `Map`, bounded by what each key allows.
use rendition.Common.Tests.{◌==◌, nat_eq, Bool-cases}
use rendition.Common.Lists.{All, Distinct, filter, All-filter, All-mono}
use rendition.Common.Maps.{values}
use Prim.Native.Nat.{ℕ, zero, suc, ◌+◌, ◌≤◌, ◌<◌, max}
use mathlib.Core.Path.{◌≡◌, refl, ap, subst}
use mathlib.Core.Logic.{◌≢◌, inl, inr}
use mathlib.Core.Bool.{false, not}
use mathlib.Core.List.{List, [], ◌∷◌}
use native.Mathlib.Omega.{arith}

-- The callback of `reduce`, from the left.
abbrev pub sum : List ℕ → ℕ
sum [] = 0
sum (n ∷ ns) = n + sum ns

-- f 0 + … + f (n - 1)
abbrev pub sum_below : (ℕ → ℕ) → ℕ → ℕ
sum_below f zero = 0
sum_below f (suc n) = sum_below f n + f n

abbrev pub others : ℕ → List (ℕ × ℕ) → List (ℕ × ℕ)
others n = filter λ p. not (p.0 == n)

others-All : (n : ℕ) (m : List (ℕ × ℕ)) → All (λ p. p.0 ≢ n) m → others n m ≡ m
others-All n [] h = refl
others-All n (p ∷ m) h =
    let other : (p.0 == n) ≡ false = ground (arith, h.0) in
    rw other (ap (◌∷◌ p) (others-All n m h.1))

sum-others :
    (f : ℕ → ℕ) (n : ℕ) (m : List (ℕ × ℕ))
    → All (λ p. p.1 ≤ f p.0) m
    → Distinct (λ p. p.0) m
    → sum (values m) ≤ sum (values (others n m)) + f n
sum-others f n [] h d = omega arith
sum-others f n ((k, v) ∷ m) h d = elim (Bool-cases (k == n)) [
  | inl same ↦
      let e : k ≡ n = ground (arith, same) in
      let rest : others n m ≡ m = others-All n m (subst (λ j. All (λ p. p.0 ≢ j) m) e d.0) in
      rw same
        (rw rest (subst (λ j. v + sum (values m) ≤ sum (values m) + f j) e (omega (arith, h.0))))
  | inr other ↦ rw other (omega (arith, sum-others f n m h.1 d.1))
]

others-Distinct :
    (n : ℕ) (m : List (ℕ × ℕ)) → Distinct (λ p. p.0) m → Distinct (λ p. p.0) (others n m)
others-Distinct n [] d = tt
others-Distinct n (p ∷ m) d = elim (Bool-cases (p.0 == n)) [
  | inl same ↦ rw same (others-Distinct n m d.1)
  | inr other ↦ rw other (All-filter _ _ m d.0, others-Distinct n m d.1)
]

others_below :
    (n : ℕ) (m : List (ℕ × ℕ)) → All (λ p. p.0 < suc n) m → All (λ p. p.0 < n) (others n m)
others_below n [] h = tt
others_below n (p ∷ m) h = elim (Bool-cases (p.0 == n)) [
  | inl same ↦ rw same (others_below n m h.1)
  | inr other ↦ rw other (ground (arith, h.0, other), others_below n m h.1)
]

sum_bounded :
    (f : ℕ → ℕ) (n : ℕ) (m : List (ℕ × ℕ))
    → All (λ p. p.0 < n) m
    → All (λ p. p.1 ≤ f p.0) m
    → Distinct (λ p. p.0) m
    → sum (values m) ≤ sum_below f n
sum_bounded f zero [] b h d = omega arith
sum_bounded f zero (p ∷ m) b h d = absurd (omega (arith, b.0))
sum_bounded f (suc n) m b h d = omega (
  arith,
  sum-others f n m h d,
  sum_bounded f n (others n m) (others_below n m b) (All-filter _ _ m h) (others-Distinct n m d),
)

above : (m : List (ℕ × ℕ)) → (n : ℕ) × All (λ p. p.0 < n) m
above [] = (0, tt)
above (p ∷ m) =
    let (n, h) = above m in
    (max n (suc p.0), (omega arith, All-mono (λ q. q.0 < n) _ (λ q lt. omega (arith, lt)) m h))

-- What bounds every sum over an initial part of the keys bounds the sum over any keys.
pub sum-values_le :
    (f : ℕ → ℕ) (bound : ℕ) (m : List (ℕ × ℕ))
    → ((n : ℕ) → sum_below f n ≤ bound)
    → All (λ p. p.1 ≤ f p.0) m
    → Distinct (λ p. p.0) m
    → sum (values m) ≤ bound
sum-values_le f bound m total h d =
    let (n, b) = above m in omega (arith, sum_bounded f n m b h d, total n)
