-- ===== src/Common/Maps.antt =====
-- JavaScript's `Map`: entries in insertion order; `set` on a present key keeps its place.
use rendition.Common.Tests.{Eq, ◌==◌, Bool-cases, if◌then◌else◌, is_some}
use rendition.Common.Lists.{length, All, Distinct}
use Prim.Native.Nat.{suc}
use mathlib.Core.Path.{◌≡◌, refl, sym, subst, ◌∙◌}
use mathlib.Core.Logic.{◌≢◌, inl, inr}
use mathlib.Core.Bool.{false≢true}
use mathlib.Core.Option.{Option, none, some}
use mathlib.Core.List.{List, [], ◌∷◌, map}
use native.Mathlib.Omega.{arith}

module _ {ℓ κ} {K : Type ℓ} {V : Type κ} ⦃e : Eq K⦄ where
  -- m.get(k)
  abbrev pub get : K → List (K × V) → Option V
  get k [] = none
  get k ((j, v) ∷ m) = if j == k then some v else get k m

  -- m.set(k, v)
  abbrev pub put : K → V → List (K × V) → List (K × V)
  put k v [] = (k, v) ∷ []
  put k v ((j, w) ∷ m) = if j == k then (j, v) ∷ m else (j, w) ∷ put k v m

  -- m.delete(k)
  abbrev pub remove : K → List (K × V) → List (K × V)
  remove k [] = []
  remove k ((j, v) ∷ m) = if j == k then m else (j, v) ∷ remove k m

module _ {ℓ κ} {K : Type ℓ} {V : Type κ} where
  -- Array.from(m.values())
  abbrev pub values : List (K × V) → List V
  values = map λ p. p.1

  abbrev pub keys : List (K × V) → List K
  keys = map λ p. p.0

module _ {ℓ κ} {K : Type ℓ} {V : Type κ} ⦃e : Eq K⦄ where
  pub get-put :
      (k j : K) (v : V) (m : List (K × V))
      → get j (put k v m) ≡ (if k == j then some v else get j m)
  get-put k j v [] = refl
  get-put k j v ((i, w) ∷ m) =
      ground (arith, e.equals_iff k j, e.equals_iff i k, e.equals_iff i j, get-put k j v m)

  pub length-put :
      (k : K) (v : V) (m : List (K × V))
      → length (put k v m) ≡ (if is_some (get k m) then length m else suc (length m))
  length-put k v [] = refl
  length-put k v ((i, w) ∷ m) = ground (arith, length-put k v m)

  -- What holds of every entry and of the new one holds of every entry afterwards.
  pub All-put {μ} :
      (P : K × V → Type μ) (k : K) (v : V) (m : List (K × V))
      → P (k, v)
      → All P m
      → All P (put k v m)
  All-put P k v [] hv h = (hv, tt)
  All-put P k v ((j, w) ∷ m) hv h = elim (Bool-cases (j == k)) [
    | inl same ↦ rw same (subst (λ i. P (i, v)) (sym ((e.equals_iff j k).0 same)) hv, h.1)
    | inr other ↦ rw other (h.0, All-put P k v m hv h.1)
  ]

  -- The keys stay distinct.
  pub put-Distinct :
      (k : K) (v : V) (m : List (K × V)) → Distinct (λ p. p.0) m → Distinct (λ p. p.0) (put k v m)
  put-Distinct k v [] h = (tt, tt)
  put-Distinct k v ((j, w) ∷ m) h = elim (Bool-cases (j == k)) [
    | inl same ↦ rw same h
    | inr other ↦ rw other (
      All-put (λ p. p.0 ≢ j) k v m (λ q. false≢true (sym other ∙ (e.equals_iff j k).1 (sym q))) h.0,
      put-Distinct k v m h.1,
    )
  ]
