-- ===== src/Prelude/Table.antt =====
-- Python's `dict` with numbers for keys: an association list in the order of insertion.
use Prim.Native.Nat.{ℕ}
use mathlib.Core.Path.{◌≡◌, refl}
use mathlib.Core.Option.{Option, none, some, some-injective}
use mathlib.Core.Logic.{inl, inr}
use mathlib.Core.List.{List, [], ◌∷◌}
use native.Mathlib.Omega.{arith}
use polypy.Prelude.Tests.{eqb, if◌then◌else◌, if-elim, Bool-cases}
use polypy.Prelude.Lists.{All}

abbrev pub Table {ℓ} : Type ℓ → Type ℓ
Table V = List (ℕ × V)

module _ {ℓ} {V : Type ℓ} where
  -- d.get(k)
  unfoldable pub find : Table V → ℕ → Option V
  find [] k = none
  find ((j, v) ∷ d) k = if eqb j k then some v else find d k

  -- d[k] = v
  unfoldable pub store : Table V → ℕ → V → Table V
  store [] k v = (k, v) ∷ []
  store ((j, w) ∷ d) k v = if eqb j k then (j, v) ∷ d else (j, w) ∷ store d k v

  -- del d[k], which is there
  unfoldable pub erase : Table V → ℕ → Table V
  erase [] k = []
  erase ((j, w) ∷ d) k = if eqb j k then erase d k else (j, w) ∷ erase d k

  -- for k in d: d[k] = f(d[k])
  unfoldable pub map_values : (V → V) → Table V → Table V
  map_values f [] = []
  map_values f ((j, w) ∷ d) = (j, f w) ∷ map_values f d

  pub find-store :
      (d : Table V) (k j : ℕ) (v : V)
      → find (store d k v) j ≡ (if eqb k j then some v else find d j)
  unfolding find store
  find-store [] k j v = refl
  find-store ((i, w) ∷ d) k j v = ground (arith, find-store d k j v)

  pub find-erase :
      (d : Table V) (k j : ℕ) → find (erase d k) j ≡ (if eqb k j then none else find d j)
  unfolding find erase
  find-erase [] k j = ground arith
  find-erase ((i, w) ∷ d) k j = ground (arith, find-erase d k j)

  pub find-map_values :
      (f : V → V) (d : Table V) (k : ℕ)
      → find (map_values f d) k
        ≡ (elim (find d k) as (λ _. Option V) [ none ↦ none | some v ↦ some (f v) ])
  unfolding find map_values
  find-map_values f [] k = refl
  find-map_values f ((i, w) ∷ d) k = ground (arith, find-map_values f d k)

-- a dictionary in which nothing is found is empty
pub find-none {ℓ} : {V : Type ℓ} (d : Table V) → ((k : ℕ) → find d k ≡ none) → d ≡ []
unfolding find
find-none [] h = refl
find-none ((j, v) ∷ d) h = ground (arith, h j)

-- what holds of all the values
module _ {ℓ κ} {V : Type ℓ} (P : V → Type κ) where
  pub All-store :
      (d : Table V) (k : ℕ) (v : V) → P v → All (λ e. P e.1) d → All (λ e. P e.1) (store d k v)
  unfolding store
  All-store [] k v h all = (h, tt)
  All-store ((j, w) ∷ d) k v h all =
      if-elim (All (λ e. P e.1)) (eqb j k) (λ _. (h, all.1)) (λ _. (all.0, All-store d k v h all.1))

  pub All-erase : (d : Table V) (k : ℕ) → All (λ e. P e.1) d → All (λ e. P e.1) (erase d k)
  unfolding erase
  All-erase [] k all = tt
  All-erase ((j, w) ∷ d) k all =
      if-elim (All (λ e. P e.1)) (eqb j k) (λ _. All-erase d k all.1)
        (λ _. (all.0, All-erase d k all.1))

  pub All-find : (d : Table V) (k : ℕ) (v : V) → find d k ≡ some v → All (λ e. P e.1) d → P v
  unfolding find
  All-find [] k v e all = absurd (ground (arith, e))
  All-find ((j, w) ∷ d) k v e all = elim (Bool-cases (eqb j k)) [
    | inl same ↦ rw (some-injective w v (rw same at e)) at all.0
    | inr other ↦ All-find d k v (rw other at e) all.1
  ]
