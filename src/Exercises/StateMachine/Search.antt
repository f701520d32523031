-- ===== src/Exercises/StateMachine/Search.antt =====
-- `_binary_search_insert_position` finds the place where a price belongs: the count of the levels that
-- stand before it, which a scan of the array would give.
use polypy.Prelude.{
  ℕ, zero, suc, ◌+◌, ◌/◌, ◌≤◌, ◌<◌, ◌≡◌, refl, Bool, true, false, some, List, [], ◌∷◌, length,
  get_elem?, All, ltb, arith, Bool-cases, inl, inr,
}
use mathlib.Core.Option.{some-injective}
use polypy.Exercises.StateMachine.{PriceLevel, before, search_loop, binary_search}
use polypy.Exercises.StateMachine.Levels.{IsSorted, rank, before_trans}

get_elem?-some :
    (xs : List PriceLevel) (i : ℕ) → i < length xs → (x : PriceLevel) × (get_elem? xs i ≡ some x)
get_elem?-some [] i h = absurd (omega arith)
get_elem?-some (x ∷ xs) zero h = (x, refl)
get_elem?-some (x ∷ xs) (suc i) h = get_elem?-some xs i (omega arith)

All-get_elem? {κ} :
    (P : PriceLevel → Type κ) (xs : List PriceLevel) (i : ℕ) (x : PriceLevel)
    → All P xs
    → get_elem? xs i ≡ some x
    → P x
All-get_elem? P [] i x h at = ground arith
All-get_elem? P (y ∷ ys) zero x h at = rw (some-injective y x at) at h.0
All-get_elem? P (y ∷ ys) (suc i) x h at = All-get_elem? P ys i x h.1 at

rank-le : (d : Bool) (v : ℕ) (xs : List PriceLevel) → rank d v xs ≤ length xs
rank-le d v [] = omega arith
rank-le d v (x ∷ xs) = ground (arith, rank-le d v xs)

-- the level at `mid` tells on which side of the rank it lies
rank-before :
    (d : Bool) (v : ℕ) (xs : List PriceLevel) (i : ℕ) (x : PriceLevel)
    → IsSorted d xs
    → get_elem? xs i ≡ some x
    → before d x.price v ≡ true
    → i < rank d v xs
rank-before d v [] i x s at h = ground arith
rank-before d v (y ∷ ys) zero x s at h = ground arith
rank-before d v (y ∷ ys) (suc i) x s at h =
    let first = All-get_elem? (λ z. before d y.price z.price ≡ true) ys i x s.0 at in
    ground (arith, before_trans d y.price x.price v first h, rank-before d v ys i x s.1 at h)

rank-not_before :
    (d : Bool) (v : ℕ) (xs : List PriceLevel) (i : ℕ) (x : PriceLevel)
    → get_elem? xs i ≡ some x
    → before d x.price v ≡ false
    → rank d v xs ≤ i
rank-not_before d v [] i x at h = ground arith
rank-not_before d v (y ∷ ys) zero x at h = ground arith
rank-not_before d v (y ∷ ys) (suc i) x at h = ground (arith, rank-not_before d v ys i x at h)

search_loop-rank :
    (d : Bool) (v : ℕ) (xs : List PriceLevel) (fuel left right : ℕ)
    → IsSorted d xs
    → left ≤ rank d v xs
    → rank d v xs ≤ right
    → right ≤ length xs
    → right < left + fuel
    → search_loop fuel xs v d left right ≡ some (rank d v xs)
unfolding search_loop
search_loop-rank d v xs zero left right s lo hi len enough = absurd (omega arith)
search_loop-rank d v xs (suc fuel) left right s lo hi len enough =
    elim (Bool-cases (ltb left right)) [
      | inr done ↦ ground (arith, done)
      | inl more ↦
          let mid = (left + right) / 2 in
          let (x, at) = get_elem?-some xs mid (ground arith) in
          elim (Bool-cases (before d x.price v)) [
            | inl first ↦
                let below = rank-before d v xs mid x s at first in
                rw (more, at, first)
                  (search_loop-rank d v xs fuel (mid + 1) right s (omega arith) hi len
                    (ground arith))
            | inr last ↦
                let above = rank-not_before d v xs mid x at last in
                rw (more, at, last)
                  (search_loop-rank d v xs fuel left mid s lo above (ground arith) (ground arith))
          ]
    ]

-- On a sorted side the binary search ends, reads only inside the array, and returns the number of the
-- levels that stand before the price, which a scan from the front counts.
pub binary_search-rank :
    (d : Bool) (v : ℕ) (xs : List PriceLevel)
    → IsSorted d xs
    → binary_search xs v d ≡ some (rank d v xs)
unfolding binary_search
binary_search-rank d v xs s =
    search_loop-rank d v xs (length xs + 1) 0 (length xs) s (omega arith) (rank-le d v xs)
      (omega arith) (omega arith)
