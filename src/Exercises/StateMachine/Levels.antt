-- ===== src/Exercises/StateMachine/Levels.antt =====
-- The sorted array of one side: where a price stands in it, what size it has there, and what the
-- array's operations change of both.
use polypy.Prelude.{
  ℕ, zero, suc, ◌≡◌, refl, Bool, true, false, Option, none, some, List, [], ◌∷◌, All, All-map, eqb,
  arith, if◌then◌else◌, Bool-cases, inl, inr,
}
use polypy.Prelude.Int.{ℤ}
use polypy.Exercises.StateMachine.{
  PriceLevel, insert_at, pop_at, modify_at, before, shift_up, shift_down,
}

abbrev pub later : Option ℕ → Option ℕ
later none = none
later (some i) = some (suc i)

-- the place of a price
abbrev pub index_of : ℕ → List PriceLevel → Option ℕ
index_of p [] = none
index_of p (x ∷ xs) = if eqb x.price p then some 0 else later (index_of p xs)

-- the size at a price
abbrev pub size_of : ℕ → List PriceLevel → Option ℤ
size_of p [] = none
size_of p (x ∷ xs) = if eqb x.price p then some x.size else size_of p xs

-- how many levels stand before a price
abbrev pub rank : Bool → ℕ → List PriceLevel → ℕ
rank descending v [] = 0
rank descending v (x ∷ xs) = if before descending x.price v then suc (rank descending v xs) else 0

abbrev pub AllAfter : Bool → ℕ → List PriceLevel → Type 0
AllAfter descending p = All (λ x. before descending p x.price ≡ true)

-- strictly, so that no price stands twice
abbrev pub IsSorted : Bool → List PriceLevel → Type 0
IsSorted descending [] = Unit
IsSorted descending (x ∷ xs) = AllAfter descending x.price xs × IsSorted descending xs

pub before_trans :
    (d : Bool) (p q r : ℕ) → before d p q ≡ true → before d q r ≡ true → before d p r ≡ true
before_trans true p q r h k = ground arith
before_trans false p q r h k = ground arith

before-total : (d : Bool) (p q : ℕ) → before d p q ≡ false → eqb p q ≡ false → before d q p ≡ true
before-total true p q h k = ground arith
before-total false p q h k = ground arith

before-ne : (d : Bool) (p q : ℕ) → before d p q ≡ true → eqb p q ≡ false
before-ne true p q h = ground arith
before-ne false p q h = ground arith

AllAfter-trans :
    (d : Bool) (p q : ℕ) (xs : List PriceLevel)
    → before d p q ≡ true
    → AllAfter d q xs
    → AllAfter d p xs
AllAfter-trans d p q xs h =
    All-map (λ (x : PriceLevel). before d q x.price ≡ true) (λ x. before d p x.price ≡ true)
      (λ x k. before_trans d p q x.price h k) xs

index_of-AllAfter :
    (d : Bool) (p : ℕ) (xs : List PriceLevel) → AllAfter d p xs → index_of p xs ≡ none
index_of-AllAfter d p [] h = refl
index_of-AllAfter d p (x ∷ xs) h =
    ground (arith, before-ne d p x.price h.0, index_of-AllAfter d p xs h.1)

pub size_of-index_of : (p : ℕ) (xs : List PriceLevel) → index_of p xs ≡ none → size_of p xs ≡ none
size_of-index_of p [] h = refl
size_of-index_of p (x ∷ xs) h = ground (arith, size_of-index_of p xs)

absent-tail :
    (p : ℕ) (x : PriceLevel) (xs : List PriceLevel)
    → index_of p (x ∷ xs) ≡ none
    → (eqb x.price p ≡ false) × (index_of p xs ≡ none)
absent-tail p x xs h = ground arith

module _ (d : Bool) (l : PriceLevel) where
  AllAfter-insert_at :
      (p i : ℕ) (xs : List PriceLevel)
      → before d p l.price ≡ true
      → AllAfter d p xs
      → AllAfter d p (insert_at xs i l)
  unfolding insert_at
  AllAfter-insert_at p zero xs h k = (h, k)
  AllAfter-insert_at p (suc i) [] h k = (h, tt)
  AllAfter-insert_at p (suc i) (x ∷ xs) h k = (k.0, AllAfter-insert_at p i xs h k.1)

  pub insert_at-IsSorted :
      (xs : List PriceLevel)
      → IsSorted d xs
      → index_of l.price xs ≡ none
      → IsSorted d (insert_at xs (rank d l.price xs) l)
  unfolding insert_at
  insert_at-IsSorted [] s h = (tt, tt)
  insert_at-IsSorted (x ∷ xs) s h =
      let (other, absent) = absent-tail l.price x xs h in
      elim (Bool-cases (before d x.price l.price)) [
        | inl first ↦ rw first (
          AllAfter-insert_at x.price (rank d l.price xs) xs first s.0,
          insert_at-IsSorted xs s.1 absent,
        )
        | inr last ↦
            let first = before-total d x.price l.price last other in
            rw last ((first, AllAfter-trans d l.price x.price xs first s.0), s)
      ]

  pub index_of-insert_at :
      (xs : List PriceLevel) (p : ℕ)
      → index_of l.price xs ≡ none
      → index_of p (insert_at xs (rank d l.price xs) l) ≡ (
          if eqb l.price p
          then some (rank d l.price xs)
          else elim (index_of p xs) as (λ _. Option ℕ) [
            | none ↦ none
            | some j ↦ some (shift_up (rank d l.price xs) j)
          ])
  unfolding insert_at
  index_of-insert_at [] p h = refl
  index_of-insert_at (x ∷ xs) p h = ground (arith, index_of-insert_at xs p)

  pub size_of-insert_at :
      (xs : List PriceLevel) (p : ℕ)
      → index_of l.price xs ≡ none
      → size_of p (insert_at xs (rank d l.price xs) l)
        ≡ (if eqb l.price p then some l.size else size_of p xs)
  unfolding insert_at
  size_of-insert_at [] p h = refl
  size_of-insert_at (x ∷ xs) p h = ground (arith, size_of-insert_at xs p)

pub size_of-some :
    (p i : ℕ) (xs : List PriceLevel) → index_of p xs ≡ some i → (z : ℤ) × (size_of p xs ≡ some z)
size_of-some p i [] h = absurd (ground arith)
size_of-some p zero (x ∷ xs) h = (x.size, ground arith)
size_of-some p (suc i) (x ∷ xs) h = elim (Bool-cases (eqb x.price p)) [
  | inl e ↦ (x.size, rw e)
  | inr e ↦ rw e (size_of-some p i xs (ground arith))
]

-- the array without a price
abbrev pub without : ℕ → List PriceLevel → List PriceLevel
without p [] = []
without p (x ∷ xs) = if eqb x.price p then xs else x ∷ without p xs

-- the array with the size at a price changed
abbrev pub resized : ℕ → (ℤ → ℤ) → List PriceLevel → List PriceLevel
resized p f [] = []
resized p f (x ∷ xs) =
    if eqb x.price p then record x { size = f x.size } ∷ xs else x ∷ resized p f xs

pub pop_at-index_of :
    (p i : ℕ) (xs : List PriceLevel) → index_of p xs ≡ some i → pop_at xs i ≡ some (without p xs)
unfolding pop_at
pop_at-index_of p i [] h = ground arith
pop_at-index_of p zero (x ∷ xs) h = ground arith
pop_at-index_of p (suc i) (x ∷ xs) h = ground (arith, pop_at-index_of p i xs)

pub modify_at-index_of :
    (p i : ℕ) (f : ℤ → ℤ) (xs : List PriceLevel)
    → index_of p xs ≡ some i
    → modify_at xs i (λ x. record x { size = f x.size }) ≡ some (resized p f xs)
unfolding modify_at
modify_at-index_of p i f [] h = ground arith
modify_at-index_of p zero f (x ∷ xs) h = ground arith
modify_at-index_of p (suc i) f (x ∷ xs) h = ground (arith, modify_at-index_of p i f xs)

module _ (d : Bool) (v : ℕ) where
  AllAfter-without : (p : ℕ) (xs : List PriceLevel) → AllAfter d p xs → AllAfter d p (without v xs)
  AllAfter-without p [] h = tt
  AllAfter-without p (x ∷ xs) h = ground (arith, AllAfter-without p xs h.1)

  pub without-IsSorted : (xs : List PriceLevel) → IsSorted d xs → IsSorted d (without v xs)
  without-IsSorted [] s = tt
  without-IsSorted (x ∷ xs) s =
      ground (arith, AllAfter-without x.price xs s.0, without-IsSorted xs s.1)

  pub index_of-without :
      (xs : List PriceLevel) (i p : ℕ)
      → IsSorted d xs
      → index_of v xs ≡ some i
      → index_of p (without v xs) ≡ (
          if eqb v p then none else elim (index_of p xs) as (λ _. Option ℕ) [
            | none ↦ none
            | some j ↦ some (shift_down i j)
          ])
  index_of-without [] i p s h = ground arith
  index_of-without (x ∷ xs) zero p s h = ground (arith, index_of-AllAfter d x.price xs s.0)
  index_of-without (x ∷ xs) (suc i) p s h = ground (arith, index_of-without xs i p s.1)

  pub size_of-without :
      (xs : List PriceLevel) (p : ℕ)
      → IsSorted d xs
      → size_of p (without v xs) ≡ (if eqb v p then none else size_of p xs)
  size_of-without [] p s = ground arith
  size_of-without (x ∷ xs) p s = ground (
    arith,
    size_of-without xs p s.1,
    size_of-index_of x.price xs (index_of-AllAfter d x.price xs s.0),
  )

module _ (d : Bool) (v : ℕ) (f : ℤ → ℤ) where
  AllAfter-resized :
      (p : ℕ) (xs : List PriceLevel) → AllAfter d p xs → AllAfter d p (resized v f xs)
  AllAfter-resized p [] h = tt
  AllAfter-resized p (x ∷ xs) h = ground (arith, AllAfter-resized p xs h.1)

  pub resized-IsSorted : (xs : List PriceLevel) → IsSorted d xs → IsSorted d (resized v f xs)
  resized-IsSorted [] s = tt
  resized-IsSorted (x ∷ xs) s =
      ground (arith, AllAfter-resized x.price xs s.0, resized-IsSorted xs s.1)

pub index_of-resized :
    (p v : ℕ) (f : ℤ → ℤ) (xs : List PriceLevel) → index_of p (resized v f xs) ≡ index_of p xs
index_of-resized p v f [] = refl
index_of-resized p v f (x ∷ xs) = ground (arith, index_of-resized p v f xs)

pub size_of-resized :
    (p v : ℕ) (f : ℤ → ℤ) (xs : List PriceLevel)
    → size_of p (resized v f xs) ≡ (
        if eqb v p
        then elim (size_of p xs) as (λ _. Option ℤ) [ none ↦ none | some z ↦ some (f z) ]
        else size_of p xs)
size_of-resized p v f [] = ground arith
size_of-resized p v f (x ∷ xs) = ground (arith, size_of-resized p v f xs)
