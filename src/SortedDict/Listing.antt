-- ===== src/SortedDict/Listing.antt =====
-- Listings of pairs in ascending key order, which the laws of `SortedDict` speak of.
use polypy.Prelude.{◌≡◌, refl, Option, none, some, List, [], ◌∷◌, arith, All, if◌then◌else◌}
use polypy.Prelude.Int.{ℤ, ◌<ℤ◌, ltb_ℤ, eqb_ℤ, eqb_ℤ_iff}

module _ {V : Type 0} where
  unfoldable pub find : ℤ → List (ℤ × V) → Option V
  find k [] = none
  find k ((j, v) ∷ l) = if eqb_ℤ j k then some v else find k l

  unfoldable pub insert : ℤ → V → List (ℤ × V) → List (ℤ × V)
  insert k v [] = (k, v) ∷ []
  insert k v ((j, w) ∷ l) =
      if ltb_ℤ k j
      then (k, v) ∷ (j, w) ∷ l
      else if eqb_ℤ j k
      then (k, v) ∷ l
      else (j, w) ∷ insert k v l

  unfoldable pub erase : ℤ → List (ℤ × V) → List (ℤ × V)
  erase k [] = []
  erase k ((j, w) ∷ l) = if eqb_ℤ j k then erase k l else (j, w) ∷ erase k l

  -- the keys below a bound
  unfoldable pub below : ℤ → List (ℤ × V) → List ℤ
  below t [] = []
  below t ((j, w) ∷ l) = if ltb_ℤ j t then j ∷ below t l else below t l

  abbrev pub Above : ℤ → List (ℤ × V) → Type 0
  Above k = All (λ e. k <ℤ e.0)

  abbrev pub IsSorted : List (ℤ × V) → Type 0
  IsSorted [] = Unit
  IsSorted (e ∷ l) = Above e.0 l × IsSorted l

  pub find-insert :
      (k j : ℤ) (v : V) (l : List (ℤ × V))
      → find j (insert k v l) ≡ (if eqb_ℤ k j then some v else find j l)
  unfolding find insert
  find-insert k j v [] = refl
  find-insert k j v ((i, w) ∷ l) = ground (arith, find-insert k j v l)

  pub find-erase :
      (k j : ℤ) (l : List (ℤ × V)) → find j (erase k l) ≡ (if eqb_ℤ k j then none else find j l)
  unfolding find erase
  find-erase k j [] = ground arith
  find-erase k j ((i, w) ∷ l) = ground (arith, find-erase k j l)

  Above-insert : (b k : ℤ) (v : V) (l : List (ℤ × V)) → b <ℤ k → Above b l → Above b (insert k v l)
  unfolding insert
  Above-insert b k v [] h a = (h, tt)
  Above-insert b k v ((j, w) ∷ l) h a = ground (arith, Above-insert b k v l h a.1)

  Above-erase : (b k : ℤ) (l : List (ℤ × V)) → Above b l → Above b (erase k l)
  unfolding erase
  Above-erase b k [] a = tt
  Above-erase b k ((j, w) ∷ l) a = ground (arith, Above-erase b k l a.1)

  Above-trans : (b c : ℤ) (l : List (ℤ × V)) → b <ℤ c → Above c l → Above b l
  Above-trans b c [] h a = tt
  Above-trans b c (e ∷ l) h a = (omega arith, Above-trans b c l h a.1)

  pub insert-IsSorted : (k : ℤ) (v : V) (l : List (ℤ × V)) → IsSorted l → IsSorted (insert k v l)
  unfolding insert
  insert-IsSorted k v [] s = (tt, tt)
  insert-IsSorted k v ((j, w) ∷ l) s =
      ground
        (arith, insert-IsSorted k v l s.1, Above-insert j k v l, Above-trans k j l, eqb_ℤ_iff j k)

  pub erase-IsSorted : (k : ℤ) (l : List (ℤ × V)) → IsSorted l → IsSorted (erase k l)
  unfolding erase
  erase-IsSorted k [] s = tt
  erase-IsSorted k ((j, w) ∷ l) s = ground (arith, erase-IsSorted k l s.1, Above-erase j k l s.0)

  find_later :
      (j : ℤ) (w : V) (l xs : List (ℤ × V))
      → Above j xs
      → All (λ e. find e.0 l ≡ some e.1) xs
      → All (λ e. find e.0 ((j, w) ∷ l) ≡ some e.1) xs
  unfolding find
  find_later j w l [] a h = tt
  find_later j w l (e ∷ xs) a h = (ground arith, find_later j w l xs a.1 h.1)

  -- Every pair of a sorted listing is what its key finds.
  pub find_each : (l : List (ℤ × V)) → IsSorted l → All (λ e. find e.0 l ≡ some e.1) l
  unfolding find
  find_each [] s = tt
  find_each ((j, w) ∷ l) s = (ground arith, find_later j w l l s.0 (find_each l s.1))
