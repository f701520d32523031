-- ===== src/Exercises/StateMachine/Sides.antt =====
-- One side of a book of src/exercises/state_machine.py: what is coherent, the sizes that it shows, and
-- the sides that an insertion, a change and a removal leave.
use polypy.Prelude.{ℕ, ◌≡◌, sym, ◌∙◌, Bool, Option, none, some, eqb, arith, if◌then◌else◌}
use polypy.Prelude.Int.{ℤ, pos, ◌+ℤ◌, ltb_ℤ, eqb_ℤ}
use polypy.Prelude.Table.{find, store, erase, map_values, find-store, find-erase, find-map_values}
use polypy.Exercises.StateMachine.{
  PriceLevel, OrderSummary, BookSide, insert_at, shift_up, shift_down,
}
use polypy.Exercises.StateMachine.Levels.{
  IsSorted, index_of, size_of, rank, without, resized, insert_at-IsSorted, index_of-insert_at,
  without-IsSorted, index_of-without, resized-IsSorted, index_of-resized,
}

-- the dictionary says where each price stands
pub record IsCoherent (descending : Bool) (s : BookSide) : Type 0 where
  pub sorted : IsSorted descending s.levels
  pub placed : (p : ℕ) → find s.places p ≡ index_of p s.levels

-- a side forgets its array: the size at each price
abbrev pub Sizes : Type 0
Sizes = ℕ → Option ℤ

abbrev pub sizes : BookSide → Sizes
sizes s p = size_of p s.levels

-- an order of a book message adds to what is there
unfoldable pub specify_insert : OrderSummary → Sizes → Sizes
specify_insert o b p =
    if eqb o.price p then some (elim (b p) [ none ↦ o.size | some z ↦ z +ℤ o.size ]) else b p

-- a price change replaces what is there; a negative size changes nothing, and 0 removes the price
unfoldable pub specify_update : OrderSummary → Sizes → Sizes
specify_update c b p =
    if ltb_ℤ c.size (pos 0)
    then b p
    else if eqb c.price p
    then (if eqb_ℤ c.size (pos 0) then none else some c.size)
    else b p

-- the operation returns a coherent side with these sizes
abbrev pub Gives : Bool → Option BookSide → Sizes → Type 0
Gives d r b = (s : BookSide) × (r ≡ some s) × IsCoherent d s × ((p : ℕ) → sizes s p ≡ b p)

-- the side with a price inserted where it belongs
unfoldable pub inserted : Bool → BookSide → OrderSummary → BookSide
inserted d s o = record {
  levels = insert_at s.levels (rank d o.price s.levels) (record { price = o.price; size = o.size });
  places =
      store (map_values (shift_up (rank d o.price s.levels)) s.places) o.price
        (rank d o.price s.levels);
}

-- the side with the size at a price changed
unfoldable pub changed : BookSide → ℕ → (ℤ → ℤ) → BookSide
changed s v f = record s { levels = resized v f s.levels }

-- the side with a price removed from its place
unfoldable pub removed : BookSide → ℕ → ℕ → BookSide
removed s v i = record {
  levels = without v s.levels;
  places = map_values (shift_down i) (erase s.places v);
}

module _ (d : Bool) (s : BookSide) (h : IsCoherent d s) where
  pub inserted-IsCoherent :
      (o : OrderSummary) → index_of o.price s.levels ≡ none → IsCoherent d (inserted d s o)
  unfolding inserted
  inserted-IsCoherent o new =
      let l : PriceLevel = record { price = o.price; size = o.size } in
      let i = rank d o.price s.levels in
      record {
        sorted = insert_at-IsSorted d l s.levels h.sorted new;
        placed = λ p. ground (
          arith,
          find-store (map_values (shift_up i) s.places) o.price p i,
          find-map_values (shift_up i) s.places p,
          h.placed p,
          index_of-insert_at d l s.levels p new,
        );
      }

  pub changed-IsCoherent : (v : ℕ) (f : ℤ → ℤ) → IsCoherent d (changed s v f)
  unfolding changed
  changed-IsCoherent v f = record {
    sorted = resized-IsSorted d v f s.levels h.sorted;
    placed = λ p. h.placed p ∙ sym (index_of-resized p v f s.levels);
  }

  pub removed-IsCoherent : (v i : ℕ) → index_of v s.levels ≡ some i → IsCoherent d (removed s v i)
  unfolding removed
  removed-IsCoherent v i at = record {
    sorted = without-IsSorted d v s.levels h.sorted;
    placed = λ p. ground (
      arith,
      find-map_values (shift_down i) (erase s.places v) p,
      find-erase s.places v p,
      h.placed p,
      index_of-without d v s.levels i p h.sorted at,
    );
  }
