-- ===== src/Exercises/StateMachine/Inserting.antt =====
-- `_insert_price_level` on a coherent side: it raises nothing and keeps the side coherent.
use polypy.Prelude.{
  ℕ, ◌≡◌, refl, ap, ◌∙◌, Bool, true, none, some, List, [], ◌∷◌, length, eqb, arith, Bool-cases,
  Option-cases, inl, inr,
}
use polypy.Prelude.Int.{ℤ, ◌+ℤ◌}
use polypy.Prelude.Table.{find, map_values, find-none}
use polypy.Exercises.StateMachine.{
  PriceLevel, OrderSummary, BookSide, insert_at, insert_price_level,
}
use polypy.Exercises.StateMachine.Levels.{
  index_of, size_of-insert_at, size_of-index_of, size_of-some, modify_at-index_of, size_of-resized,
}
use polypy.Exercises.StateMachine.Search.{binary_search-rank}
use polypy.Exercises.StateMachine.Sides.{
  IsCoherent, sizes, specify_insert, Gives, inserted, changed, inserted-IsCoherent,
  changed-IsCoherent,
}

nil_of_length : (xs : List PriceLevel) → eqb (length xs) 0 ≡ true → xs ≡ []
nil_of_length [] h = refl
nil_of_length (x ∷ xs) h = ground arith

module _ (d : Bool) (s : BookSide) (h : IsCoherent d s) where
  -- an insertion of a new price, on an empty side too
  pub insert_new :
      (o : OrderSummary)
      → index_of o.price s.levels ≡ none
      → insert_price_level s o d ≡ some (inserted d s o)
  unfolding insert_price_level inserted find map_values insert_at
  insert_new o new = elim (Bool-cases (eqb (length s.levels) 0)) [
    | inr some_levels ↦
        ground (
          arith,
          some_levels,
          h.placed o.price,
          new,
          binary_search-rank d o.price s.levels h.sorted,
        )
    | inl no_levels ↦
        let e = nil_of_length s.levels no_levels in
        let e' = find-none s.places (λ k. h.placed k ∙ ap (index_of k) e) in rw (e, e')
  ]

  insert_old :
      (o : OrderSummary) (i : ℕ)
      → index_of o.price s.levels ≡ some i
      → insert_price_level s o d ≡ some (changed s o.price (λ z. z +ℤ o.size))
  unfolding insert_price_level changed
  insert_old o i old =
      ground
        (arith, h.placed o.price, old, modify_at-index_of o.price i (λ z. z +ℤ o.size) s.levels old)

  insert_sizes :
      (o : OrderSummary) (new : index_of o.price s.levels ≡ none) (p : ℕ)
      → sizes (inserted d s o) p ≡ specify_insert o (sizes s) p
  unfolding inserted specify_insert
  insert_sizes o new p =
      let l : PriceLevel = record { price = o.price; size = o.size } in
      ground (arith, size_of-insert_at d l s.levels p new, size_of-index_of o.price s.levels new)

  add_sizes :
      (o : OrderSummary) (i : ℕ) (old : index_of o.price s.levels ≡ some i) (p : ℕ)
      → sizes (changed s o.price (λ z. z +ℤ o.size)) p ≡ specify_insert o (sizes s) p
  unfolding changed specify_insert
  add_sizes o i old p =
      let (z, e) = size_of-some o.price i s.levels old in
      ground (arith, e, size_of-resized p o.price (λ z. z +ℤ o.size) s.levels)

  -- On a coherent side an insertion raises nothing and keeps it coherent; the size is added at its
  -- price, or stands there alone if the price is new, and no other size changes.
  pub insert_price_level-Gives :
      (o : OrderSummary) → Gives d (insert_price_level s o d) (specify_insert o (sizes s))
  unfolding specify_insert
  insert_price_level-Gives o = elim (Option-cases (index_of o.price s.levels)) [
    | inl new ↦ (
      inserted d s o,
      insert_new o new,
      inserted-IsCoherent d s h o new,
      λ p. insert_sizes o new p,
    )
    | inr (i, old) ↦
        let f : ℤ → ℤ = λ z. z +ℤ o.size in
        (
          changed s o.price f,
          insert_old o i old,
          changed-IsCoherent d s h o.price f,
          λ p. add_sizes o i old p,
        )
  ]
