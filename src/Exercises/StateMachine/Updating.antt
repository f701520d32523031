-- ===== src/Exercises/StateMachine/Updating.antt =====
-- `_update_orderbook` on a coherent side: it raises nothing and keeps the side coherent.
use polypy.Prelude.{
  ℕ, ◌≡◌, Bool, true, false, none, some, arith, if◌then◌else◌, Bool-cases, Option-cases, inl, inr,
}
use polypy.Prelude.Int.{pos, ltb_ℤ, eqb_ℤ}
use polypy.Exercises.StateMachine.{PriceLevel, OrderSummary, BookSide, update_orderbook}
use polypy.Exercises.StateMachine.Levels.{
  index_of, size_of-insert_at, size_of-index_of, size_of-some, pop_at-index_of, modify_at-index_of,
  size_of-without, size_of-resized,
}
use polypy.Exercises.StateMachine.Sides.{
  IsCoherent, sizes, specify_update, Gives, inserted, changed, removed, inserted-IsCoherent,
  changed-IsCoherent, removed-IsCoherent,
}
use polypy.Exercises.StateMachine.Inserting.{insert_new}

module _ (d : Bool) (s : BookSide) (h : IsCoherent d s) where
  remove_old :
      (c : OrderSummary) (i : ℕ)
      → ltb_ℤ c.size (pos 0) ≡ false
      → eqb_ℤ c.size (pos 0) ≡ true
      → index_of c.price s.levels ≡ some i
      → update_orderbook s c d ≡ some (removed s c.price i)
  unfolding update_orderbook removed
  remove_old c i nonneg gone old =
      ground (arith, nonneg, gone, h.placed c.price, old, pop_at-index_of c.price i s.levels old)

  replace_old :
      (c : OrderSummary) (i : ℕ)
      → ltb_ℤ c.size (pos 0) ≡ false
      → eqb_ℤ c.size (pos 0) ≡ false
      → index_of c.price s.levels ≡ some i
      → update_orderbook s c d ≡ some (changed s c.price (λ _. c.size))
  unfolding update_orderbook changed
  replace_old c i nonneg kept old = ground (
    arith,
    nonneg,
    kept,
    h.placed c.price,
    old,
    modify_at-index_of c.price i (λ _. c.size) s.levels old,
  )

  update_new :
      (c : OrderSummary)
      → ltb_ℤ c.size (pos 0) ≡ false
      → index_of c.price s.levels ≡ none
      → update_orderbook s c d ≡ (if eqb_ℤ c.size (pos 0) then some s else some (inserted d s c))
  unfolding update_orderbook
  update_new c nonneg new = ground (arith, nonneg, h.placed c.price, new, insert_new d s h c new)

  remove_sizes :
      (c : OrderSummary) (i p : ℕ)
      → ltb_ℤ c.size (pos 0) ≡ false
      → eqb_ℤ c.size (pos 0) ≡ true
      → sizes (removed s c.price i) p ≡ specify_update c (sizes s) p
  unfolding removed specify_update
  remove_sizes c i p nonneg gone =
      ground (arith, nonneg, gone, size_of-without d c.price s.levels p h.sorted)

  replace_sizes :
      (c : OrderSummary) (i p : ℕ)
      → ltb_ℤ c.size (pos 0) ≡ false
      → eqb_ℤ c.size (pos 0) ≡ false
      → index_of c.price s.levels ≡ some i
      → sizes (changed s c.price (λ _. c.size)) p ≡ specify_update c (sizes s) p
  unfolding changed specify_update
  replace_sizes c i p nonneg kept old =
      let (z, e) = size_of-some c.price i s.levels old in
      ground (arith, nonneg, kept, e, size_of-resized p c.price (λ _. c.size) s.levels)

  update_sizes :
      (c : OrderSummary) (p : ℕ)
      → ltb_ℤ c.size (pos 0) ≡ false
      → eqb_ℤ c.size (pos 0) ≡ false
      → index_of c.price s.levels ≡ none
      → sizes (inserted d s c) p ≡ specify_update c (sizes s) p
  unfolding specify_update inserted
  update_sizes c p nonneg kept new =
      let l : PriceLevel = record { price = c.price; size = c.size } in
      ground (arith, nonneg, kept, size_of-insert_at d l s.levels p new)

  -- On a coherent side a price change raises nothing and keeps it coherent: a negative size, or size 0
  -- at a price that is not there, changes nothing; size 0 removes its price, any other size replaces
  -- what stood there; and no other size changes.
  pub update_orderbook-Gives :
      (c : OrderSummary) → Gives d (update_orderbook s c d) (specify_update c (sizes s))
  update_orderbook-Gives c = elim (Bool-cases (ltb_ℤ c.size (pos 0))) [
    | inl negative ↦ (
      s,
      unfold update_orderbook in ground (arith, negative),
      h,
      λ p. unfold specify_update in ground (arith, negative),
    )
    | inr nonneg ↦ elim (Bool-cases (eqb_ℤ c.size (pos 0))) [
      | inl gone ↦ elim (Option-cases (index_of c.price s.levels)) [
        | inl new ↦ (
          s,
          rw gone at (update_new c nonneg new),
          h,
          λ p.
              unfold specify_update in
              ground (arith, nonneg, gone, size_of-index_of c.price s.levels new),
        )
        | inr (i, old) ↦ (
          removed s c.price i,
          remove_old c i nonneg gone old,
          removed-IsCoherent d s h c.price i old,
          λ p. remove_sizes c i p nonneg gone,
        )
      ]
      | inr kept ↦ elim (Option-cases (index_of c.price s.levels)) [
        | inl new ↦ (
          inserted d s c,
          rw kept at (update_new c nonneg new),
          inserted-IsCoherent d s h c new,
          λ p. update_sizes c p nonneg kept new,
        )
        | inr (i, old) ↦ (
          changed s c.price (λ _. c.size),
          replace_old c i nonneg kept old,
          changed-IsCoherent d s h c.price (λ _. c.size),
          λ p. replace_sizes c i p nonneg kept old,
        )
      ]
    ]
  ]
