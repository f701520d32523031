-- ===== src/Lifecycle/Discovery.antt =====
-- The discovery of markets (src/lifecycle/controller.py): a market is registered once.
use polypy.Prelude.{
  ℕ, String, ◌≡◌, refl, Bool, true, false, some, List, [], ◌∷◌, All, arith, ◌==◌, eq_self,
  if◌then◌else◌, if-elim,
}
use polypy.Prelude.Int.{ℤ}
use polypy.Prelude.Ids.{member, add, member-add}
use polypy.Prelude.Dict.{Dict, put}
use polypy.SortedDict.{SortedDict}
use polypy.Registry.{AssetRegistry}
use polypy.Registry.Updates.{add_asset_locked}
use polypy.Registry.Coherence.{IsCoherent}
use polypy.Registry.Coherence.Adding.{add_asset_locked-IsCoherent}
use polypy.Lifecycle.{
  MarketInfo, LifecycleController, token_id, register_tokens, register_markets, discover_markets,
  add_market_manually,
}

module _ (S : SortedDict) where
  register_tokens-IsCoherent :
      (now : ℕ) (c : String) (t : ℤ) (tokens : List (Dict String)) (r : AssetRegistry S)
      → IsCoherent S r
      → IsCoherent S (register_tokens S now c t tokens r).0
  unfolding register_tokens
  register_tokens-IsCoherent now c t [] r h = h
  register_tokens-IsCoherent now c t (token ∷ tokens) r h =
      let a = token_id token in
      let (r', added) = if a == "" then (r, false) else add_asset_locked S now a c t r in
      let h' : IsCoherent S r' =
        if-elim (λ (x : AssetRegistry S × Bool). IsCoherent S x.0) (a == "") (λ _. h)
          (λ _. add_asset_locked-IsCoherent S r h now a c t) in
      register_tokens-IsCoherent now c t tokens r' h'

  -- the state in which the loop goes on after a new market
  abbrev after_market : ℕ → MarketInfo → LifecycleController S → LifecycleController S
  after_market now m c = record {
    registry = (register_tokens S now m.condition_id m.end_timestamp m.tokens c.registry).0;
    known_conditions = add m.condition_id c.known_conditions;
    market_metadata = put c.market_metadata m.condition_id m;
  }

  abbrev IsKnown : LifecycleController S → MarketInfo → Type 0
  IsKnown c m = member m.condition_id c.known_conditions ≡ true

  pub known_kept :
      (now : ℕ) (k : String) (ms : List MarketInfo) (c : LifecycleController S)
      → member k c.known_conditions ≡ true
      → member k (register_markets S now ms c).0.known_conditions ≡ true
  unfolding register_markets
  known_kept now k [] c h = h
  known_kept now k (m ∷ ms) c h =
      if-elim (λ (x : LifecycleController S × List String). member k x.0.known_conditions ≡ true)
        (member m.condition_id c.known_conditions) (λ _. known_kept now k ms c h)
        (λ _.
          known_kept now k ms (after_market now m c)
            (ground (arith, h, member-add m.condition_id k c.known_conditions)))

  All-IsKnown :
      (now : ℕ) (ms : List MarketInfo) (c : LifecycleController S)
      → All (IsKnown (register_markets S now ms c).0) ms
  unfolding register_markets
  All-IsKnown now [] c = tt
  All-IsKnown now (m ∷ ms) c =
      if-elim (λ (x : LifecycleController S × List String). All (IsKnown x.0) (m ∷ ms))
        (member m.condition_id c.known_conditions)
        (λ known. (known_kept now m.condition_id ms c known, All-IsKnown now ms c))
        (λ _. (
          known_kept now m.condition_id ms (after_market now m c) (
              ground (
                arith,
                member-add m.condition_id m.condition_id c.known_conditions,
                eq_self m.condition_id,
              )),
          All-IsKnown now ms (after_market now m c),
        ))

  known_skipped :
      (now : ℕ) (ms : List MarketInfo) (c : LifecycleController S)
      → All (IsKnown c) ms
      → register_markets S now ms c ≡ (c, [])
  unfolding register_markets
  known_skipped now [] c h = refl
  known_skipped now (m ∷ ms) c (known, rest) = ground (arith, known, known_skipped now ms c rest)

  register_markets-IsCoherent :
      (now : ℕ) (ms : List MarketInfo) (c : LifecycleController S)
      → IsCoherent S c.registry
      → IsCoherent S (register_markets S now ms c).0.registry
  unfolding register_markets
  register_markets-IsCoherent now [] c h = h
  register_markets-IsCoherent now (m ∷ ms) c h =
      if-elim (λ (x : LifecycleController S × List String). IsCoherent S x.0.registry)
        (member m.condition_id c.known_conditions) (λ _. register_markets-IsCoherent now ms c h)
        (λ _.
          register_markets-IsCoherent now ms (after_market now m c)
            (register_tokens-IsCoherent now m.condition_id m.end_timestamp m.tokens c.registry h))

  -- Discovery keeps the registry coherent and registers each market once: a second discovery of the
  -- same markets, at any time, changes nothing and announces nothing.
  pub discover_markets_once :
      (now now' : ℕ) (markets : List MarketInfo) (c : LifecycleController S)
      → IsCoherent S c.registry
      → IsCoherent S (discover_markets S now (some markets) c).0.registry
        × (discover_markets S now' (some markets) (discover_markets S now (some markets) c).0
            ≡ ((discover_markets S now (some markets) c).0, []))
  unfolding discover_markets
  discover_markets_once now now' markets c h = (
    register_markets-IsCoherent now markets c h,
    known_skipped now' markets (register_markets S now markets c).0 (All-IsKnown now markets c),
  )

  -- Once one asset of a market has been added by hand, a discovery of that market registers
  -- none of its tokens and keeps nothing of its metadata, since its condition counts as known.
  pub discover_after_manual :
      (now now' : ℕ) (a : String) (t : ℤ) (m : MarketInfo) (c : LifecycleController S)
      → (add_market_manually S now a m.condition_id t c).1 ≡ true
      → discover_markets S now' (some (m ∷ [])) (add_market_manually S now a m.condition_id t c).0
        ≡ ((add_market_manually S now a m.condition_id t c).0, [])
  unfolding discover_markets add_market_manually
  discover_after_manual now now' a t m c added = known_skipped now' (m ∷ []) _ (
    ground (
      arith,
      added,
      member-add m.condition_id m.condition_id c.known_conditions,
      eq_self m.condition_id,
    ),
    tt,
  )
