-- ===== src/Server/Handlers/Answers.antt =====
-- What the handlers of src/server/server.py answer: the markets with a SUBSCRIBED token, and the order book that
-- the worker of the asset gives.
use polypy.Prelude.{
  String, ◌≡◌, refl, ap, Bool, false, some, List, [], ◌∷◌, ◌||◌, arith, if◌then◌else◌,
}
use polypy.Prelude.Dict.{Dict, get, values}
use polypy.SortedDict.{SortedDict}
use polypy.Registry.{AssetRegistry}
use polypy.Registry.Entry.{subscribed, status_eq, holds}
use polypy.Registry.Queries.{get_by_status}
use polypy.Registry.Coherence.{IsCoherent}
use polypy.Lifecycle.{MarketInfo, LifecycleController, token_id}
use polypy.Server.Handlers.{MarketRow, any_token, row_of, subscribed_rows, handle_markets}

module _ (S : SortedDict) where
  -- some token of a market has a SUBSCRIBED entry
  abbrev pub any_subscribed : AssetRegistry S → List (Dict String) → Bool
  any_subscribed r [] = false
  any_subscribed r (t ∷ ts) =
      holds (λ e. status_eq e.status subscribed) (get r.assets (token_id t)) || any_subscribed r ts

  abbrev pub rows : AssetRegistry S → List MarketInfo → List MarketRow
  rows r [] = []
  rows r (m ∷ ms) = if any_subscribed r m.tokens then row_of m ∷ rows r ms else rows r ms

  module _ (r : AssetRegistry S) (h : IsCoherent S r) where
    any_token-any_subscribed :
        (ts : List (Dict String))
        → any_token (get_by_status S r subscribed) ts ≡ any_subscribed r ts
    unfolding any_token get_by_status
    any_token-any_subscribed [] = refl
    any_token-any_subscribed (t ∷ ts) =
        ground (arith, h.status_index (token_id t) subscribed, any_token-any_subscribed ts)

    subscribed_rows-rows :
        (ms : List MarketInfo) → subscribed_rows (get_by_status S r subscribed) ms ≡ rows r ms
    unfolding subscribed_rows
    subscribed_rows-rows [] = refl
    subscribed_rows-rows (m ∷ ms) =
        ground (arith, any_token-any_subscribed m.tokens, subscribed_rows-rows ms)

    -- With a coherent registry GET /markets answers with the known markets that have a token whose entry is
    -- SUBSCRIBED, in the order in which they became known, and with no other.
    pub handle_markets_lists :
        (c : LifecycleController S)
        → handle_markets S (some c) (some r) ≡ some (rows r (values c.market_metadata))
    unfolding handle_markets
    handle_markets_lists c = ap some (subscribed_rows-rows (values c.market_metadata))
