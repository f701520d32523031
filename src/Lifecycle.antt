-- ===== src/Lifecycle.antt =====
-- The lifecycle controller (src/lifecycle/controller.py, types.py) over the registry. Times are in
-- milliseconds; what the HTTP client fetches is an argument. A method returns beside the state the
-- assets for which it calls its callback, in order; a callback that fails is only logged.
pub mod Discovery
pub mod Expiry
pub mod Tasks
pub mod Watching
pub mod Api
pub mod Fetching
pub mod Tests
use polypy.Prelude.{
  ℕ, ◌+◌, ◌-◌, String, Bool, true, false, Option, none, some, List, [], ◌∷◌, ◌++◌, length, ltb, eqb,
  ◌==◌, if◌then◌else◌,
}
use polypy.Prelude.Int.{ℤ}
use polypy.Prelude.Ids.{IdSet, member, add}
use polypy.Prelude.Dict.{Dict, get, put}
use polypy.SortedDict.{SortedDict}
use polypy.Registry.{AssetRegistry}
use polypy.Registry.Entry.{AssetEntry, expired, subscribed}
use polypy.Registry.Queries.{get_by_status, get_expiring_before}
use polypy.Registry.Updates.{add_asset_locked, mark_expired, remove_asset}

abbrev pub cleanup_delay : ℕ
cleanup_delay = 3600000

pub record MarketInfo : Type 0 where
  pub condition_id : String
  pub question : String
  pub outcomes : List String
  pub tokens : List (Dict String)
  pub end_date_iso : String
  pub end_timestamp : ℤ
  pub active : Bool
  pub closed : Bool

pub record LifecycleController (S : SortedDict) : Type 0 where
  pub registry : AssetRegistry S
  pub known_conditions : IdSet
  pub market_metadata : Dict MarketInfo

-- token.get("token_id", "")
abbrev pub token_id : Dict String → String
token_id t = elim (get t "token_id") [ none ↦ "" | some id ↦ id ]

-- entry.subscribed_at or entry.created_at
unfoldable pub age_of : ℕ → AssetEntry → ℕ
age_of now e = now - (if eqb e.subscribed_at 0 then e.created_at else e.subscribed_at)

-- [a for a in l if a in s]
unfoldable pub select : IdSet → List String → List String
unfolding member
select s [] = []
select s (a ∷ l) = if member a s then a ∷ select s l else select s l

module _ (S : SortedDict) where
  -- The loop over the tokens of a market: the new assets, of which the callback hears. `add_asset`
  -- writes under its lock, as in the registry's own operations.
  unfoldable pub register_tokens :
      ℕ → String → ℤ → List (Dict String) → AssetRegistry S → AssetRegistry S × List String
  register_tokens now c t [] r = (r, [])
  register_tokens now c t (token ∷ tokens) r =
      let a = token_id token in
      let (r', added) = if a == "" then (r, false) else add_asset_locked S now a c t r in
      let (r'', later) = register_tokens now c t tokens r' in
      (r'', if added then a ∷ later else later)

  -- the loop over the markets
  unfoldable pub register_markets :
      ℕ → List MarketInfo → LifecycleController S → LifecycleController S × List String
  unfolding register_tokens member add
  register_markets now [] c = (c, [])
  register_markets now (m ∷ ms) c =
      let (r, found) = register_tokens now m.condition_id m.end_timestamp m.tokens c.registry in
      let known : LifecycleController S = record {
        registry = r;
        known_conditions = add m.condition_id c.known_conditions;
        market_metadata = put c.market_metadata m.condition_id m;
      } in
      let (c', later) = register_markets now ms known in
      let skipped = register_markets now ms c in
      if member m.condition_id c.known_conditions then skipped else (c', found ++ later)

  -- `_discover_markets`; none for a fetch that fails
  unfoldable pub discover_markets :
      ℕ → Option (List MarketInfo) → LifecycleController S → LifecycleController S × List String
  unfolding register_markets
  discover_markets now none c = (c, [])
  discover_markets now (some markets) c = register_markets now markets c

  unfoldable pub add_market_manually :
      ℕ → String → String → ℤ → LifecycleController S → LifecycleController S × Bool
  unfolding add
  add_market_manually now a condition t c =
      let (r, added) = add_asset_locked S now a condition t c.registry in
      (
        record c {
          registry = r;
          known_conditions = if added then add condition c.known_conditions else c.known_conditions;
        },
        added,
      )

  -- `_check_expirations`
  unfoldable pub check_expirations : ℤ → AssetRegistry S → AssetRegistry S × List String
  unfolding select
  check_expirations current_time r =
      let to_expire =
        select (get_by_status S r subscribed) (get_expiring_before S r current_time) in
      if eqb (length to_expire) 0 then (r, []) else ((mark_expired S to_expire r).0, to_expire)

  -- one asset of the loop of `_cleanup_expired`
  unfoldable pub cleanup_one : ℕ → String → AssetRegistry S → AssetRegistry S × ℕ
  unfolding age_of
  cleanup_one now a r = elim (get r.assets a) [
    | none ↦ (r, 0)
    | some e ↦ if ltb cleanup_delay (age_of now e) then ((remove_asset S a r).0, 1) else (r, 0)
  ]

  unfoldable pub cleanup_each : ℕ → List String → AssetRegistry S → AssetRegistry S × ℕ
  unfolding cleanup_one
  cleanup_each now [] r = (r, 0)
  cleanup_each now (a ∷ l) r =
      let (r', n) = cleanup_one now a r in
      let (r'', removed) = cleanup_each now l r' in (r'', n + removed)

  -- `_cleanup_expired`, with the number of assets removed
  unfoldable pub cleanup_expired : ℕ → AssetRegistry S → AssetRegistry S × ℕ
  unfolding cleanup_each
  cleanup_expired now r = cleanup_each now (get_by_status S r expired) r
