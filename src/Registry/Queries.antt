-- ===== src/Registry/Queries.antt =====
-- The read-only operations of the registry (src/registry/asset_registry.py). A ratio is kept as its
-- two numbers.
use polypy.Prelude.{ℕ, ◌+◌, String, none, some, List, [], ◌∷◌, ◌++◌, length, eqb, if◌then◌else◌}
use polypy.Prelude.Int.{ℤ}
use polypy.Prelude.Ids.{IdSet}
use polypy.Prelude.Dict.{get}
use polypy.SortedDict
use polypy.SortedDict.{SortedDict}
use polypy.Registry.{AssetRegistry}
use polypy.Registry.Entry.{AssetStatus, subscribed, expired, status_eq, holds, set_at}

-- a quotient of two counts
pub record Ratio : Type 0 where
  pub num : ℕ
  pub den : ℕ

pub record ConnectionCounts : Type 0 where
  pub total : ℕ
  pub subscribed : ℕ
  pub expired : ℕ
  pub pollution_ratio : Ratio

module _ (S : SortedDict) where
  unfoldable pub get_by_condition : AssetRegistry S → String → IdSet
  get_by_condition s c = set_at s.by_condition c

  unfoldable pub get_by_connection : AssetRegistry S → String → IdSet
  get_by_connection s c = set_at s.by_connection c

  unfoldable pub get_by_status : AssetRegistry S → AssetStatus → IdSet
  get_by_status s st = s.by_status st

  unfoldable pub get_pending_count : AssetRegistry S → ℕ
  get_pending_count s = length s.pending_queue

  -- the assets of a set whose entry is in a status
  unfoldable pub select_status : AssetRegistry S → AssetStatus → List String → List String
  select_status s st [] = []
  select_status s st (a ∷ ids) =
      if holds (λ e. status_eq e.status st) (get s.assets a)
      then a ∷ select_status s st ids
      else select_status s st ids

  unfoldable pub get_active_by_connection : AssetRegistry S → String → IdSet
  unfolding select_status
  get_active_by_connection s c = select_status s subscribed (set_at s.by_connection c)

  -- self._by_expiration[ts] of a key that may be missing
  abbrev pub expiring_at : S.Map IdSet → ℤ → IdSet
  expiring_at m t = elim (SortedDict.get S m t) [ none ↦ [] | some ids ↦ ids ]

  unfoldable pub extend_each : S.Map IdSet → List ℤ → List String
  extend_each m [] = []
  extend_each m (t ∷ ts) = expiring_at m t ++ extend_each m ts

  unfoldable pub get_expiring_before : AssetRegistry S → ℤ → List String
  unfolding extend_each
  get_expiring_before s timestamp =
      extend_each s.by_expiration (S.irange_below s.by_expiration timestamp)

  -- the loop of `connection_stats`: assets SUBSCRIBED, assets EXPIRED
  unfoldable pub count_statuses : AssetRegistry S → List String → ℕ → ℕ → ℕ × ℕ
  count_statuses s [] subs exps = (subs, exps)
  count_statuses s (a ∷ ids) subs exps =
      count_statuses s ids
        (if holds (λ e. status_eq e.status subscribed) (get s.assets a) then subs + 1 else subs)
        (if holds (λ e. status_eq e.status expired) (get s.assets a) then exps + 1 else exps)

  unfoldable pub connection_stats : AssetRegistry S → String → ConnectionCounts
  unfolding count_statuses
  connection_stats s c =
      let ids = set_at s.by_connection c in
      let total = length ids in
      let (subs, exps) = count_statuses s ids 0 0 in
      if eqb total 0
      then record {
        total = 0;
        subscribed = 0;
        expired = 0;
        pollution_ratio = record { num = 0; den = 1 };
      }
      else record {
        total = total;
        subscribed = subs;
        expired = exps;
        pollution_ratio = record { num = exps; den = total };
      }
