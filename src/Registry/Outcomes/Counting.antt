-- ===== src/Registry/Outcomes/Counting.antt =====
-- The counts of `connection_stats` (src/registry/asset_registry.py).
use polypy.Prelude.{ℕ, ◌+◌, ◌≤◌, String, ◌≡◌, List, [], ◌∷◌, length, arith, eqb, if◌then◌else◌}
use polypy.Prelude.Dict.{get}
use polypy.SortedDict.{SortedDict}
use polypy.Registry.{AssetRegistry}
use polypy.Registry.Entry.{subscribed, expired, status_eq, holds, set_at}
use polypy.Registry.Queries.{
  select_status, get_active_by_connection, get_by_connection, count_statuses, connection_stats,
}

module _ (S : SortedDict) (s : AssetRegistry S) where
  counted :
      (ids : List String) (subs exps : ℕ)
      → ((count_statuses S s ids subs exps).0 ≡ subs + length (select_status S s subscribed ids))
        × ((count_statuses S s ids subs exps).1 ≡ exps + length (select_status S s expired ids))
  unfolding count_statuses select_status
  counted [] subs exps = omega arith
  counted (a ∷ ids) subs exps = ground (
    arith,
    counted ids
        (if holds (λ e. status_eq e.status subscribed) (get s.assets a) then subs + 1 else subs)
        (if holds (λ e. status_eq e.status expired) (get s.assets a) then exps + 1 else exps),
  )

  disjoint :
      (ids : List String)
      → length (select_status S s subscribed ids) + length (select_status S s expired ids)
        ≤ length ids
  unfolding select_status
  disjoint [] = omega arith
  disjoint (a ∷ ids) = ground (arith, disjoint ids)

  -- For every connection `connection_stats` agrees with the other readings: total is the size of
  -- `get_by_connection`, subscribed the size of `get_active_by_connection`, expired the number of its
  -- EXPIRED assets, the ratio is expired over total (0 over 1 for no assets), and no asset counts as
  -- both.
  pub connection_stats_agrees :
      (c : String)
      → ((connection_stats S s c).total ≡ length (get_by_connection S s c))
        × ((connection_stats S s c).subscribed ≡ length (get_active_by_connection S s c))
        × ((connection_stats S s c).expired
            ≡ length (select_status S s expired (get_by_connection S s c)))
        × ((connection_stats S s c).subscribed + (connection_stats S s c).expired
            ≤ (connection_stats S s c).total)
        × ((connection_stats S s c).pollution_ratio.num ≡ (connection_stats S s c).expired)
        × ((connection_stats S s c).pollution_ratio.den
            ≡ (if eqb (connection_stats S s c).total 0 then 1 else (connection_stats S s c).total))
  unfolding connection_stats get_by_connection get_active_by_connection select_status
  connection_stats_agrees c =
      let ids = set_at s.by_connection c in ground (arith, counted ids 0 0, disjoint ids)
