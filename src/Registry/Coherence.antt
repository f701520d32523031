-- ===== src/Registry/Coherence.antt =====
-- The invariant of the registry: the four indices and the queue agree with the dictionary of entries.
pub mod Adding
pub mod Removing
pub mod Reassigning
pub mod Moving
use polypy.Prelude.{String, ◌≡◌, ◌≢◌, Bool, true, false, ◌&&◌, not, Option, some, [], ◌==◌}
use polypy.Prelude.Int.{ℤ, pos, ltb_ℤ, eqb_ℤ}
use polypy.Prelude.Ids.{member, Distinct}
use polypy.Prelude.Dict.{get}
use polypy.SortedDict
use polypy.SortedDict.{SortedDict}
use polypy.Registry.{AssetRegistry}
use polypy.Registry.Entry.{AssetEntry, AssetStatus, subscribed, status_eq, holds, names, set_at}
use polypy.Registry.Queries.{expiring_at}

-- An index by an exact field holds an asset exactly under the value in the asset's entry. The index
-- by connection may hold more: a re-subscription leaves the asset in the old connection's set.
pub record IsCoherent (S : SortedDict) (s : AssetRegistry S) : Type 0 where
  pub keyed : (a : String) → holds (λ e. not (e.asset_id == a)) (get s.assets a) ≡ false
  pub status_index :
      (a : String) (st : AssetStatus)
      → member a (s.by_status st) ≡ holds (λ e. status_eq e.status st) (get s.assets a)
  pub condition_index :
      (a c : String)
      → member a (set_at s.by_condition c) ≡ holds (λ e. e.condition_id == c) (get s.assets a)
  pub connection_index :
      (a c : String)
      → holds (λ e. names c e.connection_id) (get s.assets a) ≡ true
      → member a (set_at s.by_connection c) ≡ true
  pub expiration_index :
      (a : String) (t : ℤ)
      → member a (expiring_at S s.by_expiration t)
        ≡ holds (λ e. ltb_ℤ (pos 0) e.expiration_ts && eqb_ℤ e.expiration_ts t) (get s.assets a)
  pub buckets_filled : (t : ℤ) → SortedDict.get S s.by_expiration t ≢ some []
  pub queue_distinct : Distinct s.pending_queue
  pub queue_waiting :
      (a : String)
      → member a s.pending_queue ≡ true
      → holds (λ e. not (status_eq e.status subscribed)) (get s.assets a) ≡ true
