-- ===== src/Registry.antt =====
-- The asset registry (src/registry/asset_registry.py): one dictionary of entries, four indices over
-- it, and the queue of assets that await subscription. The clock is read in whole units, so a time is
-- a number and 0 stands for the 0.0 of the source.
pub mod Entry
pub mod Queries
pub mod Updates
pub mod Indices
pub mod Coherence
pub mod Outcomes
pub mod Runs
pub mod Expiring
pub mod Tests
use polypy.Prelude.{String, List, [], if◌then◌else◌}
use polypy.Prelude.Ids.{IdSet, add, discard}
use polypy.Prelude.Dict.{Dict}
use polypy.SortedDict.{SortedDict}
use polypy.Registry.Entry.{AssetEntry, AssetStatus, status_eq}

pub record AssetRegistry (S : SortedDict) : Type 0 where
  pub assets : Dict AssetEntry
  pub by_condition : Dict IdSet
  pub by_connection : Dict IdSet
  pub by_status : AssetStatus → IdSet
  pub by_expiration : S.Map IdSet
  pub pending_queue : List String

-- AssetRegistry()
unfoldable pub init : (S : SortedDict) → AssetRegistry S
init S = record {
  assets = [];
  by_condition = [];
  by_connection = [];
  by_status = λ _. [];
  by_expiration = S.empty;
  pending_queue = [];
}

-- self._by_status[status] = ids; the dictionary holds a set for every status from the start
abbrev pub with_status : (AssetStatus → IdSet) → AssetStatus → IdSet → AssetStatus → IdSet
with_status f st ids q = if status_eq st q then ids else f q

-- self._by_status[old].discard(id), self._by_status[new].add(id)
unfoldable pub move_status :
    String → AssetStatus → AssetStatus → (AssetStatus → IdSet) → AssetStatus → IdSet
move_status id old new f =
    let f' = with_status f old (discard id (f old)) in with_status f' new (add id (f' new))
