-- ===== src/Registry/Runs.antt =====
-- Every sequence of the registry's operations (src/registry/asset_registry.py), from the empty
-- registry on, in any order and by any callers.
use polypy.Prelude.{ℕ, String, refl, List, [], ◌∷◌, arith}
use polypy.Prelude.Int.{ℤ}
use polypy.Prelude.Ids.{IdSet, member}
use polypy.SortedDict.{SortedDict}
use polypy.Prelude.Dict.{get}
use polypy.SortedDict.Laws.{get-empty}
use polypy.Registry.{AssetRegistry, init}
use polypy.Registry.Updates
use polypy.Registry.Coherence.{IsCoherent}
use polypy.Registry.Coherence.Adding.{add_asset_locked-IsCoherent}
use polypy.Registry.Coherence.Moving.{
  mark_subscribed-IsCoherent, mark_expired-IsCoherent, take_pending_batch-IsCoherent,
}
use polypy.Registry.Coherence.Reassigning.{
  reassign_connection-IsCoherent, remove_connection-IsCoherent,
}
use polypy.Registry.Coherence.Removing.{remove_asset-IsCoherent}

-- A reading of the clock is given where the source reads it.
pub data Operation : Type 0 where
  add_asset : ℕ → String → String → ℤ → Operation
  mark_subscribed : ℕ → List String → String → Operation
  mark_expired : List String → Operation
  take_pending_batch : ℤ → Operation
  reassign_connection : List String → String → String → Operation
  remove_connection : String → Operation
  remove_asset : String → Operation

module _ (S : SortedDict) where
  -- The test that `add_asset` makes before it has the lock writes nothing, so that what it does to the
  -- registry is the part under the lock, after whatever ran in between.
  unfoldable pub apply : Operation → AssetRegistry S → AssetRegistry S
  apply (add_asset now a c t) s = (Updates.add_asset_locked S now a c t s).0
  apply (mark_subscribed now ids conn) s = (Updates.mark_subscribed S now ids conn s).0
  apply (mark_expired ids) s = (Updates.mark_expired S ids s).0
  apply (take_pending_batch n) s = (Updates.take_pending_batch S n s).0
  apply (reassign_connection ids old new) s = (Updates.reassign_connection S ids old new s).0
  apply (remove_connection conn) s = (Updates.remove_connection S conn s).0
  apply (remove_asset a) s = (Updates.remove_asset S a s).0

  unfoldable pub run : List Operation → AssetRegistry S → AssetRegistry S
  unfolding apply
  run [] s = s
  run (op ∷ ops) s = run ops (apply op s)

  pub init-IsCoherent : IsCoherent S (init S)
  unfolding init member get
  init-IsCoherent = record {
    keyed = λ a. refl;
    status_index = λ a st. refl;
    condition_index = λ a c. refl;
    connection_index = λ a c h. ground arith;
    expiration_index = λ a t. ground (arith, get-empty S IdSet t);
    buckets_filled = λ t. ground (arith, get-empty S IdSet t);
    queue_distinct = tt;
    queue_waiting = λ a h. ground arith;
  }

  pub apply-IsCoherent :
      (op : Operation) (s : AssetRegistry S) → IsCoherent S s → IsCoherent S (apply op s)
  unfolding apply
  apply-IsCoherent (add_asset now a c t) s h = add_asset_locked-IsCoherent S s h now a c t
  apply-IsCoherent (mark_subscribed now ids conn) s h =
      mark_subscribed-IsCoherent S now ids conn s h
  apply-IsCoherent (mark_expired ids) s h = mark_expired-IsCoherent S ids s h
  apply-IsCoherent (take_pending_batch n) s h = take_pending_batch-IsCoherent S n s h
  apply-IsCoherent (reassign_connection ids old new) s h =
      (reassign_connection-IsCoherent S old new ids s h).0
  apply-IsCoherent (remove_connection conn) s h = remove_connection-IsCoherent S conn s h
  apply-IsCoherent (remove_asset a) s h = remove_asset-IsCoherent S a s h

  -- Any sequence of operations keeps a coherent registry coherent: the indices by status, by
  -- condition and by expiration hold an asset exactly under the values in its entry, the index by
  -- connection covers every assignment, no expiration bucket is empty, and the queue holds no asset
  -- twice and none that is SUBSCRIBED.
  pub run-IsCoherent :
      (ops : List Operation) (s : AssetRegistry S) → IsCoherent S s → IsCoherent S (run ops s)
  unfolding run
  run-IsCoherent [] s h = h
  run-IsCoherent (op ∷ ops) s h = run-IsCoherent ops (apply op s) (apply-IsCoherent op s h)
