-- ===== src/Registry/Outcomes/Batching.antt =====
-- The pending queue, the race of two `add_asset` calls, and what is left after `remove_asset`
-- (src/registry/asset_registry.py).
use polypy.Prelude.{
  ℕ, ◌≤◌, ◌<◌, String, ◌≡◌, refl, Bool, true, false, none, List, ◌++◌, length, length-take, arith,
  if◌then◌else◌, Option-elim, if-elim, eq_self, min,
}
use polypy.Prelude.Int.{ℤ, pos, ltb_ℤ}
use polypy.Prelude.Ids.{member}
use polypy.Prelude.Dict.{get, has, has-put_self, get-remove}
use polypy.SortedDict.{SortedDict}
use polypy.Registry.{AssetRegistry}
use polypy.Registry.Entry.{AssetStatus}
use polypy.Prelude.Slices.{slice_to, slice_split}
use polypy.Registry.Queries.{get_expiring_before, get_by_status, get_by_condition}
use polypy.Registry.Updates.{add_asset_locked, add_asset, take_pending_batch, remove_asset}
use polypy.Registry.Coherence.{IsCoherent}
use polypy.Registry.Coherence.Removing.{remove_asset-IsCoherent}
use polypy.Registry.Expiring.{member-get_expiring_before}

-- the loop-free part of `take_pending_batch`, for a size that is not negative
batch_size :
    (n : ℕ) (l : List String)
    → length (slice_to l (if ltb_ℤ (pos 400) (pos n) then pos 400 else pos n))
      ≡ min (min n 400) (length l)
unfolding slice_to
batch_size n l =
    if-elim (λ k. length (slice_to l k) ≡ min (min n 400) (length l)) (ltb_ℤ (pos 400) (pos n))
      (λ e. let capped : 400 < n = ground arith in omega (arith, length-take 400 l))
      (λ e. let below : n ≤ 400 = ground arith in omega (arith, length-take n l))

module _ (S : SortedDict) where
  -- `take_pending_batch` splits the queue: what it returns, before what it leaves, is the old queue,
  -- for every size, negative ones included; of a size n that is not negative it returns
  -- min(n, 400) ids, or the whole queue if that is shorter; no entry changes.
  pub take_pending_batch_splits :
      (max_size : ℤ) (n : ℕ) (s : AssetRegistry S)
      → ((take_pending_batch S max_size s).1 ++ (take_pending_batch S max_size s).0.pending_queue
          ≡ s.pending_queue)
        × (length (take_pending_batch S (pos n) s).1 ≡ min (min n 400) (length s.pending_queue))
        × ((take_pending_batch S max_size s).0.assets ≡ s.assets)
  unfolding take_pending_batch
  take_pending_batch_splits max_size n s = (
    slice_split s.pending_queue (if ltb_ℤ (pos 400) max_size then pos 400 else max_size),
    batch_size n s.pending_queue,
    refl,
  )

  added_listed :
      (now : ℕ) (a c : String) (t : ℤ) (s : AssetRegistry S)
      → has (add_asset_locked S now a c t s).0.assets a ≡ true
  unfolding add_asset_locked
  added_listed now a c t s =
      if-elim (λ (r : AssetRegistry S × Bool). has r.0.assets a ≡ true) (has s.assets a)
        (λ old. old) (λ _. has-put_self s.assets a _)

  -- Two calls of `add_asset` with one new id, the second locked while the first waits: the first to
  -- get the lock adds the asset and the other returns False and changes nothing.
  pub add_asset_race :
      (now now' : ℕ) (a c c' : String) (t t' : ℤ) (s : AssetRegistry S)
      → get s.assets a ≡ none
      → ((add_asset_locked S now' a c' t' s).1 ≡ true)
        × (add_asset S (λ r. (add_asset_locked S now' a c' t' r).0) now a c t s
            ≡ ((add_asset_locked S now' a c' t' s).0, false))
  unfolding add_asset add_asset_locked
  add_asset_race now now' a c c' t t' s new =
      (ground arith, ground (arith, new, added_listed now' a c' t' s))

  removed : (a : String) (s : AssetRegistry S) → get (remove_asset S a s).0.assets a ≡ none
  unfolding remove_asset
  removed a s =
      Option-elim (λ (r : AssetRegistry S × Bool). get r.0.assets a ≡ none) (get s.assets a)
        (λ e. e) (λ x e. simp (get-remove, eq_self))

  returned : (a : String) (s : AssetRegistry S) → (remove_asset S a s).1 ≡ has s.assets a
  unfolding remove_asset
  returned a s = ground arith

  -- `remove_asset` returns True exactly for a tracked asset. After it a coherent registry knows the
  -- asset no more: not by id, by status, by condition or by expiration, and not in the queue.
  pub remove_asset_forgets :
      (a : String) (s : AssetRegistry S)
      → IsCoherent S s
      → ((remove_asset S a s).1 ≡ has s.assets a)
        × (get (remove_asset S a s).0.assets a ≡ none)
        × ((st : AssetStatus) → member a (get_by_status S (remove_asset S a s).0 st) ≡ false)
        × ((c : String) → member a (get_by_condition S (remove_asset S a s).0 c) ≡ false)
        × ((t : ℤ) → member a (get_expiring_before S (remove_asset S a s).0 t) ≡ false)
        × (member a (remove_asset S a s).0.pending_queue ≡ false)
  unfolding get_by_status get_by_condition
  remove_asset_forgets a s h =
      let h' = remove_asset-IsCoherent S a s h in
      let gone = removed a s in
      (
        returned a s,
        gone,
        λ st. ground (arith, gone, h'.status_index a st),
        λ c. ground (arith, gone, h'.condition_index a c),
        λ t. ground (arith, gone, member-get_expiring_before S (remove_asset S a s).0 h' a t),
        ground (arith, gone, h'.queue_waiting a),
      )
