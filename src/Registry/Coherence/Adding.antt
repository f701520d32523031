-- ===== src/Registry/Coherence/Adding.antt =====
-- `add_asset` (src/registry/asset_registry.py) keeps the registry coherent.
use polypy.Prelude.{ℕ, String, ◌≡◌, false, none, eq_iff, Bool, arith, if-elim}
use polypy.Prelude.Int.{ℤ}
use polypy.Prelude.Ids.{member, member-add, member-append, Distinct-snoc, add}
use polypy.Prelude.Dict.{get, has, get-put}
use polypy.SortedDict.{SortedDict}
use polypy.Registry.{AssetRegistry}
use polypy.Registry.Entry.{pending, set_at}
use polypy.Registry.Indices.{set_at-put, member-index_expiration, index_expiration_filled}
use polypy.Registry.Updates.{insert_asset, add_asset_locked, add_asset}
use polypy.Registry.Coherence.{IsCoherent}

module _ (S : SortedDict) (s : AssetRegistry S) (h : IsCoherent S s) where
  module _ (now : ℕ) (a c : String) (t : ℤ) where
    -- a new asset is not in the queue
    not_queued : get s.assets a ≡ none → member a s.pending_queue ≡ false
    not_queued new = ground (arith, h.queue_waiting a)

    pub insert_asset-IsCoherent : get s.assets a ≡ none → IsCoherent S (insert_asset S now a c t s)
    unfolding insert_asset member
    insert_asset-IsCoherent new = record {
      keyed = λ b. simp get-put (ground (arith, eq_iff a b, h.keyed b));
      status_index = λ b st.
          simp get-put
            (ground (arith, eq_iff a b, h.status_index b st, member-add a b (s.by_status pending)));
      condition_index = λ b d. simp get-put (
          ground (
            arith,
            eq_iff a b,
            eq_iff c d,
            h.condition_index b d,
            set_at-put s.by_condition c d (add a (set_at s.by_condition c)),
            member-add a b (set_at s.by_condition c),
          ));
      connection_index = λ b d. simp get-put (ground (arith, h.connection_index b d));
      expiration_index = λ b u.
          simp (get-put, member-index_expiration)
            (ground (arith, eq_iff a b, h.expiration_index b u));
      buckets_filled = λ u. index_expiration_filled S a t u s.by_expiration (h.buckets_filled u);
      queue_distinct = Distinct-snoc a s.pending_queue h.queue_distinct (not_queued new);
      queue_waiting =
          λ b. simp (get-put, member-append) (ground (arith, eq_iff a b, h.queue_waiting b));
    }

    pub add_asset_locked-IsCoherent : IsCoherent S (add_asset_locked S now a c t s).0
    unfolding add_asset_locked
    add_asset_locked-IsCoherent =
        if-elim (λ (r : AssetRegistry S × Bool). IsCoherent S r.0) (has s.assets a) (λ _. h)
          (λ new. insert_asset-IsCoherent (ground arith))

-- Whatever coherent state the other tasks leave while `add_asset` waits for the lock, it keeps the
-- registry coherent: the test under the lock sees an asset that came in between.
pub add_asset-IsCoherent :
    (S : SortedDict) (waiting : AssetRegistry S → AssetRegistry S) (now : ℕ) (a c : String) (t : ℤ)
    (s : AssetRegistry S)
    → IsCoherent S s
    → IsCoherent S (waiting s)
    → IsCoherent S (add_asset S waiting now a c t s).0
unfolding add_asset
add_asset-IsCoherent S waiting now a c t s h k =
    if-elim (λ (r : AssetRegistry S × Bool). IsCoherent S r.0) (has s.assets a) (λ _. h)
      (λ _. add_asset_locked-IsCoherent S (waiting s) k now a c t)
