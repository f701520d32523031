-- ===== src/Registry/Coherence/Removing.antt =====
-- `remove_asset` (src/registry/asset_registry.py) keeps the registry coherent.
use polypy.Prelude.{String, Bool, eq_iff, arith, if-elim, Option-elim}
use polypy.Prelude.Ids.{
  member, member-discard, Distinct, member-remove_first, Distinct-remove_first,
}
use polypy.Prelude.Dict.{get, get-remove}
use polypy.SortedDict.{SortedDict}
use polypy.Registry.{AssetRegistry}
use polypy.Registry.Indices.{
  member-discard_at, member-discard_connection, member-unindex_expiration,
  unindex_expiration_filled,
}
use polypy.Registry.Updates.{remove_asset}
use polypy.Registry.Coherence.{IsCoherent}

module _ (S : SortedDict) (a : String) (s : AssetRegistry S) (h : IsCoherent S s) where
  pub remove_asset-IsCoherent : IsCoherent S (remove_asset S a s).0
  unfolding remove_asset
  remove_asset-IsCoherent =
      Option-elim (λ (r : AssetRegistry S × Bool). IsCoherent S r.0) (get s.assets a) (λ _. h)
        (λ e known. record {
          keyed = λ b. simp get-remove (ground (arith, eq_iff a b, h.keyed b));
          status_index = λ b st. simp get-remove (
              ground (
                arith,
                eq_iff a b,
                h.status_index b st,
                member-discard a b (s.by_status e.status),
              ));
          condition_index = λ b d. simp get-remove (
              ground (
                arith,
                eq_iff a b,
                h.condition_index b d,
                member-discard_at s.by_condition e.condition_id d a b,
              ));
          connection_index = λ b d. simp get-remove (
              ground (
                arith,
                eq_iff a b,
                h.connection_index b d,
                member-discard_connection s.by_connection e.connection_id d a b,
              ));
          expiration_index = λ b u.
              simp (get-remove, member-unindex_expiration)
                (ground (arith, eq_iff a b, h.expiration_index b u));
          buckets_filled = λ u.
              unindex_expiration_filled S a e.expiration_ts u s.by_expiration (h.buckets_filled u);
          queue_distinct =
              if-elim Distinct (member a s.pending_queue)
                (λ _. Distinct-remove_first a s.pending_queue h.queue_distinct)
                (λ _. h.queue_distinct);
          queue_waiting = λ b. simp get-remove (
              ground (
                arith,
                eq_iff a b,
                h.queue_waiting b,
                member-remove_first a b s.pending_queue h.queue_distinct,
              ));
        })
