-- ===== src/Registry/Coherence/Moving.antt =====
-- `mark_subscribed`, `mark_expired`, `take_pending_batch`, `reassign_connection` and
-- `remove_connection` (src/registry/asset_registry.py) keep the registry coherent.
use polypy.Prelude.{
  ℕ, String, ◌≡◌, Bool, some, List, [], ◌∷◌, eq_iff, arith, if-elim, Option-elim, if◌then◌else◌,
  ◌+◌, ◌-◌, suc, drop, length,
}
use polypy.Prelude.Int.{ℤ, pos, negsuc, ltb_ℤ}
use polypy.Prelude.Ids.{
  member, member-add, Distinct, add, member-remove_first, Distinct-remove_first, Distinct-drop,
  member-drop,
}
use polypy.Prelude.Dict.{get, get-put}
use polypy.SortedDict.{SortedDict}
use polypy.Registry.{AssetRegistry}
use polypy.Registry.Entry.{AssetEntry, expired, status_eq, set_at}
use polypy.Prelude.Slices.{slice_from}
use polypy.Registry.Indices.{set_at-put, set_at-ensure, member-move_status}
use polypy.Registry.Updates.{
  take_pending_batch, ensure, for_each, subscribe_entry, subscribe_one, mark_subscribed,
  expire_entry, expire_one, mark_expired,
}
use polypy.Registry.Coherence.{IsCoherent}

module _ (S : SortedDict) where
  pub for_each-IsCoherent :
      (step : String → AssetRegistry S → AssetRegistry S × Bool)
      → ((a : String) (s : AssetRegistry S) → IsCoherent S s → IsCoherent S (step a s).0)
      → (ids : List String) (s : AssetRegistry S) (count : ℕ) → IsCoherent S s
      → IsCoherent S (for_each S step ids s count).0
  unfolding for_each
  for_each-IsCoherent step keep [] s count h = h
  for_each-IsCoherent step keep (a ∷ ids) s count h =
      for_each-IsCoherent step keep ids (step a s).0 (if (step a s).1 then count + 1 else count)
        (keep a s h)

  pub ensure-IsCoherent :
      (c : String) (s : AssetRegistry S)
      → IsCoherent S s
      → IsCoherent S (record s { by_connection = ensure s.by_connection c })
  ensure-IsCoherent c s h = record {
    keyed = h.keyed;
    status_index = h.status_index;
    condition_index = h.condition_index;
    connection_index = λ a d p. rw set_at-ensure (h.connection_index a d p);
    expiration_index = h.expiration_index;
    buckets_filled = h.buckets_filled;
    queue_distinct = h.queue_distinct;
    queue_waiting = h.queue_waiting;
  }

  module _ (s : AssetRegistry S) (h : IsCoherent S s) (a : String) (e : AssetEntry)
      (known : get s.assets a ≡ some e) where
    subscribe_entry-IsCoherent :
        (now : ℕ) (conn : String) → IsCoherent S (subscribe_entry S now conn a e s)
    unfolding subscribe_entry
    subscribe_entry-IsCoherent now conn = record {
      keyed = λ b. simp get-put (ground (arith, eq_iff a b, h.keyed b));
      status_index = λ b st.
          simp (get-put, member-move_status) (ground (arith, eq_iff a b, h.status_index b st));
      condition_index = λ b d. simp get-put (ground (arith, eq_iff a b, h.condition_index b d));
      connection_index = λ b d. simp get-put (
          ground (
            arith,
            eq_iff a b,
            eq_iff conn d,
            h.connection_index b d,
            set_at-put s.by_connection conn d (add a (set_at s.by_connection conn)),
            member-add a b (set_at s.by_connection conn),
          ));
      expiration_index = λ b u. simp get-put (ground (arith, eq_iff a b, h.expiration_index b u));
      buckets_filled = h.buckets_filled;
      queue_distinct =
          if-elim Distinct (member a s.pending_queue)
            (λ _. Distinct-remove_first a s.pending_queue h.queue_distinct) (λ _. h.queue_distinct);
      queue_waiting = λ b. simp get-put (
          ground (
            arith,
            eq_iff a b,
            h.queue_waiting b,
            member-remove_first a b s.pending_queue h.queue_distinct,
          ));
    }

    expire_entry-IsCoherent : IsCoherent S (expire_entry S a e s).0
    unfolding expire_entry
    expire_entry-IsCoherent =
        if-elim (λ (r : AssetRegistry S × Bool). IsCoherent S r.0) (status_eq e.status expired)
          (λ _. h)
          (λ live. record {
            keyed = λ b. simp get-put (ground (arith, eq_iff a b, h.keyed b));
            status_index = λ b st.
                simp (get-put, member-move_status)
                  (ground (arith, eq_iff a b, h.status_index b st));
            condition_index =
                λ b d. simp get-put (ground (arith, eq_iff a b, h.condition_index b d));
            connection_index =
                λ b d. simp get-put (ground (arith, eq_iff a b, h.connection_index b d));
            expiration_index =
                λ b u. simp get-put (ground (arith, eq_iff a b, h.expiration_index b u));
            buckets_filled = h.buckets_filled;
            queue_distinct = h.queue_distinct;
            queue_waiting = λ b. simp get-put (ground (arith, eq_iff a b, h.queue_waiting b));
          })

  pub mark_subscribed-IsCoherent :
      (now : ℕ) (ids : List String) (conn : String) (s : AssetRegistry S)
      → IsCoherent S s
      → IsCoherent S (mark_subscribed S now ids conn s).0
  unfolding mark_subscribed
  mark_subscribed-IsCoherent now ids conn s h =
      for_each-IsCoherent (subscribe_one S now conn)
        (λ a r k.
          Option-elim (λ (x : AssetRegistry S × Bool). IsCoherent S x.0) (get r.assets a) (λ _. k)
            (λ e known. subscribe_entry-IsCoherent r k a e known now conn))
        ids (record s { by_connection = ensure s.by_connection conn }) 0
        (ensure-IsCoherent conn s h)

  pub mark_expired-IsCoherent :
      (ids : List String) (s : AssetRegistry S)
      → IsCoherent S s
      → IsCoherent S (mark_expired S ids s).0
  unfolding mark_expired
  mark_expired-IsCoherent ids s h =
      for_each-IsCoherent (expire_one S)
        (λ a r k.
          Option-elim (λ (x : AssetRegistry S × Bool). IsCoherent S x.0) (get r.assets a) (λ _. k)
            (λ e known. expire_entry-IsCoherent r k a e known))
        ids s 0 h

  drop_queue-IsCoherent :
      (n : ℕ) (s : AssetRegistry S)
      → IsCoherent S s
      → IsCoherent S (record s { pending_queue = drop n s.pending_queue })
  drop_queue-IsCoherent n s h = record {
    keyed = h.keyed;
    status_index = h.status_index;
    condition_index = h.condition_index;
    connection_index = h.connection_index;
    expiration_index = h.expiration_index;
    buckets_filled = h.buckets_filled;
    queue_distinct = Distinct-drop n s.pending_queue h.queue_distinct;
    queue_waiting = λ a m. h.queue_waiting a (member-drop a n s.pending_queue m);
  }

  pub take_pending_batch-IsCoherent :
      (max_size : ℤ) (s : AssetRegistry S)
      → IsCoherent S s
      → IsCoherent S (take_pending_batch S max_size s).0
  unfolding take_pending_batch
  take_pending_batch-IsCoherent max_size s h =
      sliced (if ltb_ℤ (pos 400) max_size then pos 400 else max_size)
    where
      sliced : (n : ℤ) → IsCoherent S (record s { pending_queue = slice_from s.pending_queue n })
      sliced (pos n) = drop_queue-IsCoherent n s h
      sliced (negsuc n) = drop_queue-IsCoherent (length s.pending_queue - suc n) s h
