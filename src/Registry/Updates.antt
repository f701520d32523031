-- ===== src/Registry/Updates.antt =====
-- The operations that change the registry (src/registry/asset_registry.py). Each runs under the
-- registry's lock and awaits nothing while it holds it, so it is one step; `add_asset` alone reads
-- before it has the lock. A loop over entries is a recursion on the list.
use polypy.Prelude.{
  ℕ, ◌+◌, String, Bool, true, false, Option, none, some, List, [], ◌∷◌, ◌++◌, ◌==◌, if◌then◌else◌,
}
use polypy.Prelude.Int.{ℤ, pos, ltb_ℤ}
use polypy.Prelude.Ids.{IdSet, member, add, discard, remove_first}
use polypy.Prelude.Dict.{Dict, get, put, remove, has}
use polypy.SortedDict
use polypy.SortedDict.{SortedDict}
use polypy.Registry.{AssetRegistry, with_status, move_status}
use polypy.Registry.Entry.{AssetEntry, pending, subscribed, expired, status_eq, names, set_at}
use polypy.Prelude.Slices.{slice_to, slice_from}
use polypy.Registry.Queries.{expiring_at}

pub data Result (A : Type 0) : Type 0 where
  ok : A → Result A
  key_error : Result A

-- if k not in d: d[k] = set()
unfoldable pub ensure : Dict IdSet → String → Dict IdSet
ensure d k = if has d k then d else put d k []

-- entry.connection_id = None, if the entry still names the connection
unfoldable pub orphan_one : String → String → Dict AssetEntry → Dict AssetEntry
orphan_one conn a d = elim (get d a) [
  | none ↦ d
  | some e ↦ if names conn e.connection_id then put d a (record e { connection_id = none }) else d
]

unfoldable pub orphan_each : String → List String → Dict AssetEntry → Dict AssetEntry
unfolding orphan_one
orphan_each conn [] d = d
orphan_each conn (a ∷ ids) d = orphan_each conn ids (orphan_one conn a d)

-- d.get(k, set()).discard(a): nothing happens where k is missing
unfoldable pub discard_at : Dict IdSet → String → String → Dict IdSet
discard_at d k a = elim (get d k) [ none ↦ d | some ids ↦ put d k (discard a ids) ]

-- `if entry.connection_id` is false of None and of the empty text
unfoldable pub discard_connection : Dict IdSet → Option String → String → Dict IdSet
unfolding discard_at
discard_connection d none a = d
discard_connection d (some c) a = if c == "" then d else discard_at d c a

module _ (S : SortedDict) where
  -- for a in ids: ...; the count of the rounds that were not skipped
  unfoldable pub for_each :
      (String → AssetRegistry S → AssetRegistry S × Bool)
      → List String
      → AssetRegistry S
      → ℕ
      → AssetRegistry S × ℕ
  for_each step [] s count = (s, count)
  for_each step (a ∷ ids) s count =
      let (s', done) = step a s in for_each step ids s' (if done then count + 1 else count)

  unfoldable pub index_expiration : String → ℤ → S.Map IdSet → S.Map IdSet
  index_expiration a t m = if ltb_ℤ (pos 0) t then S.set_item m t (add a (expiring_at S m t)) else m

  -- what `add_asset` writes
  unfoldable pub insert_asset : ℕ → String → String → ℤ → AssetRegistry S → AssetRegistry S
  unfolding index_expiration
  insert_asset now a c t s = record s {
    assets = put s.assets a (record {
      asset_id = a;
      condition_id = c;
      status = pending;
      connection_id = none;
      expiration_ts = t;
      subscribed_at = 0;
      created_at = now;
    });
    by_condition = put s.by_condition c (add a (set_at s.by_condition c));
    by_status = with_status s.by_status pending (add a (s.by_status pending));
    by_expiration = index_expiration a t s.by_expiration;
    pending_queue = s.pending_queue ++ a ∷ [];
  }

  -- what `add_asset` does under the lock
  unfoldable pub add_asset_locked :
      ℕ → String → String → ℤ → AssetRegistry S → AssetRegistry S × Bool
  unfolding insert_asset
  add_asset_locked now a c t s =
      if has s.assets a then (s, false) else (insert_asset now a c t s, true)

  -- `waiting` is what the other tasks do to the registry until the lock is free.
  unfoldable pub add_asset :
      (AssetRegistry S → AssetRegistry S)
      → ℕ
      → String
      → String
      → ℤ
      → AssetRegistry S
      → AssetRegistry S × Bool
  unfolding add_asset_locked
  add_asset waiting now a c t s =
      if has s.assets a then (s, false) else add_asset_locked now a c t (waiting s)

  unfoldable pub subscribe_entry :
      ℕ → String → String → AssetEntry → AssetRegistry S → AssetRegistry S
  unfolding move_status
  subscribe_entry now conn a e s = record s {
    assets =
        put s.assets a
          (record e { status = subscribed; connection_id = some conn; subscribed_at = now });
    by_connection = put s.by_connection conn (add a (set_at s.by_connection conn));
    by_status = move_status a e.status subscribed s.by_status;
    pending_queue =
        if member a s.pending_queue then remove_first a s.pending_queue else s.pending_queue;
  }

  unfoldable pub subscribe_one : ℕ → String → String → AssetRegistry S → AssetRegistry S × Bool
  unfolding subscribe_entry
  subscribe_one now conn a s = elim (get s.assets a) [
    | none ↦ (s, false)
    | some e ↦ (subscribe_entry now conn a e s, true)
  ]

  unfoldable pub mark_subscribed : ℕ → List String → String → AssetRegistry S → AssetRegistry S × ℕ
  unfolding subscribe_one for_each ensure
  mark_subscribed now ids conn s =
      for_each (subscribe_one now conn) ids
        (record s { by_connection = ensure s.by_connection conn }) 0

  unfoldable pub expire_entry : String → AssetEntry → AssetRegistry S → AssetRegistry S × Bool
  unfolding move_status
  expire_entry a e s = if status_eq e.status expired then (s, false) else (
    record s {
      assets = put s.assets a (record e { status = expired });
      by_status = move_status a e.status expired s.by_status;
    },
    true,
  )

  unfoldable pub expire_one : String → AssetRegistry S → AssetRegistry S × Bool
  unfolding expire_entry
  expire_one a s = elim (get s.assets a) [ none ↦ (s, false) | some e ↦ expire_entry a e s ]

  unfoldable pub mark_expired : List String → AssetRegistry S → AssetRegistry S × ℕ
  unfolding expire_one for_each
  mark_expired ids s = for_each expire_one ids s 0

  -- max_size is capped at 400
  unfoldable pub take_pending_batch : ℤ → AssetRegistry S → AssetRegistry S × List String
  unfolding slice_to slice_from
  take_pending_batch max_size s =
      let n = if ltb_ℤ (pos 400) max_size then pos 400 else max_size in
      (record s { pending_queue = slice_from s.pending_queue n }, slice_to s.pending_queue n)

  -- the body of the loop for an entry that is on the old connection
  unfoldable pub move_entry :
      String → String → String → AssetEntry → AssetRegistry S → AssetRegistry S × Result Bool
  move_entry old new a e s = elim (get s.by_connection old) [
    | none ↦ (s, key_error)
    | some ids ↦
        let d = put s.by_connection old (discard a ids) in
        elim (get d new) [
          | none ↦ (record s { by_connection = d }, key_error)
          | some ids' ↦ (
            record s {
              by_connection = put d new (add a ids');
              assets = put s.assets a (record e { connection_id = some new });
            },
            ok true,
          )
        ]
  ]

  unfoldable pub move_one :
      String → String → String → AssetRegistry S → AssetRegistry S × Result Bool
  unfolding move_entry
  move_one old new a s = elim (get s.assets a) [
    | none ↦ (s, ok false)
    | some e ↦ if names old e.connection_id then move_entry old new a e s else (s, ok false)
  ]

  -- for a in ids: ...; a KeyError ends the loop and leaves what was written
  unfoldable pub move_each :
      String → String → List String → AssetRegistry S → ℕ → AssetRegistry S × Result ℕ
  unfolding move_one
  move_each old new [] s count = (s, ok count)
  move_each old new (a ∷ ids) s count =
      let (s', r) = move_one old new a s in
      elim r [
        | key_error ↦ (s', key_error)
        | ok moved ↦ move_each old new ids s' (if moved then count + 1 else count)
      ]

  unfoldable pub reassign_connection :
      List String → String → String → AssetRegistry S → AssetRegistry S × Result ℕ
  unfolding move_each ensure
  reassign_connection ids old new s =
      move_each old new ids (record s { by_connection = ensure s.by_connection new }) 0

  unfoldable pub remove_connection : String → AssetRegistry S → AssetRegistry S × IdSet
  unfolding orphan_each
  remove_connection conn s =
      let ids = set_at s.by_connection conn in
      (
        record s {
          by_connection = remove s.by_connection conn;
          assets = orphan_each conn ids s.assets;
        },
        ids,
      )

  -- the bucket of a time after a discard; an empty bucket is deleted
  unfoldable pub keep_bucket : S.Map IdSet → ℤ → IdSet → S.Map IdSet
  keep_bucket m t [] = S.pop m t
  keep_bucket m t (x ∷ xs) = S.set_item m t (x ∷ xs)

  unfoldable pub unindex_expiration : String → ℤ → S.Map IdSet → S.Map IdSet
  unfolding keep_bucket
  unindex_expiration a t m = elim (SortedDict.get S m t) [
    | none ↦ m
    | some ids ↦ keep_bucket m t (discard a ids)
  ]

  unfoldable pub remove_asset : String → AssetRegistry S → AssetRegistry S × Bool
  unfolding unindex_expiration discard_at discard_connection
  remove_asset a s = elim (get s.assets a) [
    | none ↦ (s, false)
    | some e ↦ (
      record s {
        assets = remove s.assets a;
        by_condition = discard_at s.by_condition e.condition_id a;
        by_connection = discard_connection s.by_connection e.connection_id a;
        by_status = with_status s.by_status e.status (discard a (s.by_status e.status));
        by_expiration = unindex_expiration a e.expiration_ts s.by_expiration;
        pending_queue =
            if member a s.pending_queue then remove_first a s.pending_queue else s.pending_queue;
      },
      true,
    )
  ]
