-- ===== src/Registry/Outcomes/Reassigning.antt =====
-- The entries and the queue that `reassign_connection`, `remove_connection` and `mark_subscribed` leave
-- (src/registry/asset_registry.py).
use polypy.Prelude.{
  ℕ, ◌+◌, ◌≤◌, String, ◌≡◌, refl, true, Option, none, some, List, [], ◌∷◌, ◌==◌, length, eq_iff,
  arith, Option-cases, inl, inr, if◌then◌else◌,
}
use polypy.Prelude.Ids.{member, discard, remove_first}
use polypy.Prelude.Dict.{get, has, get-put}
use polypy.SortedDict.{SortedDict}
use polypy.Registry.{AssetRegistry}
use polypy.Registry.Entry.{AssetEntry, names, set_at}
use polypy.Registry.Updates.{
  ensure, for_each, subscribe_one, mark_subscribed, move_entry, move_one, move_each,
  reassign_connection, remove_connection,
}
use polypy.Registry.Coherence.{IsCoherent}
use polypy.Registry.Coherence.Moving.{ensure-IsCoherent}
use polypy.Registry.Coherence.Reassigning.{move_one-Moved, ensure_listed, orphan, get-orphan_each}

-- the entry after `reassign_connection`
abbrev pub reassigned_entry : String → String → Option AssetEntry → Option AssetEntry
reassigned_entry old new none = none
reassigned_entry old new (some e) =
    some (if names old e.connection_id then record e { connection_id = some new } else e)

module _ (S : SortedDict) (old new : String) where
  -- in a coherent registry the keys that `move_entry` reads are there
  get-move_entry :
      (a b : String) (e : AssetEntry) (s : AssetRegistry S)
      → IsCoherent S s
      → has s.by_connection new ≡ true
      → get s.assets a ≡ some e
      → names old e.connection_id ≡ true
      → get (move_entry S old new a e s).0.assets b
        ≡ (if a == b then reassigned_entry old new (get s.assets b) else get s.assets b)
  unfolding move_entry member
  get-move_entry a b e s h there known named = ground (
    arith,
    eq_iff a b,
    h.connection_index a old,
    get-put s.assets a b (record e { connection_id = some new }),
    get-put s.by_connection old new (discard a (set_at s.by_connection old)),
  )

  get-move_one :
      (a b : String) (s : AssetRegistry S)
      → IsCoherent S s
      → has s.by_connection new ≡ true
      → get (move_one S old new a s).0.assets b
        ≡ (if a == b then reassigned_entry old new (get s.assets b) else get s.assets b)
  unfolding move_one
  get-move_one a b s h there = elim (Option-cases (get s.assets a)) [
    | inl e ↦ ground (arith, e, eq_iff a b)
    | inr (x, e) ↦ ground (arith, e, eq_iff a b, get-move_entry a b x s h there e)
  ]

  reassigned_twice :
      (o : Option AssetEntry)
      → reassigned_entry old new (reassigned_entry old new o) ≡ reassigned_entry old new o
  reassigned_twice o = ground (arith, eq_iff new old)

  get-move_each :
      (ids : List String) (b : String) (s : AssetRegistry S) (count : ℕ)
      → IsCoherent S s
      → has s.by_connection new ≡ true
      → get (move_each S old new ids s count).0.assets b
        ≡ (if member b ids then reassigned_entry old new (get s.assets b) else get s.assets b)
  unfolding move_each member
  get-move_each [] b s count h there = refl
  get-move_each (a ∷ ids) b s count h there =
      let m = move_one-Moved S old new a s h there in
      let (moved?, e) = m.counted in
      rw (e, move_each)
        (ground (
          arith,
          get-move_each ids b (move_one S old new a s).0 (if moved? then count + 1 else count)
              m.coherent m.keeps_new,
          get-move_one a b s h there,
          reassigned_twice (get s.assets b),
        ))

  -- In a coherent registry `reassign_connection` moves exactly the listed assets that are on the old
  -- connection, and changes nothing else of any entry.
  pub reassign_connection-entries :
      (ids : List String) (b : String) (s : AssetRegistry S)
      → IsCoherent S s
      → get (reassign_connection S ids old new s).0.assets b
        ≡ (if member b ids then reassigned_entry old new (get s.assets b) else get s.assets b)
  unfolding reassign_connection
  reassign_connection-entries ids b s h =
      get-move_each ids b (record s { by_connection = ensure s.by_connection new }) 0
        (ensure-IsCoherent S new s h) (ensure_listed S old new s.by_connection)

module _ (S : SortedDict) (conn b : String) where
  -- In a coherent registry `remove_connection` leaves no connection to every asset that is on it, and
  -- changes nothing else of any entry.
  pub remove_connection-entries :
      (s : AssetRegistry S)
      → IsCoherent S s
      → get (remove_connection S conn s).0.assets b ≡ orphan conn (get s.assets b)
  unfolding remove_connection orphan
  remove_connection-entries s h = ground (
    arith,
    h.connection_index b conn,
    get-orphan_each conn b (set_at s.by_connection conn) s.assets,
  )

shorter-remove_first : (a : String) (xs : List String) → length (remove_first a xs) ≤ length xs
unfolding remove_first
shorter-remove_first a [] = omega arith
shorter-remove_first a (x ∷ xs) = ground (arith, shorter-remove_first a xs)

module _ (S : SortedDict) (now : ℕ) (conn : String) where
  queue-subscribe_one :
      (a : String) (s : AssetRegistry S)
      → length (subscribe_one S now conn a s).0.pending_queue ≤ length s.pending_queue
  unfolding subscribe_one
  queue-subscribe_one a s = ground (arith, shorter-remove_first a s.pending_queue)

  queue-subscribe_each :
      (ids : List String) (s : AssetRegistry S) (count : ℕ)
      → length (for_each S (subscribe_one S now conn) ids s count).0.pending_queue
        ≤ length s.pending_queue
  unfolding for_each
  queue-subscribe_each [] s count = omega arith
  queue-subscribe_each (a ∷ ids) s count = omega (
    arith,
    queue-subscribe_one a s,
    queue-subscribe_each ids (subscribe_one S now conn a s).0
        (if (subscribe_one S now conn a s).1 then count + 1 else count),
  )

  -- `mark_subscribed` never lengthens the queue
  pub queue-mark_subscribed :
      (ids : List String) (s : AssetRegistry S)
      → length (mark_subscribed S now ids conn s).0.pending_queue ≤ length s.pending_queue
  unfolding mark_subscribed
  queue-mark_subscribed ids s =
      queue-subscribe_each ids (record s { by_connection = ensure s.by_connection conn }) 0
