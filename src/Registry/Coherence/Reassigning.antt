-- ===== src/Registry/Coherence/Reassigning.antt =====
-- `reassign_connection` and `remove_connection` (src/registry/asset_registry.py) keep the registry
-- coherent, and a coherent registry has every key that `reassign_connection` reads.
use polypy.Prelude.{
  ℕ, String, ◌≡◌, Bool, true, false, Option, none, some, List, [], ◌∷◌, ◌==◌, eq_iff, arith,
  if-elim, Option-elim, Option-cases, inl, inr, if◌then◌else◌, ◌+◌, refl,
}
use polypy.Prelude.Ids.{member, member-add, member-discard, IdSet, add, discard}
use polypy.Prelude.Dict.{Dict, get, put, has, get-put}
use polypy.SortedDict.{SortedDict}
use polypy.Registry.{AssetRegistry}
use polypy.Registry.Entry.{AssetEntry, holds, names, set_at}
use polypy.Registry.Indices.{set_at-remove}
use polypy.Registry.Updates.{
  Result, ok, ensure, move_entry, move_one, move_each, reassign_connection, orphan_one, orphan_each,
  remove_connection,
}
use polypy.Registry.Coherence.{IsCoherent}
use polypy.Registry.Coherence.Moving.{ensure-IsCoherent}

-- what the loop of `reassign_connection` leaves: a coherent registry, the new connection's key, and a
-- count
pub record Moved (S : SortedDict) {A : Type 0} (new : String) (r : AssetRegistry S × Result A)
    : Type 0 where
  pub coherent : IsCoherent S r.0
  pub keeps_new : has r.0.by_connection new ≡ true
  pub counted : (n : A) × (r.1 ≡ ok n)

module _ (S : SortedDict) (old new : String) where
  module _ (s : AssetRegistry S) (h : IsCoherent S s) (a : String) (e : AssetEntry)
      (known : get s.assets a ≡ some e) (there : has s.by_connection new ≡ true)
      (named : names old e.connection_id ≡ true) where
    abbrev moved : IdSet → IdSet → AssetRegistry S
    moved ids ids' = record s {
      by_connection = put (put s.by_connection old (discard a ids)) new (add a ids');
      assets = put s.assets a (record e { connection_id = some new });
    }

    moved-IsCoherent :
        (ids ids' : IdSet)
        → get s.by_connection old ≡ some ids
        → get (put s.by_connection old (discard a ids)) new ≡ some ids'
        → IsCoherent S (moved ids ids')
    moved-IsCoherent ids ids' p q = record {
      keyed = λ b. simp get-put (ground (arith, eq_iff a b, h.keyed b));
      status_index = λ b st. simp get-put (ground (arith, eq_iff a b, h.status_index b st));
      condition_index = λ b d. simp get-put (ground (arith, eq_iff a b, h.condition_index b d));
      connection_index = λ b d. simp get-put (
          ground (
            arith,
            eq_iff a b,
            eq_iff new d,
            eq_iff old d,
            eq_iff old new,
            h.connection_index b d,
            get-put s.by_connection old new (discard a ids),
            get-put s.by_connection old d (discard a ids),
            get-put (put s.by_connection old (discard a ids)) new d (add a ids'),
            member-add a b ids',
            member-discard a b ids,
          ));
      expiration_index = λ b u. simp get-put (ground (arith, eq_iff a b, h.expiration_index b u));
      buckets_filled = h.buckets_filled;
      queue_distinct = h.queue_distinct;
      queue_waiting = λ b. simp get-put (ground (arith, eq_iff a b, h.queue_waiting b));
    }

    old_listed : has s.by_connection old ≡ true
    unfolding member
    old_listed = ground (arith, h.connection_index a old)

    move_entry-Moved : Moved S new (move_entry S old new a e s)
    unfolding move_entry
    move_entry-Moved =
        Option-elim (λ (r : AssetRegistry S × Result Bool). Moved S new r) (get s.by_connection old)
          (λ p. absurd (ground (arith, old_listed)))
          (λ ids p.
            Option-elim (λ (r : AssetRegistry S × Result Bool). Moved S new r)
              (get (put s.by_connection old (discard a ids)) new)
              (λ q. absurd (ground (arith, get-put s.by_connection old new (discard a ids))))
              (λ ids' q. record {
                coherent = moved-IsCoherent ids ids' p q;
                keeps_new = ground (
                  arith,
                  get-put (put s.by_connection old (discard a ids)) new new (add a ids'),
                  eq_iff new new,
                );
                counted = (true, refl);
              }))

  pub move_one-Moved :
      (a : String) (s : AssetRegistry S)
      → IsCoherent S s
      → has s.by_connection new ≡ true
      → Moved S new (move_one S old new a s)
  unfolding move_one
  move_one-Moved a s h there =
      let still : Moved S new (s, ok false) = record {
        coherent = h;
        keeps_new = there;
        counted = (false, refl);
      } in
      Option-elim (λ (r : AssetRegistry S × Result Bool). Moved S new r) (get s.assets a)
        (λ _. still)
        (λ e known.
          if-elim (λ (r : AssetRegistry S × Result Bool). Moved S new r) (names old e.connection_id)
            (λ named. move_entry-Moved s h a e known there named) (λ _. still))

  move_each-Moved :
      (ids : List String) (s : AssetRegistry S) (count : ℕ)
      → IsCoherent S s
      → has s.by_connection new ≡ true
      → Moved S new (move_each S old new ids s count)
  unfolding move_each
  move_each-Moved [] s count h there = record {
    coherent = h;
    keeps_new = there;
    counted = (count, refl);
  }
  move_each-Moved (a ∷ ids) s count h there =
      let m = move_one-Moved a s h there in
      let (moved?, e) = m.counted in
      rw (e, move_each)
        (move_each-Moved ids (move_one S old new a s).0 (if moved? then count + 1 else count)
          m.coherent m.keeps_new)

  pub ensure_listed : (d : Dict IdSet) → has (ensure d new) new ≡ true
  unfolding ensure
  ensure_listed d = ground (arith, get-put d new new [], eq_iff new new)

  -- From a coherent registry `reassign_connection` raises no KeyError, and keeps it coherent.
  pub reassign_connection-IsCoherent :
      (ids : List String) (s : AssetRegistry S)
      → IsCoherent S s
      → IsCoherent S (reassign_connection S ids old new s).0
        × ((n : ℕ) × ((reassign_connection S ids old new s).1 ≡ ok n))
  unfolding reassign_connection
  reassign_connection-IsCoherent ids s h =
      let m =
        move_each-Moved ids (record s { by_connection = ensure s.by_connection new }) 0
          (ensure-IsCoherent S new s h) (ensure_listed s.by_connection) in
      (m.coherent, m.counted)

-- the entry that `remove_connection` leaves
unfoldable pub orphan : String → Option AssetEntry → Option AssetEntry
orphan conn none = none
orphan conn (some e) =
    some (if names conn e.connection_id then record e { connection_id = none } else e)

get-orphan_one :
    (conn a b : String) (d : Dict AssetEntry)
    → get (orphan_one conn a d) b ≡ (if a == b then orphan conn (get d b) else get d b)
unfolding orphan_one orphan
get-orphan_one conn a b d = elim (Option-cases (get d a)) [
  | inl e ↦ ground (arith, e, eq_iff a b)
  | inr (x, e) ↦ ground (arith, e, eq_iff a b, get-put d a b (record x { connection_id = none }))
]

orphan-orphan :
    (conn : String) (o : Option AssetEntry) → orphan conn (orphan conn o) ≡ orphan conn o
unfolding orphan
orphan-orphan conn o = ground arith

pub get-orphan_each :
    (conn b : String) (ids : List String) (d : Dict AssetEntry)
    → get (orphan_each conn ids d) b ≡ (if member b ids then orphan conn (get d b) else get d b)
unfolding orphan_each member
get-orphan_each conn b [] d = refl
get-orphan_each conn b (a ∷ ids) d = ground (
  arith,
  get-orphan_each conn b ids (orphan_one conn a d),
  get-orphan_one conn a b d,
  orphan-orphan conn (get d b),
)

module _ (S : SortedDict) (conn : String) (s : AssetRegistry S) (h : IsCoherent S s) where
  pub remove_connection-IsCoherent : IsCoherent S (remove_connection S conn s).0
  unfolding remove_connection orphan
  remove_connection-IsCoherent =
      let ids = set_at s.by_connection conn in
      record {
        keyed = λ b. simp get-orphan_each (ground (arith, h.keyed b));
        status_index = λ b st. simp get-orphan_each (ground (arith, h.status_index b st));
        condition_index = λ b d. simp get-orphan_each (ground (arith, h.condition_index b d));
        connection_index = λ b d. simp get-orphan_each (
            ground
              (arith, eq_iff conn d, set_at-remove s.by_connection conn d, h.connection_index b d));
        expiration_index = λ b u. simp get-orphan_each (ground (arith, h.expiration_index b u));
        buckets_filled = h.buckets_filled;
        queue_distinct = h.queue_distinct;
        queue_waiting = λ b. simp get-orphan_each (ground (arith, h.queue_waiting b));
      }

  -- No entry names a removed connection.
  pub remove_connection_orphans :
      (b : String)
      → holds (λ e. names conn e.connection_id) (get (remove_connection S conn s).0.assets b)
        ≡ false
  unfolding remove_connection orphan
  remove_connection_orphans b = simp get-orphan_each (ground (arith, h.connection_index b conn))
