-- ===== src/Pool/Renewal.antt =====
-- What the pool's own recycling (`_initiate_recycling` of src/connection/pool.py) does to the assets.
use polypy.Prelude.{
  ℕ, ◌≤◌, ◌≢◌, String, ◌≡◌, refl, ◌∙◌, Bool, true, Option, none, length, arith, eqb, eq_iff,
  eq_self, if-elim, Option-elim, if◌then◌else◌,
}
use polypy.Prelude.Ids.{IdSet, member}
use polypy.Prelude.Dict.{Dict, get, put, has, get-put, get-remove, has-put_self}
use polypy.SortedDict.{SortedDict}
use polypy.Registry.{AssetRegistry}
use polypy.Registry.Entry.{AssetEntry}
use polypy.Registry.Queries.{get_active_by_connection}
use polypy.Registry.Updates
use polypy.Registry.Updates.{Result, ok, key_error}
use polypy.Registry.Coherence.{IsCoherent}
use polypy.Registry.Coherence.Reassigning.{
  orphan, reassign_connection-IsCoherent, remove_connection-IsCoherent,
}
use polypy.Registry.Outcomes.Reassigning.{
  reassigned_entry, reassign_connection-entries, remove_connection-entries,
}
use polypy.Connection.{WebsocketConnection, init}
use polypy.Pool.{ConnectionInfo, ConnectionPool, remove_connection}
use polypy.Pool.Migration.{member_empty}
use polypy.Pool.Upkeep.{drain, admit, retire, initiate_recycling}

-- the entry after an asset's connection has been replaced: moved if the asset was active, else without
-- a connection
abbrev pub renewed_entry : String → String → Bool → Option AssetEntry → Option AssetEntry
renewed_entry old new active o = if active then reassigned_entry old new o else orphan old o

orphan-reassigned :
    (old new : String) (o : Option AssetEntry)
    → old ≢ new
    → orphan old (reassigned_entry old new o) ≡ reassigned_entry old new o
unfolding orphan
orphan-reassigned old new o ne = ground (arith, ne, eq_iff new old)

has-put :
    {V : Type 0} (d : Dict V) (k j : String) (v : V) → has d k ≡ true → has (put d j v) k ≡ true
has-put d k j v h = ground (arith, h, get-put d j k v)

module _ (S : SortedDict) where
  -- a pool from which a connection has been taken, in terms of the registry before
  pub record Renewed (old new : String) (ids : IdSet) (before : AssetRegistry S)
      (x : ConnectionPool S × Bool) : Type 0 where
    pub done : x.1 ≡ true
    pub gone : get x.0.connections old ≡ none
    pub coherent : IsCoherent S x.0.registry
    pub entries :
        (b : String)
        → get x.0.registry.assets b ≡ renewed_entry old new (member b ids) (get before.assets b)

  remove_connection-Renewed :
      (old new : String) (ids : IdSet) (before : AssetRegistry S) (p : ConnectionPool S)
      → old ≢ new
      → has p.connections old ≡ true
      → IsCoherent S p.registry
      → ((b : String)
          → get p.registry.assets b ≡ (
              if member b ids
              then reassigned_entry old new (get before.assets b)
              else get before.assets b))
      → Renewed old new ids before (remove_connection S old p, true)
  unfolding remove_connection
  remove_connection-Renewed old new ids before p ne there h e =
      Option-elim (λ (q : ConnectionPool S). Renewed old new ids before (q, true))
        (get p.connections old) (λ missing. absurd (ground (arith, missing, there)))
        (λ info _. record {
          done = refl;
          gone = ground (arith, get-remove p.connections old old, eq_self old);
          coherent = remove_connection-IsCoherent S old p.registry h;
          entries = λ b. ground (
            arith,
            remove_connection-entries S old b p.registry h,
            e b,
            orphan-reassigned old new (get before.assets b) ne,
          );
        })

  retire-Renewed :
      (old new : String) (ids : IdSet) (before : AssetRegistry S) (p : ConnectionPool S)
      → old ≢ new
      → has p.connections old ≡ true
      → IsCoherent S before
      → p.registry ≡ before
      → Renewed old new ids before
          (retire S old p (Updates.reassign_connection S ids old new p.registry))
  unfolding retire
  retire-Renewed old new ids before p ne there h kept =
      let now_coherent : IsCoherent S p.registry = rw kept h in
      let (coherent, (n, counted)) =
        reassign_connection-IsCoherent S old new ids p.registry now_coherent in
      let r = (Updates.reassign_connection S ids old new p.registry).0 in
      rw (counted, retire)
        (remove_connection-Renewed old new ids before (record p { registry = r }) ne there coherent
          (λ b. rw (← kept) (reassign_connection-entries S old new ids b p.registry now_coherent)))

  -- a connection that is drained or let in beside another is still there
  there-admit :
      (now : ℕ) (old new : String) (info : ConnectionInfo) (c : WebsocketConnection)
      (p : ConnectionPool S)
      → has (admit S now new c (drain S old info p)).connections old ≡ true
  unfolding admit drain
  there-admit now old new info c p =
      has-put (drain S old info p).connections old new _ (has-put_self p.connections old _)

  -- The pool's own recycling, over a coherent registry, of a connection that the pool has and that has at
  -- most 500 active assets, onto one of another identifier, while the other tasks change neither the
  -- registry nor whether the pool has the connection: it succeeds and takes the connection out of the
  -- pool; the registry stays coherent; each active asset that is on the connection moves to the new
  -- one and keeps the rest of its entry, every other asset that is on it is left without a connection, and
  -- no other entry changes.
  pub initiate_recycling-Renewed :
      (meanwhile : ConnectionPool S → ConnectionPool S) (now : ℕ) (new old : String)
      (p : ConnectionPool S)
      → IsCoherent S p.registry
      → old ≢ new
      → has p.connections old ≡ true
      → length (get_active_by_connection S p.registry old) ≤ 500
      → ((q : ConnectionPool S) → (meanwhile q).registry ≡ q.registry)
      → ((q : ConnectionPool S) → has (meanwhile q).connections old ≡ has q.connections old)
      → Renewed old new
          (get_active_by_connection S p.registry old)
          p.registry
          (initiate_recycling S meanwhile now new old p)
  unfolding initiate_recycling
  initiate_recycling-Renewed meanwhile now new old p h ne there few same still =
      let ids = get_active_by_connection S p.registry old in
      let P : ConnectionPool S × Bool → Type 0 = Renewed old new ids p.registry in
      Option-elim P (get p.connections old) (λ missing. absurd (ground (arith, missing, there)))
        (λ info _.
          let draining = drain S old info p in
          if-elim P (eqb (length ids) 0)
            (λ empty.
              remove_connection-Renewed old new ids p.registry draining ne
                (unfold drain in has-put_self p.connections old _) h
                (λ b. ground (arith, member_empty b ids empty)))
            (λ _.
              Option-elim P (init now new ids)
                (λ full. absurd (unfold init in ground (arith, full, few)))
                (λ c _.
                  let waited = meanwhile (admit S now new c draining) in
                  retire-Renewed old new ids p.registry waited ne
                    (still (admit S now new c draining) ∙ there-admit now old new info c p) h
                    (same (admit S now new c draining)))))
