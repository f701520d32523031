-- ===== src/Pool/Migration.antt =====
-- What a recycle does to the assets (src/lifecycle/recycler.py).
use polypy.Prelude.{
  ℕ, ◌+◌, ◌≤◌, ◌-◌, String, ◌≡◌, ◌≢◌, refl, sym, ap, ◌∙◌, Bool, true, Option, none, some, List, [],
  ◌∷◌, length, arith, eqb, if-elim, Option-elim, eq_iff,
}
use polypy.Prelude.Ids.{IdSet, member, add}
use polypy.Prelude.Dict.{get}
use polypy.SortedDict.{SortedDict}
use polypy.Registry.{AssetRegistry}
use polypy.Registry.Entry.{AssetEntry, set_at}
use polypy.Registry.Coherence.Reassigning.{orphan, get-orphan_each}
use polypy.Registry.Queries.{get_active_by_connection}
use polypy.Registry.Updates
use polypy.Registry.Updates.{Result, ok, key_error}
use polypy.Registry.Outcomes.Marking.{
  subscribed_entry, mark_subscribed-entries, reassign_after_mark_subscribed,
}
use polypy.Pool.{
  ConnectionPool, open_connection, force_subscribe, get_connection_stats, remove_connection,
}
use polypy.Pool.Recycler.{
  ConnectionRecycler, found_healthy, fail, complete, conclude, migrate, replace_connection,
  recycle_connection,
}
use polypy.Pool.Subscribing.{Opened, open_connection_lem}

pub member_empty : (b : String) (ids : IdSet) → eqb (length ids) 0 ≡ true → member b ids ≡ true → ⊥
unfolding member
member_empty b [] e m = cc
member_empty b (x ∷ ids) e m = ground (arith, e)

module _ (S : SortedDict) where
  force_subscribe-Opened :
      (now : ℕ) (id : String) (ids : List String) (p p' : ConnectionPool S)
      → force_subscribe S now id ids p ≡ some p'
      → Opened S now id ids p p'
  unfolding force_subscribe
  force_subscribe-Opened now id ids p p' e =
      let h : length ids ≤ 500 = ground (arith, e) in
      let opens : open_connection S now id ids p ≡ some p' = ground (arith, e) in
      let (q, eq, opened) = open_connection_lem S now id ids p h in
      let same : q ≡ p' = cc in rw (sym same) opened

  migrated-migrate :
      (old new : String) (ids : List String) (duration : ℕ) (r : ConnectionRecycler S)
      → (Updates.reassign_connection S ids old new r.pool.registry).1 ≡ ok 0
      → (migrate S old new ids duration r).0.stats.markets_migrated ≡ r.stats.markets_migrated
  unfolding migrate conclude fail complete
  migrated-migrate old new ids duration r e = ground (arith, e)

  migrated-replace_connection :
      (meanwhile : ConnectionPool S → ConnectionPool S) (now later : ℕ) (new old : String)
      (r : ConnectionRecycler S)
      → old ≢ new
      → ((p : ConnectionPool S) → (meanwhile p).registry ≡ p.registry)
      → (replace_connection S meanwhile now later new old r).0.stats.markets_migrated
        ≡ r.stats.markets_migrated
  unfolding replace_connection
  migrated-replace_connection meanwhile now later new old r ne same =
      let ids = get_active_by_connection S r.pool.registry old in
      let P : ConnectionRecycler S × Bool → Type 0 =
        λ x. x.0.stats.markets_migrated ≡ r.stats.markets_migrated in
      if-elim P (eqb (length ids) 0) (λ _. refl)
        (λ _.
          Option-elim P (force_subscribe S now new ids r.pool) (λ _. unfold fail in refl)
            (λ p e.
              let waited : ConnectionRecycler S = record r { pool = meanwhile p } in
              let kept = same p ∙ (force_subscribe-Opened now new ids r.pool p e).registry in
              let none_moved =
                ap (λ (x : AssetRegistry S). (Updates.reassign_connection S ids old new x).1) kept
                ∙ ap (λ x. x.1)
                    (reassign_after_mark_subscribed S now new ids old r.pool.registry ne) in
              if-elim P
                (found_healthy new
                  (get_connection_stats S later waited.pool.registry waited.pool.connections))
                (λ _. migrated-migrate old new ids (later - now) waited none_moved)
                (λ _. unfold fail in refl)))

  -- If the registry is not changed while the recycle waits, the recycle migrates nothing: the
  -- new connection has the assets from `force_subscribe` on, so that `reassign_connection` moves none
  -- and the count of migrated markets stays as it is, for every recycle that succeeds.
  pub recycle_connection_migrates_none :
      (meanwhile : ConnectionPool S → ConnectionPool S) (now later : ℕ) (new old : String)
      (r : ConnectionRecycler S)
      → old ≢ new
      → ((p : ConnectionPool S) → (meanwhile p).registry ≡ p.registry)
      → (recycle_connection S meanwhile now later new old r).0.stats.markets_migrated
        ≡ r.stats.markets_migrated
  unfolding recycle_connection
  recycle_connection_migrates_none meanwhile now later new old r ne same =
      migrated-replace_connection meanwhile now later new old
        (record r {
          active_recycles = add old r.active_recycles;
          stats = record r.stats { recycles_initiated = r.stats.recycles_initiated + 1 };
        })
        ne same

  -- an entry on another connection outlives the removal of one
  entry-remove_connection :
      (old new b : String) (now : ℕ) (o : Option AssetEntry) (p : ConnectionPool S)
      → old ≢ new
      → get p.registry.assets b ≡ subscribed_entry now new o
      → get (remove_connection S old p).registry.assets b ≡ subscribed_entry now new o
  unfolding remove_connection Updates.remove_connection orphan
  entry-remove_connection old new b now none p ne e =
      Option-elim (λ (q : ConnectionPool S). get q.registry.assets b ≡ none) (get p.connections old)
        (λ _. e)
        (λ info _.
          ground (
            arith,
            e,
            get-orphan_each old b (set_at p.registry.by_connection old) p.registry.assets,
          ))
  entry-remove_connection old new b now (some x) p ne e =
      Option-elim
        (λ (q : ConnectionPool S). get q.registry.assets b ≡ subscribed_entry now new (some x))
        (get p.connections old) (λ _. e)
        (λ info _. ground (
          arith,
          e,
          ne,
          eq_iff new old,
          get-orphan_each old b (set_at p.registry.by_connection old) p.registry.assets,
        ))

  entry-migrate :
      (old new b : String) (ids : List String) (now duration : ℕ) (o : Option AssetEntry)
      (r : ConnectionRecycler S)
      → old ≢ new
      → Updates.reassign_connection S ids old new r.pool.registry ≡ (r.pool.registry, ok 0)
      → get r.pool.registry.assets b ≡ subscribed_entry now new o
      → get (migrate S old new ids duration r).0.pool.registry.assets b ≡ subscribed_entry now new o
  unfolding migrate conclude fail complete
  entry-migrate old new b ids now duration o r ne none_moved e =
      ap (λ x. get (conclude S old duration r x).0.pool.registry.assets b) none_moved
      ∙ entry-remove_connection old new b now o r.pool ne e

  entry-replace_connection :
      (meanwhile : ConnectionPool S → ConnectionPool S) (now later : ℕ) (new old b : String)
      (r : ConnectionRecycler S)
      → old ≢ new
      → ((p : ConnectionPool S) → (meanwhile p).registry ≡ p.registry)
      → member b (get_active_by_connection S r.pool.registry old) ≡ true
      → (replace_connection S meanwhile now later new old r).1 ≡ true
      → get (replace_connection S meanwhile now later new old r).0.pool.registry.assets b
        ≡ subscribed_entry now new (get r.pool.registry.assets b)
  unfolding replace_connection
  entry-replace_connection meanwhile now later new old b r ne same active =
      let ids = get_active_by_connection S r.pool.registry old in
      let P : ConnectionRecycler S × Bool → Type 0 = λ x.
        x.1 ≡ true
        → get x.0.pool.registry.assets b
          ≡ subscribed_entry now new (get r.pool.registry.assets b) in
      if-elim P (eqb (length ids) 0) (λ empty. absurd (member_empty b ids empty active))
        (λ _.
          Option-elim P (force_subscribe S now new ids r.pool) (λ _. unfold fail in λ no. cc)
            (λ p e.
              let waited : ConnectionRecycler S = record r { pool = meanwhile p } in
              let kept = same p ∙ (force_subscribe-Opened now new ids r.pool p e).registry in
              if-elim P
                (found_healthy new
                  (get_connection_stats S later waited.pool.registry waited.pool.connections))
                (λ _ _.
                  entry-migrate old new b ids now (later - now) (get r.pool.registry.assets b)
                    waited ne
                    (ap (λ (x : AssetRegistry S). Updates.reassign_connection S ids old new x) kept
                      ∙ reassign_after_mark_subscribed S now new ids old r.pool.registry ne
                      ∙ ap (λ (x : AssetRegistry S). (x, ok 0)) (sym kept))
                    (ap (λ (x : AssetRegistry S). get x.assets b) kept
                      ∙ (mark_subscribed-entries S now new ids r.pool.registry).0 b
                      ∙ ground (arith, active)))
                (λ _. unfold fail in λ no. cc)))

  -- A recycle that succeeds, while nothing else changes the registry, has moved every active asset of
  -- the old connection: each is SUBSCRIBED on the new one.
  pub recycle_connection_moves :
      (meanwhile : ConnectionPool S → ConnectionPool S) (now later : ℕ) (new old b : String)
      (r : ConnectionRecycler S)
      → old ≢ new
      → ((p : ConnectionPool S) → (meanwhile p).registry ≡ p.registry)
      → member b (get_active_by_connection S r.pool.registry old) ≡ true
      → (recycle_connection S meanwhile now later new old r).1 ≡ true
      → get (recycle_connection S meanwhile now later new old r).0.pool.registry.assets b
        ≡ subscribed_entry now new (get r.pool.registry.assets b)
  unfolding recycle_connection
  recycle_connection_moves meanwhile now later new old b r ne same active done =
      entry-replace_connection meanwhile now later new old b
        (record r {
          active_recycles = add old r.active_recycles;
          stats = record r.stats { recycles_initiated = r.stats.recycles_initiated + 1 };
        })
        ne same active done
