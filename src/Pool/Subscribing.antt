-- ===== src/Pool/Subscribing.antt =====
-- What the pool does to the assets (src/connection/pool.py): new connections for pending assets, and
-- the removal of a connection.
use polypy.Prelude.{
  ℕ, ◌≤◌, String, ◌≡◌, ◌≢◌, refl, ap, ◌∙◌, true, false, none, some, List, [], length, min, arith,
  if◌then◌else◌, Option-elim, eq_self,
}
use polypy.Prelude.Int.{pos}
use polypy.Prelude.Ids.{member}
use polypy.Prelude.Dict.{Dict, get, put, get-put, get-remove}
use polypy.SortedDict.{SortedDict}
use polypy.Registry.{AssetRegistry}
use polypy.Registry.Entry.{AssetEntry, holds, names}
use polypy.Registry.Queries.{get_pending_count}
use polypy.Registry.Updates
use polypy.Registry.Coherence.{IsCoherent}
use polypy.Registry.Coherence.Reassigning.{remove_connection-IsCoherent, remove_connection_orphans}
use polypy.Registry.Outcomes.Marking.{subscribed_entry, mark_subscribed-entries}
use polypy.Registry.Outcomes.Batching.{take_pending_batch_splits}
use polypy.Connection.{WebsocketConnection, connecting, init, start}
use polypy.Pool.{
  ConnectionInfo, ConnectionPool, open_connection, process_pending, remove_connection,
}

module _ (S : SortedDict) where
  -- a pool with a connection that has been opened for the assets
  pub record Opened (now : ℕ) (id : String) (ids : List String) (p p' : ConnectionPool S)
      : Type 0 where
    pub info : ConnectionInfo
    pub there : get p'.connections id ≡ some info
    pub assets : info.connection.asset_ids ≡ ids
    pub starting : info.connection.status ≡ connecting
    pub serving : info.is_draining ≡ false
    pub registry : p'.registry ≡ (Updates.mark_subscribed S now ids id p.registry).0

  pub open_connection_lem :
      (now : ℕ) (id : String) (ids : List String) (p : ConnectionPool S)
      → length ids ≤ 500
      → (p' : ConnectionPool S) × (open_connection S now id ids p ≡ some p')
        × Opened now id ids p p'
  unfolding open_connection init start
  open_connection_lem now id ids p h =
      let c : WebsocketConnection = record {
        connection_id = id;
        asset_ids = ids;
        status = connecting;
        stats = record {
          messages_received = 0;
          bytes_received = 0;
          parse_errors = 0;
          reconnect_count = 0;
          last_message_ts = 0;
          created_at = now;
        };
        stop_event = false;
        running = true;
        reconnect_delay = 1000;
        subscribed_asset_ids = [];
      } in
      let info : ConnectionInfo = record {
        connection = c;
        created_at = now;
        is_draining = false;
      } in
      (
        record {
          connections = put p.connections id info;
          registry = (Updates.mark_subscribed S now ids id p.registry).0;
        },
        ground (arith, h),
        record {
          info = info;
          there = ground (arith, get-put p.connections id id info, eq_self id);
          assets = refl;
          starting = refl;
          serving = refl;
          registry = refl;
        },
      )

  pub process_pending_lem :
      (now : ℕ) (id : String) (p p' : ConnectionPool S)
      → 50 ≤ get_pending_count S p.registry
      → length (Updates.take_pending_batch S (pos 400) p.registry).1
        ≡ min 400 (length p.registry.pending_queue)
      → open_connection S now id
          (Updates.take_pending_batch S (pos 400) p.registry).1
          (record p { registry = (Updates.take_pending_batch S (pos 400) p.registry).0 })
        ≡ some p'
      → process_pending S now id p ≡ (p', true)
  unfolding process_pending get_pending_count
  process_pending_lem now id p p' h len e = ground (arith, h, len, e)

  -- With 50 assets pending, the next batch of at most 400 from the front of the queue gets one new
  -- connection: it never fails, the connection is for exactly that batch and starts to connect, and
  -- each asset of the batch that has an entry becomes SUBSCRIBED on it, EXPIRED ones included, and no other
  -- entry changes.
  pub process_pending_subscribes :
      (now : ℕ) (id : String) (p : ConnectionPool S)
      → 50 ≤ get_pending_count S p.registry
      → let batch = (Updates.take_pending_batch S (pos 400) p.registry).1 in
        let (p', done) = process_pending S now id p in
        (done ≡ true)
        × (length batch ≡ min 400 (length p.registry.pending_queue))
        × Opened now id batch
            (record p { registry = (Updates.take_pending_batch S (pos 400) p.registry).0 })
            p'
        × ((b : String)
            → get p'.registry.assets b ≡ (
                if member b batch
                then subscribed_entry now id (get p.registry.assets b)
                else get p.registry.assets b))
  unfolding get_pending_count
  process_pending_subscribes now id p h =
      let (r, batch) = Updates.take_pending_batch S (pos 400) p.registry in
      let (_, len, same) = take_pending_batch_splits S (pos 400) 400 p.registry in
      let len' : length batch ≡ min 400 (length p.registry.pending_queue) = omega (arith, len) in
      let (p', e, opened) =
        open_connection_lem now id batch (record p { registry = r }) (omega (arith, len')) in
      let (entries, _) = mark_subscribed-entries S now id batch r in
      rw (process_pending_lem now id p p' h len' e) (
        refl,
        len',
        opened,
        λ b.
            ap (λ (x : AssetRegistry S). get x.assets b) opened.registry
            ∙ entries b
            ∙ ap
                (λ (d : Dict AssetEntry).
                  if member b batch then subscribed_entry now id (get d b) else get d b)
                same,
      )

  -- Removing a connection takes it out of the pool, leaves no entry that names it, and keeps the
  -- registry coherent; a connection that the pool has not is left alone.
  pub remove_connection_forgets :
      (id : String) (p : ConnectionPool S)
      → IsCoherent S p.registry
      → (get (remove_connection S id p).connections id ≡ none)
        × IsCoherent S (remove_connection S id p).registry
        × (get p.connections id ≢ none
            → (b : String)
            → holds
                (λ e. names id e.connection_id)
                (get (remove_connection S id p).registry.assets b)
              ≡ false)
  unfolding remove_connection
  remove_connection_forgets id p h =
      Option-elim
        (λ (q : ConnectionPool S).
          (get q.connections id ≡ none)
          × IsCoherent S q.registry
          × (get p.connections id ≢ none
              → (b : String)
              → holds (λ e. names id e.connection_id) (get q.registry.assets b) ≡ false))
        (get p.connections id) (λ gone. (gone, h, λ there. absurd (there gone)))
        (λ info _. (
          ground (arith, get-remove p.connections id id, eq_self id),
          remove_connection-IsCoherent S id p.registry h,
          λ _ b. remove_connection_orphans S id p.registry h b,
        ))
