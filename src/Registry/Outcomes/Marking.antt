-- ===== src/Registry/Outcomes/Marking.antt =====
-- The entries and the counts after `mark_subscribed`, `mark_expired` and `reassign_connection`
-- (src/registry/asset_registry.py).
use polypy.Prelude.{
  ℕ, String, ◌≡◌, ◌≢◌, Bool, true, false, Option, none, some, List, [], ◌∷◌, ◌==◌, eq_iff, arith,
  Option-cases, Option-elim, inl, inr, if◌then◌else◌, ◌+◌, refl,
}
use polypy.Prelude.Ids.{IdSet, member, add}
use polypy.Prelude.Dict.{Dict, get, has, get-put}
use polypy.SortedDict.{SortedDict}
use polypy.Registry.{AssetRegistry}
use polypy.Registry.Entry.{AssetEntry, subscribed, holds, names, set_at}
use polypy.Registry.Updates.{
  ok, ensure, for_each, subscribe_one, mark_subscribed, move_each, reassign_connection,
}

-- the entry after `mark_subscribed`
abbrev pub subscribed_entry : ℕ → String → Option AssetEntry → Option AssetEntry
subscribed_entry now conn none = none
subscribed_entry now conn (some e) =
    some (record e { status = subscribed; connection_id = some conn; subscribed_at = now })

-- how many of the listed assets, repeats included, have an entry
unfoldable pub count_tracked : Dict AssetEntry → List String → ℕ
count_tracked d [] = 0
count_tracked d (a ∷ ids) = if has d a then count_tracked d ids + 1 else count_tracked d ids

same_tracked :
    (d d' : Dict AssetEntry) (ids : List String)
    → ((b : String) → has d b ≡ has d' b)
    → count_tracked d ids ≡ count_tracked d' ids
unfolding count_tracked
same_tracked d d' [] h = refl
same_tracked d d' (a ∷ ids) h = ground (arith, h a, same_tracked d d' ids h)

module _ (S : SortedDict) (now : ℕ) (conn : String) where
  get-subscribe_one :
      (a b : String) (s : AssetRegistry S)
      → get (subscribe_one S now conn a s).0.assets b
        ≡ (if a == b then subscribed_entry now conn (get s.assets b) else get s.assets b)
  unfolding subscribe_one
  get-subscribe_one a b s = elim (Option-cases (get s.assets a)) [
    | inl e ↦ ground (arith, e, eq_iff a b)
    | inr (x, e) ↦ ground (
      arith,
      e,
      eq_iff a b,
      get-put s.assets a b
          (record x { status = subscribed; connection_id = some conn; subscribed_at = now }),
    )
  ]

  get-subscribe_each :
      (ids : List String) (b : String) (s : AssetRegistry S) (count : ℕ)
      → get (for_each S (subscribe_one S now conn) ids s count).0.assets b
        ≡ (if member b ids then subscribed_entry now conn (get s.assets b) else get s.assets b)
  unfolding for_each member
  get-subscribe_each [] b s count = refl
  get-subscribe_each (a ∷ ids) b s count = ground (
    arith,
    get-subscribe_each ids b (subscribe_one S now conn a s).0
        (if (subscribe_one S now conn a s).1 then count + 1 else count),
    get-subscribe_one a b s,
  )

  subscribed_iff_tracked :
      (a : String) (s : AssetRegistry S) → (subscribe_one S now conn a s).1 ≡ has s.assets a
  unfolding subscribe_one
  subscribed_iff_tracked a s = ground arith

  keeps_one :
      (a : String) (s : AssetRegistry S)
      → has s.by_connection conn ≡ true
      → has (subscribe_one S now conn a s).0.by_connection conn ≡ true
  unfolding subscribe_one
  keeps_one a s h =
      Option-elim (λ (r : AssetRegistry S × Bool). has r.0.by_connection conn ≡ true)
        (get s.assets a) (λ _. h)
        (λ e _. ground (
          arith,
          eq_iff conn conn,
          get-put s.by_connection conn conn (add a (set_at s.by_connection conn)),
        ))

  count-subscribe_each :
      (ids : List String) (s : AssetRegistry S) (count : ℕ)
      → (for_each S (subscribe_one S now conn) ids s count).1 ≡ count + count_tracked s.assets ids
  unfolding for_each count_tracked
  count-subscribe_each [] s count = omega arith
  count-subscribe_each (a ∷ ids) s count = ground (
    arith,
    count-subscribe_each ids (subscribe_one S now conn a s).0
        (if (subscribe_one S now conn a s).1 then count + 1 else count),
    same_tracked (subscribe_one S now conn a s).0.assets s.assets ids
        (λ b. ground (arith, get-subscribe_one a b s)),
    subscribed_iff_tracked a s,
  )

  -- `mark_subscribed` puts exactly the listed assets that have an entry on the connection, as
  -- SUBSCRIBED at the given time, leaves every other entry, and returns how many of the listed ids
  -- have an entry.
  pub mark_subscribed-entries :
      (ids : List String) (s : AssetRegistry S)
      → ((b : String)
          → get (mark_subscribed S now ids conn s).0.assets b
            ≡ (if member b ids then subscribed_entry now conn (get s.assets b) else get s.assets b))
        × ((mark_subscribed S now ids conn s).1 ≡ count_tracked s.assets ids)
  unfolding mark_subscribed
  mark_subscribed-entries ids s =
      let s' = record s { by_connection = ensure s.by_connection conn } in
      (λ b. get-subscribe_each ids b s' 0, omega (arith, count-subscribe_each ids s' 0))

  keeps_connection :
      (ids : List String) (s : AssetRegistry S) (count : ℕ)
      → has s.by_connection conn ≡ true
      → has (for_each S (subscribe_one S now conn) ids s count).0.by_connection conn ≡ true
  unfolding for_each
  keeps_connection [] s count h = h
  keeps_connection (a ∷ ids) s count h =
      keeps_connection ids (subscribe_one S now conn a s).0
        (if (subscribe_one S now conn a s).1 then count + 1 else count) (keeps_one a s h)

  mark_subscribed_lists :
      (ids : List String) (s : AssetRegistry S)
      → has (mark_subscribed S now ids conn s).0.by_connection conn ≡ true
  unfolding mark_subscribed ensure
  mark_subscribed_lists ids s =
      keeps_connection ids (record s { by_connection = ensure s.by_connection conn }) 0
        (ground (arith, get-put s.by_connection conn conn [], eq_iff conn conn))

  -- no listed asset is on the old connection
  move_each_none :
      (old : String) (ids : List String) (s : AssetRegistry S) (count : ℕ)
      → ((a : String)
          → member a ids ≡ true
          → holds (λ e. names old e.connection_id) (get s.assets a) ≡ false)
      → move_each S old conn ids s count ≡ (s, ok count)
  unfolding move_each member
  move_each_none old [] s count h = refl
  move_each_none old (a ∷ ids) s count h =
      ground (arith, h a, eq_iff a a, move_each_none old ids s count (λ b m. h b (ground arith)))

  ensure_present : (d : Dict IdSet) → has d conn ≡ true → ensure d conn ≡ d
  unfolding ensure
  ensure_present d h = rw h refl

  reassign_none :
      (old : String) (ids : List String) (s : AssetRegistry S)
      → has s.by_connection conn ≡ true
      → ((a : String)
          → member a ids ≡ true
          → holds (λ e. names old e.connection_id) (get s.assets a) ≡ false)
      → reassign_connection S ids old conn s ≡ (s, ok 0)
  unfolding reassign_connection
  reassign_none old ids s h k = rw (ensure_present s.by_connection h) (move_each_none old ids s 0 k)

  -- After `mark_subscribed` has put assets on a new connection, `reassign_connection` of the same
  -- assets from another connection to the new one moves none and changes nothing.
  pub reassign_after_mark_subscribed :
      (ids : List String) (old : String) (s : AssetRegistry S)
      → old ≢ conn
      → reassign_connection S ids old conn (mark_subscribed S now ids conn s).0
        ≡ ((mark_subscribed S now ids conn s).0, ok 0)
  reassign_after_mark_subscribed ids old s ne =
      reassign_none old ids (mark_subscribed S now ids conn s).0 (mark_subscribed_lists ids s)
        (λ a m.
          ground (arith, (mark_subscribed-entries ids s).0 a, eq_iff old conn, eq_iff conn old))
