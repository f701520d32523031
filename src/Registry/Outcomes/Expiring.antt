-- ===== src/Registry/Outcomes/Expiring.antt =====
-- The entries after `mark_expired` (src/registry/asset_registry.py).
use polypy.Prelude.{
  ℕ, String, ◌≡◌, true, false, not, Option, none, some, List, [], ◌∷◌, ◌==◌, eq_iff, arith,
  Option-cases, inl, inr, if◌then◌else◌, ◌+◌, refl,
}
use polypy.Prelude.Ids.{member}
use polypy.Prelude.Dict.{get, get-put}
use polypy.SortedDict.{SortedDict}
use polypy.Registry.{AssetRegistry}
use polypy.Registry.Entry.{AssetEntry, expired, status_eq, holds}
use polypy.Registry.Updates.{for_each, expire_one, mark_expired}

-- the entry after `mark_expired`
abbrev pub expired_entry : Option AssetEntry → Option AssetEntry
expired_entry none = none
expired_entry (some e) = some (record e { status = expired })

module _ (S : SortedDict) where
  get-expire_one :
      (a b : String) (s : AssetRegistry S)
      → get (expire_one S a s).0.assets b
        ≡ (if a == b then expired_entry (get s.assets b) else get s.assets b)
  unfolding expire_one
  get-expire_one a b s = elim (Option-cases (get s.assets a)) [
    | inl e ↦ ground (arith, e, eq_iff a b)
    | inr (x, e) ↦
        ground (arith, e, eq_iff a b, get-put s.assets a b (record x { status = expired }))
  ]

  get-expire_each :
      (ids : List String) (b : String) (s : AssetRegistry S) (count : ℕ)
      → get (for_each S (expire_one S) ids s count).0.assets b
        ≡ (if member b ids then expired_entry (get s.assets b) else get s.assets b)
  unfolding for_each member
  get-expire_each [] b s count = refl
  get-expire_each (a ∷ ids) b s count = ground (
    arith,
    get-expire_each ids b (expire_one S a s).0 (if (expire_one S a s).1 then count + 1 else count),
    get-expire_one a b s,
  )

  expire_one_skips :
      (a : String) (s : AssetRegistry S)
      → holds (λ e. not (status_eq e.status expired)) (get s.assets a) ≡ false
      → expire_one S a s ≡ (s, false)
  unfolding expire_one
  expire_one_skips a s h = ground arith

  expire_each_skips :
      (ids : List String) (s : AssetRegistry S) (count : ℕ)
      → ((a : String)
          → member a ids ≡ true
          → holds (λ e. not (status_eq e.status expired)) (get s.assets a) ≡ false)
      → for_each S (expire_one S) ids s count ≡ (s, count)
  unfolding for_each member
  expire_each_skips [] s count h = refl
  expire_each_skips (a ∷ ids) s count h =
      rw (expire_one_skips a s (h a (ground (arith, eq_iff a a))))
        (expire_each_skips ids s count (λ b m. h b (ground arith)))

  -- `mark_expired` makes exactly the listed entries EXPIRED and changes nothing else in them, their
  -- connection included; a second call with the same ids changes nothing and returns 0.
  pub mark_expired-entries :
      (ids : List String) (s : AssetRegistry S)
      → ((b : String)
          → get (mark_expired S ids s).0.assets b
            ≡ (if member b ids then expired_entry (get s.assets b) else get s.assets b))
        × (mark_expired S ids (mark_expired S ids s).0 ≡ ((mark_expired S ids s).0, 0))
  unfolding mark_expired
  mark_expired-entries ids s = (
    λ b. get-expire_each ids b s 0,
    expire_each_skips ids (for_each S (expire_one S) ids s 0).0 0
        (λ a m. ground (arith, get-expire_each ids a s 0)),
  )
