-- ===== src/Registry/Entry.antt =====
-- One tracked asset (src/registry/asset_entry.py), and the small readings of a registry's fields.
use polypy.Prelude.{ℕ, String, Bool, true, false, Option, none, some, [], ◌==◌}
use polypy.Prelude.Int.{ℤ}
use polypy.Prelude.Ids.{IdSet}
use polypy.Prelude.Dict.{Dict, get}

pub data AssetStatus : Type 0 where
  pending subscribed expired : AssetStatus

abbrev pub status_eq : AssetStatus → AssetStatus → Bool
status_eq pending pending = true
status_eq subscribed subscribed = true
status_eq expired expired = true
status_eq _ _ = false

pub record AssetEntry : Type 0 where
  pub asset_id : String
  pub condition_id : String
  pub status : AssetStatus
  pub connection_id : Option String
  pub expiration_ts : ℤ
  pub subscribed_at : ℕ
  pub created_at : ℕ

unfoldable pub is_active : AssetEntry → Bool
is_active e = status_eq e.status subscribed

-- A test on an entry that may be missing; `None` fails it.
abbrev pub holds : (AssetEntry → Bool) → Option AssetEntry → Bool
holds p none = false
holds p (some e) = p e

-- A connection that an entry names, compared with one connection.
abbrev pub names : String → Option String → Bool
names c none = false
names c (some d) = d == c

-- d.get(k, set())
abbrev pub set_at : Dict IdSet → String → IdSet
set_at d k = elim (get d k) [ none ↦ [] | some s ↦ s ]
