-- ===== src/SortedDict.antt =====
-- The interface of `sortedcontainers.SortedDict`, which the registry (src/registry/asset_registry.py)
-- and the orderbook (src/orderbook/orderbook.py) use and this repository does not contain. Its
-- documentation is read as laws: `items()` lists the pairs in strictly ascending key order, and an
-- assignment or a `pop` changes that listing at its key alone.
pub mod Listing
pub mod Laws
pub mod Reference
use polypy.Prelude.{◌≡◌, Option, List, [], map}
use polypy.Prelude.Int.{ℤ}
use polypy.SortedDict.Listing.{find, insert, erase, below, IsSorted}

pub record SortedDict : Type 1 where
  pub Map : Type 0 → Type 0
  pub empty : {V : Type 0} → Map V
  pub items : {V : Type 0} → Map V → List (ℤ × V)
  pub set_item : {V : Type 0} → Map V → ℤ → V → Map V
  pub pop : {V : Type 0} → Map V → ℤ → Map V
  pub irange_below : {V : Type 0} → Map V → ℤ → List ℤ
  pub items-empty : {V : Type 0} → items (empty {V = V}) ≡ []
  pub items-set_item :
      {V : Type 0} (m : Map V) (k : ℤ) (v : V) → items (set_item m k v) ≡ insert k v (items m)
  pub items-pop : {V : Type 0} (m : Map V) (k : ℤ) → items (pop m k) ≡ erase k (items m)
  pub items-IsSorted : {V : Type 0} (m : Map V) → IsSorted (items m)
  pub irange_below-items : {V : Type 0} (m : Map V) (t : ℤ) → irange_below m t ≡ below t (items m)

module _ (S : SortedDict) {V : Type 0} where
  open S use {Map, items}

  -- m.get(k); `k in m` and `m[k]` read the same listing
  abbrev pub get : Map V → ℤ → Option V
  get m k = find k (items m)

  -- m.keys(), m.values()
  abbrev pub keys : Map V → List ℤ
  keys m = map (λ e. e.0) (items m)

  abbrev pub values : Map V → List V
  values m = map (λ e. e.1) (items m)
