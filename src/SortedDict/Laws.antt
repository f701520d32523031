-- ===== src/SortedDict/Laws.antt =====
-- What a lookup in a `SortedDict` sees of each change, in the form of a test on the key.
use polypy.Prelude.{◌≡◌, none, some, if◌then◌else◌}
use polypy.Prelude.Int.{ℤ, eqb_ℤ}
use polypy.SortedDict
use polypy.SortedDict.{SortedDict}
use polypy.SortedDict.Listing.{find, find-insert, find-erase}

module _ (S : SortedDict) where
  open S use {Map}

  pub get-empty : (V : Type 0) (u : ℤ) → SortedDict.get S (S.empty {V = V}) u ≡ none
  unfolding find
  get-empty V u = rw (S.items-empty, find)

  pub get-set_item :
      {V : Type 0} (m : Map V) (t u : ℤ) (v : V)
      → SortedDict.get S (S.set_item m t v) u ≡ (if eqb_ℤ t u then some v else SortedDict.get S m u)
  get-set_item m t u v = rw (S.items-set_item m t v) (find-insert t u v (S.items m))

  pub get-pop :
      {V : Type 0} (m : Map V) (t u : ℤ)
      → SortedDict.get S (S.pop m t) u ≡ (if eqb_ℤ t u then none else SortedDict.get S m u)
  get-pop m t u = rw (S.items-pop m t) (find-erase t u (S.items m))
