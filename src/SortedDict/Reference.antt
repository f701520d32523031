-- ===== src/SortedDict/Reference.antt =====
-- A concrete `SortedDict`: the sorted listing itself, with the proof that it is sorted. It shows that
-- the laws can hold, and lets the models run.
use polypy.Prelude.{refl, List, []}
use polypy.Prelude.Int.{ℤ}
use polypy.SortedDict.{SortedDict}
use polypy.SortedDict.Listing.{insert, erase, below, IsSorted, insert-IsSorted, erase-IsSorted}

abbrev pub sorted_listing : SortedDict
sorted_listing = record {
  Map = λ V. (l : List (ℤ × V)) × IsSorted l;
  empty = ([], tt);
  items = λ m. m.0;
  set_item = λ m k v. (insert k v m.0, insert-IsSorted k v m.0 m.1);
  pop = λ m k. (erase k m.0, erase-IsSorted k m.0 m.1);
  irange_below = λ m t. below t m.0;
  items-empty = refl;
  items-set_item = λ m k v. refl;
  items-pop = λ m k. refl;
  items-IsSorted = λ m. m.1;
  irange_below-items = λ m t. refl;
}
