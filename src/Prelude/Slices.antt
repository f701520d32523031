-- ===== src/Prelude/Slices.antt =====
-- Python's slices of a list; a negative bound counts from the end.
use Prim.Native.Nat.{suc, ◌-◌}
use mathlib.Core.Path.{◌≡◌}
use mathlib.Core.List.{List, ◌++◌}
use polypy.Prelude.Lists.{length, take, drop, take-append-drop}
use polypy.Prelude.Int.{ℤ, pos, negsuc}

-- l[:n] and l[n:]
unfoldable pub slice_to {ℓ} : {A : Type ℓ} → List A → ℤ → List A
slice_to l (pos n) = take n l
slice_to l (negsuc n) = take (length l - suc n) l

unfoldable pub slice_from {ℓ} : {A : Type ℓ} → List A → ℤ → List A
slice_from l (pos n) = drop n l
slice_from l (negsuc n) = drop (length l - suc n) l

pub slice_split {ℓ} : {A : Type ℓ} (l : List A) (n : ℤ) → slice_to l n ++ slice_from l n ≡ l
unfolding slice_to slice_from
slice_split l (pos n) = take-append-drop n l
slice_split l (negsuc n) = take-append-drop (length l - suc n) l
