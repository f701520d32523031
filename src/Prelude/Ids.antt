-- ===== src/Prelude/Ids.antt =====
-- Python's `set[str]`: a list in the order of insertion. Python leaves the order of a set open;
-- what is proved of a set is its membership and its size.

use Prim.Native.Nat.{ℕ, zero, suc}
use Prim.Native.String.{String}
use mathlib.Core.Path.{◌≡◌, refl}
use mathlib.Core.Logic.{◌≢◌, inl, inr}
use mathlib.Core.Bool.{Bool, true, false, not, ◌&&◌, ◌||◌}
use mathlib.Core.List.{List, [], ◌∷◌, ◌++◌}
use native.Mathlib.Omega.{arith}
use text.Mathlib.Text.{◌==◌}
use text.Mathlib.TextEquality.{eq_iff}
use polypy.Prelude.Tests.{if◌then◌else◌, Bool-cases}
use polypy.Prelude.Lists.{drop, All}

abbrev pub IdSet : Type 0
IdSet = List String

-- x in s
unfoldable pub member : String → List String → Bool
member a [] = false
member a (x ∷ xs) = x == a || member a xs

-- s.add(x)
unfoldable pub add : String → IdSet → IdSet
unfolding member
add a xs = if member a xs then xs else xs ++ a ∷ []

-- s.discard(x); a set holds x once
unfoldable pub discard : String → IdSet → IdSet
discard a [] = []
discard a (x ∷ xs) = if x == a then discard a xs else x ∷ discard a xs

-- l.remove(x) on a list: the first occurrence goes
unfoldable pub remove_first : String → List String → List String
remove_first a [] = []
remove_first a (x ∷ xs) = if x == a then xs else x ∷ remove_first a xs

pub member-append :
    (j : String) (xs ys : List String) → member j (xs ++ ys) ≡ (member j xs || member j ys)
unfolding member
member-append j [] ys = refl
member-append j (x ∷ xs) ys = ground (arith, member-append j xs ys)

pub member-add : (k j : String) (xs : IdSet) → member j (add k xs) ≡ (k == j || member j xs)
unfolding add
member-add k j xs = ground (arith, member-append j xs (k ∷ []), eq_iff k j)

pub member-discard :
    (k j : String) (xs : IdSet) → member j (discard k xs) ≡ (not (k == j) && member j xs)
unfolding member discard
member-discard k j [] = ground arith
member-discard k j (x ∷ xs) =
    ground (arith, member-discard k j xs, eq_iff x k, eq_iff x j, eq_iff k j)

-- No text twice.
abbrev pub Distinct : List String → Type 0
Distinct [] = Unit
Distinct (x ∷ xs) = (member x xs ≡ false) × Distinct xs

pub Distinct-snoc :
    (a : String) (xs : List String) → Distinct xs → member a xs ≡ false → Distinct (xs ++ a ∷ [])
unfolding member
Distinct-snoc a [] d h = (refl, tt)
Distinct-snoc a (x ∷ xs) d h = (
  ground (arith, member-append x xs (a ∷ []), eq_iff a x, eq_iff x a),
  Distinct-snoc a xs d.1 (ground arith),
)

pub Distinct-add : (a : String) (xs : IdSet) → Distinct xs → Distinct (add a xs)
unfolding add
Distinct-add a xs d = elim (Bool-cases (member a xs)) [
  | inl old ↦ rw old d
  | inr new ↦ rw new (Distinct-snoc a xs d new)
]

pub member-remove_first :
    (k j : String) (xs : List String)
    → Distinct xs
    → member j (remove_first k xs) ≡ (not (k == j) && member j xs)
unfolding member remove_first
member-remove_first k j [] d = ground arith
member-remove_first k j (x ∷ xs) d =
    ground (arith, member-remove_first k j xs d.1, eq_iff x k, eq_iff x j, eq_iff k j)

pub Distinct-remove_first :
    (a : String) (xs : List String) → Distinct xs → Distinct (remove_first a xs)
unfolding remove_first
Distinct-remove_first a [] d = tt
Distinct-remove_first a (x ∷ xs) d =
    ground (arith, member-remove_first a x xs d.1, Distinct-remove_first a xs d.1)

pub add-ne-nil : (a : String) (xs : IdSet) → add a xs ≢ []
unfolding add member
add-ne-nil a [] = ground arith
add-ne-nil a (x ∷ xs) = ground arith

pub member-drop :
    (a : String) (n : ℕ) (xs : List String) → member a (drop n xs) ≡ true → member a xs ≡ true
unfolding member
member-drop a zero xs h = h
member-drop a (suc n) [] h = h
member-drop a (suc n) (x ∷ xs) h = ground (arith, member-drop a n xs h)

pub Distinct-drop : (n : ℕ) (xs : List String) → Distinct xs → Distinct (drop n xs)
Distinct-drop zero xs d = d
Distinct-drop (suc n) [] d = d
Distinct-drop (suc n) (x ∷ xs) d = Distinct-drop n xs d.1

-- What holds of every member holds of every element.
pub All-member {κ} :
    (P : String → Type κ) (xs : List String) → ((a : String) → member a xs ≡ true → P a) → All P xs
unfolding member
All-member P [] h = tt
All-member P (x ∷ xs) h =
    (h x (ground (arith, eq_iff x x)), All-member P xs (λ a m. h a (ground arith)))

pub discard_absent : (a : String) (xs : List String) → member a xs ≡ false → discard a xs ≡ xs
unfolding member discard
discard_absent a [] h = refl
discard_absent a (x ∷ xs) h = ground (arith, discard_absent a xs)

pub Distinct-discard : (a : String) (xs : List String) → Distinct xs → Distinct (discard a xs)
unfolding discard
Distinct-discard a [] d = tt
Distinct-discard a (x ∷ xs) d = ground (arith, member-discard a x xs, Distinct-discard a xs d.1)
