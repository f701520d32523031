-- ===== src/Prelude/Kept.antt =====
-- A list with some elements left out.
use mathlib.Core.List.{List, [], ◌∷◌, ◌++◌}

-- the first list is the second with some elements left out, in the same order
pub data Kept {A : Type 0} : List A → List A → Type 0 where
  done : Kept [] []
  kept : (x : A) {xs ys : List A} → Kept xs ys → Kept (x ∷ xs) (x ∷ ys)
  lost : (y : A) {xs ys : List A} → Kept xs ys → Kept xs (y ∷ ys)

module _ {A : Type 0} where
  pub Kept-refl : (xs : List A) → Kept xs xs
  Kept-refl [] = done
  Kept-refl (x ∷ xs) = kept x (Kept-refl xs)

  pub Kept-nil : (xs : List A) → Kept [] xs
  Kept-nil [] = done
  Kept-nil (x ∷ xs) = lost x (Kept-nil xs)

  pub Kept-append : {xs ys us vs : List A} → Kept xs ys → Kept us vs → Kept (xs ++ us) (ys ++ vs)
  Kept-append done k = k
  Kept-append (kept x h) k = kept x (Kept-append h k)
  Kept-append (lost y h) k = lost y (Kept-append h k)

  pub Kept-prefix : (xs ys : List A) → Kept xs (xs ++ ys)
  Kept-prefix [] ys = Kept-nil ys
  Kept-prefix (x ∷ xs) ys = kept x (Kept-prefix xs ys)

  pub Kept-trans : {ys zs : List A} → Kept ys zs → {xs : List A} → Kept xs ys → Kept xs zs
  Kept-trans done h = h
  Kept-trans (lost z k) h = lost z (Kept-trans k h)
  Kept-trans (kept x k) (kept _ h) = kept x (Kept-trans k h)
  Kept-trans (kept x k) (lost _ h) = lost x (Kept-trans k h)
