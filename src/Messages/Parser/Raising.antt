-- ===== src/Messages/Parser/Raising.antt =====
-- The exceptions that the parts of the parser (src/messages/parser.py) can raise.
use polypy.Prelude.{
  ℕ, String, ◌≡◌, refl, Option, none, some, List, [], ◌∷◌, ◌++◌, All, Bool, true, false,
  Option-elim,
}
use polypy.Prelude.Int.{ℤ}
use polypy.Prelude.Dict.{Dict, get}
use polypy.Messages.{Floats, side_of}
use polypy.Messages.Raw.{
  Failure, value_error, key_error, not_implemented, Result, ok, err, ◌>>=◌, or_raise, for_all, item,
  timestamp_of,
}
use polypy.Messages.Parser.{scale, level_from, price_change_from}

-- the exceptions that a message can cause: the parser's own NotImplementedError is not one
abbrev pub is_reachable : Failure → Bool
is_reachable not_implemented = false
is_reachable _ = true

abbrev pub Raises {ℓ} : {A : Type ℓ} → Result A → Type 0
Raises (ok a) = Unit
Raises (err e) = is_reachable e ≡ true

pub bind-Raises {ℓ κ} :
    {A : Type ℓ} {B : Type κ} (r : Result A) (f : A → Result B)
    → Raises r
    → ((a : A) → Raises (f a))
    → Raises (r >>= f)
bind-Raises (ok a) f g h = h a
bind-Raises (err e) f g h = g

pub or_raise-Raises {ℓ} :
    {A : Type ℓ} (e : Failure) (o : Option A) → is_reachable e ≡ true → Raises (or_raise e o)
or_raise-Raises e none h = h
or_raise-Raises e (some a) h = tt

pub item-Raises : (d : Dict String) (k : String) → Raises (item d k)
item-Raises d k = or_raise-Raises key_error (get d k) refl

pub for_all-Raises {ℓ κ} :
    {A : Type ℓ} {B : Type κ} (f : A → Result B)
    → ((a : A) → Raises (f a))
    → (l : List A) → Raises (for_all f l)
unfolding for_all
for_all-Raises f h [] = tt
for_all-Raises f h (x ∷ xs) =
    bind-Raises (f x) _ (h x) λ y. bind-Raises (for_all f xs) _ (for_all-Raises f h xs) λ ys. tt

pub All-append {ℓ κ} :
    {A : Type ℓ} (P : A → Type κ) (xs ys : List A) → All P xs → All P ys → All P (xs ++ ys)
All-append P [] ys h g = g
All-append P (x ∷ xs) ys h g = (h.0, All-append P xs ys h.1 g)

pub timestamp_of-Raises :
    (parse_int : String → Option ℤ) (d : Dict String) → Raises (timestamp_of parse_int d)
unfolding timestamp_of
timestamp_of-Raises parse_int d =
    Option-elim (λ (r : Result ℤ). Raises r) (get d "timestamp") (λ _. tt)
      (λ t _. or_raise-Raises value_error (parse_int t) refl)

module _ (F : Floats) where
  pub scale-Raises : (k : ℕ) (t : String) → Raises (scale F k t)
  unfolding scale
  scale-Raises k t =
      bind-Raises (or_raise value_error (F.parse t)) _
        (or_raise-Raises value_error (F.parse t) refl)
        λ x. or_raise-Raises value_error (F.scaled x k) refl

  pub level_from-Raises : (d : Dict String) → Raises (level_from F d)
  unfolding level_from
  level_from-Raises d = bind-Raises (item d "price") _ (item-Raises d "price") λ p.
      bind-Raises (item d "size") _ (item-Raises d "size") λ s.
        bind-Raises (scale F 1000 p) _ (scale-Raises 1000 p)
          λ price. bind-Raises (scale F 100 s) _ (scale-Raises 100 s) λ size. tt

  pub price_change_from-Raises : (d : Dict String) → Raises (price_change_from F d)
  unfolding price_change_from
  price_change_from-Raises d = bind-Raises (item d "asset_id") _ (item-Raises d "asset_id") λ a.
      bind-Raises (item d "price") _ (item-Raises d "price") λ p.
        bind-Raises (item d "size") _ (item-Raises d "size") λ s.
          bind-Raises (item d "side") _ (item-Raises d "side") λ t.
            bind-Raises (item d "hash") _ (item-Raises d "hash") λ h.
              bind-Raises (item d "best_bid") _ (item-Raises d "best_bid") λ b.
                bind-Raises (item d "best_ask") _ (item-Raises d "best_ask") λ k.
                  bind-Raises (scale F 1000 p) _ (scale-Raises 1000 p) λ price.
                    bind-Raises (scale F 100 s) _ (scale-Raises 100 s) λ size.
                      bind-Raises (or_raise key_error (side_of t)) _
                        (or_raise-Raises key_error (side_of t) refl)
                        λ side.
                          bind-Raises (scale F 1000 b) _ (scale-Raises 1000 b)
                            λ bid. bind-Raises (scale F 1000 k) _ (scale-Raises 1000 k) λ ask. tt
