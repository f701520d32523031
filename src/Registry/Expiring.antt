-- ===== src/Registry/Expiring.antt =====
-- What `get_expiring_before` (src/registry/asset_registry.py) returns.
use polypy.Prelude.{
  String, ◌≡◌, refl, Bool, true, false, ◌&&◌, ◌||◌, Option, none, some, List, [], ◌∷◌, ◌++◌, arith,
  All, All-map, if-elim, Bool-cases, Option-cases, inl, inr, eq_iff, if◌then◌else◌,
}
use polypy.Prelude.Int.{ℤ, pos, ltb_ℤ, eqb_ℤ, eqb_ℤ_iff, ◌<ℤ◌, ◌≤ℤ◌}
use polypy.Prelude.Ids.{IdSet, member, member-append, All-member}
use polypy.Prelude.Dict.{get}
use polypy.SortedDict
use polypy.SortedDict.{SortedDict}
use polypy.SortedDict.Listing.{find, below, find_each, IsSorted, Above}
use polypy.Registry.{AssetRegistry}
use polypy.Registry.Entry.{AssetEntry, holds}
use polypy.Registry.Queries.{extend_each, get_expiring_before}
use polypy.Registry.Coherence.{IsCoherent}

-- the buckets of a listing whose key is below a bound hold an asset
in_buckets : String → ℤ → List (ℤ × IdSet) → Bool
in_buckets a t [] = false
in_buckets a t ((u, ids) ∷ l) = (ltb_ℤ u t && member a ids) || in_buckets a t l

-- the buckets of the keys below the bound, in the listing's order
flatten_below : ℤ → List (ℤ × IdSet) → List String
flatten_below t [] = []
flatten_below t ((u, ids) ∷ l) = if ltb_ℤ u t then ids ++ flatten_below t l else flatten_below t l

member-flatten_below :
    (a : String) (t : ℤ) (l : List (ℤ × IdSet)) → member a (flatten_below t l) ≡ in_buckets a t l
unfolding flatten_below in_buckets member
member-flatten_below a t [] = refl
member-flatten_below a t ((u, ids) ∷ l) =
    ground (arith, member-flatten_below a t l, member-append a ids (flatten_below t l))

-- an asset that no bucket holds
in_buckets_none :
    (a : String) (t : ℤ) (l : List (ℤ × IdSet))
    → All (λ e. member a e.1 ≡ false) l
    → in_buckets a t l ≡ false
unfolding in_buckets
in_buckets_none a t [] h = refl
in_buckets_none a t ((u, ids) ∷ l) h = ground (arith, in_buckets_none a t l h.1)

-- an asset that exactly the bucket of its time holds
in_buckets_one :
    (a : String) (t x : ℤ) (l : List (ℤ × IdSet))
    → All (λ e. member a e.1 ≡ eqb_ℤ x e.0) l
    → in_buckets a t l ≡ (ltb_ℤ x t && elim (find x l) [ none ↦ false | some _ ↦ true ])
unfolding in_buckets find
in_buckets_one a t x [] h = ground arith
in_buckets_one a t x ((u, ids) ∷ l) h =
    ground (arith, h.0, in_buckets_one a t x l h.1, eqb_ℤ_iff x u)

module _ (S : SortedDict) where
  -- looking every listed key up again gives back the listed buckets
  extend_each-below :
      (m : S.Map IdSet) (t : ℤ) (l : List (ℤ × IdSet))
      → All (λ e. SortedDict.get S m e.0 ≡ some e.1) l
      → extend_each S m (below t l) ≡ flatten_below t l
  unfolding extend_each below flatten_below
  extend_each-below m t [] f = refl
  extend_each-below m t ((u, ids) ∷ l) f = ground (arith, f.0, extend_each-below m t l f.1)

  get_expiring_before-flatten :
      (s : AssetRegistry S) (t : ℤ)
      → get_expiring_before S s t ≡ flatten_below t (S.items s.by_expiration)
  unfolding get_expiring_before
  get_expiring_before-flatten s t =
      let m = s.by_expiration in
      rw (S.irange_below-items m t)
        (extend_each-below m t (S.items m) (find_each (S.items m) (S.items-IsSorted m)))

-- the assets stand in an order of non-descending expiration, from a bound on
abbrev pub AscendingFrom : (S : SortedDict) → AssetRegistry S → ℤ → List String → Type 0
AscendingFrom S s lo [] = Unit
AscendingFrom S s lo (a ∷ ids) =
    (e : AssetEntry) × (get s.assets a ≡ some e)
    × (lo ≤ℤ e.expiration_ts)
    × AscendingFrom S s e.expiration_ts ids

module _ (S : SortedDict) (s : AssetRegistry S) (h : IsCoherent S s) where
  bucket_of :
      (a : String) (u : ℤ) (ids : IdSet)
      → SortedDict.get S s.by_expiration u ≡ some ids
      → member a ids
        ≡ holds (λ e. ltb_ℤ (pos 0) e.expiration_ts && eqb_ℤ e.expiration_ts u) (get s.assets a)
  bucket_of a u ids f = ground (arith, h.expiration_index a u)

  buckets : All (λ e. SortedDict.get S s.by_expiration e.0 ≡ some e.1) (S.items s.by_expiration)
  buckets = find_each (S.items s.by_expiration) (S.items-IsSorted s.by_expiration)

  -- the listing, searched for an asset whose entry is known to be `o`
  in_buckets-holds :
      (a : String) (t : ℤ) (o : Option AssetEntry)
      → get s.assets a ≡ o
      → in_buckets a t (S.items s.by_expiration)
        ≡ holds (λ e. ltb_ℤ (pos 0) e.expiration_ts && ltb_ℤ e.expiration_ts t) o
  unfolding member
  in_buckets-holds a t none k = in_buckets_none a t (S.items s.by_expiration) (
      All-map _ _ (λ e f. ground (arith, bucket_of a e.0 e.1 f, k)) (S.items s.by_expiration)
        buckets)
  in_buckets-holds a t (some x) k = elim (Bool-cases (ltb_ℤ (pos 0) x.expiration_ts)) [
    | inl known ↦ ground (
      arith,
      known,
      h.expiration_index a x.expiration_ts,
      k,
      in_buckets_one a t x.expiration_ts (S.items s.by_expiration) (
          All-map _ _ (λ e f. ground (arith, bucket_of a e.0 e.1 f, k, known))
            (S.items s.by_expiration) buckets),
    )
    | inr unknown ↦ ground (
      arith,
      unknown,
      in_buckets_none a t (S.items s.by_expiration) (
          All-map _ _ (λ e f. ground (arith, bucket_of a e.0 e.1 f, k, unknown))
            (S.items s.by_expiration) buckets),
    )
  ]

  -- `get_expiring_before` returns exactly the assets with a known expiration before the time: those
  -- with 0 < expiration_ts < timestamp.
  pub member-get_expiring_before :
      (a : String) (timestamp : ℤ)
      → member a (get_expiring_before S s timestamp)
        ≡ holds
            (λ e. ltb_ℤ (pos 0) e.expiration_ts && ltb_ℤ e.expiration_ts timestamp)
            (get s.assets a)
  member-get_expiring_before a timestamp =
      rw (get_expiring_before-flatten, member-flatten_below)
        (in_buckets-holds a timestamp (get s.assets a) refl)

  Ascending_weaken :
      (lo hi : ℤ) (ids : List String)
      → lo ≤ℤ hi
      → AscendingFrom S s hi ids
      → AscendingFrom S s lo ids
  Ascending_weaken lo hi [] p q = tt
  Ascending_weaken lo hi (a ∷ ids) p (e, k, le, rest) = (e, k, omega arith, rest)

  Ascending-append :
      (lo u : ℤ) (ids rest : List String)
      → lo ≤ℤ u
      → All (λ a. (e : AssetEntry) × (get s.assets a ≡ some e) × (e.expiration_ts ≡ u)) ids
      → AscendingFrom S s u rest
      → AscendingFrom S s lo (ids ++ rest)
  Ascending-append lo u [] rest p q r = Ascending_weaken lo u rest p r
  Ascending-append lo u (a ∷ ids) rest p ((e, k, same), q) r =
      (e, k, rw same p, rw same (Ascending-append u u ids rest (omega arith) q r))

  entry_in_bucket :
      (a : String) (u : ℤ) (ids : IdSet)
      → SortedDict.get S s.by_expiration u ≡ some ids
      → member a ids ≡ true
      → (e : AssetEntry) × (get s.assets a ≡ some e) × (e.expiration_ts ≡ u)
  entry_in_bucket a u ids f m = elim (Option-cases (get s.assets a)) [
    | inl k ↦ absurd (ground (arith, bucket_of a u ids f))
    | inr (e, k) ↦ (e, k, (eqb_ℤ_iff e.expiration_ts u).0 (ground (arith, bucket_of a u ids f)))
  ]

  Ascending-flatten_below :
      (lo t : ℤ) (l : List (ℤ × IdSet))
      → Above lo l
      → IsSorted l
      → All (λ e. SortedDict.get S s.by_expiration e.0 ≡ some e.1) l
      → AscendingFrom S s lo (flatten_below t l)
  unfolding flatten_below
  Ascending-flatten_below lo t [] p q f = tt
  Ascending-flatten_below lo t ((u, ids) ∷ l) p q f =
      let later = Ascending-flatten_below u t l q.0 q.1 f.1 in
      if-elim (AscendingFrom S s lo) (ltb_ℤ u t)
        (λ _.
          Ascending-append lo u ids (flatten_below t l) (omega (arith, p.0))
            (All-member _ ids (λ a m. entry_in_bucket a u ids f.0 m)) later)
        (λ _. Ascending_weaken lo u (flatten_below t l) (omega (arith, p.0)) later)

  key_positive : (u : ℤ) (ids : IdSet) → SortedDict.get S s.by_expiration u ≡ some ids → pos 0 <ℤ u
  unfolding member
  key_positive u [] f = absurd (h.buckets_filled u f)
  key_positive u (a ∷ ids) f = ground (arith, bucket_of a u (a ∷ ids) f, eq_iff a a)

  -- `get_expiring_before` lists the assets by expiration, earliest first.
  pub get_expiring_before-Ascending :
      (timestamp : ℤ) → AscendingFrom S s (pos 0) (get_expiring_before S s timestamp)
  get_expiring_before-Ascending timestamp = rw get_expiring_before-flatten (
      Ascending-flatten_below (pos 0) timestamp (S.items s.by_expiration)
        (All-map _ _ (λ e f. key_positive e.0 e.1 f) (S.items s.by_expiration) buckets)
        (S.items-IsSorted s.by_expiration) buckets)
