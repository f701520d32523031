-- ===== src/Registry/Indices.antt =====
-- What the writes to an index of the registry change in it (src/registry/asset_registry.py).
use polypy.Prelude.{
  String, ◌≡◌, refl, ◌≢◌, false, ◌&&◌, ◌||◌, not, Option, none, some, [], ◌∷◌, ◌==◌, eq_iff, arith,
  Option-cases, inl, inr, if◌then◌else◌,
}
use polypy.Prelude.Int.{ℤ, pos, ltb_ℤ, eqb_ℤ, eqb_ℤ_iff}
use polypy.Prelude.Ids.{IdSet, member, add, discard, member-add, member-discard, add-ne-nil}
use polypy.Prelude.Dict.{Dict, get, put, remove, get-put, get-remove}
use polypy.SortedDict
use polypy.SortedDict.{SortedDict}
use polypy.SortedDict.Laws.{get-set_item, get-pop}
use polypy.Registry.{move_status}
use polypy.Registry.Entry.{AssetStatus, status_eq, set_at}
use polypy.Registry.Queries.{expiring_at}
use polypy.Registry.Updates.{
  ensure, keep_bucket, index_expiration, unindex_expiration, discard_at, discard_connection,
}

module _ (d : Dict IdSet) (c k : String) where
  pub set_at-put : (ids : IdSet) → set_at (put d c ids) k ≡ (if c == k then ids else set_at d k)
  set_at-put ids = ground (arith, get-put d c k ids)

  pub set_at-ensure : set_at (ensure d c) k ≡ set_at d k
  unfolding ensure
  set_at-ensure = ground (arith, get-put d c k [], eq_iff c k)

  pub set_at-remove : set_at (remove d c) k ≡ (if c == k then [] else set_at d k)
  set_at-remove = ground (arith, get-remove d c k)

  pub member-discard_at :
      (a b : String)
      → member b (set_at (discard_at d c a) k)
        ≡ (if a == b && c == k then false else member b (set_at d k))
  unfolding discard_at member
  member-discard_at a b = elim (Option-cases (get d c)) [
    | inl e ↦ rw (e, discard_at) (ground (arith, e, eq_iff c k, eq_iff a b))
    | inr (ids, e) ↦
        ground (arith, e, get-put d c k (discard a ids), member-discard a b ids, eq_iff c k)
  ]

-- A discard at the entry's connection can only take the discarded asset out.
pub member-discard_connection :
    (d : Dict IdSet) (o : Option String) (k a b : String)
    → (a == b) ≡ false
    → member b (set_at (discard_connection d o a) k) ≡ member b (set_at d k)
unfolding discard_connection
member-discard_connection d none k a b h = refl
member-discard_connection d (some c) k a b h = ground (arith, member-discard_at d c k a b)

pub member-move_status :
    (a b : String) (old new st : AssetStatus) (f : AssetStatus → IdSet)
    → member b (move_status a old new f st) ≡ (
        if a == b
        then status_eq new st || (not (status_eq old st) && member b (f st))
        else member b (f st))
unfolding move_status
member-move_status a b old new st f = ground (
  arith,
  member-add a b (f new),
  member-add a b (discard a (f old)),
  member-discard a b (f old),
  eq_iff a b,
)

module _ (S : SortedDict) where
  open S use {Map}

  get-keep_bucket :
      (m : Map IdSet) (t u : ℤ) (ids : IdSet)
      → SortedDict.get S (keep_bucket S m t ids) u ≡ (
          if eqb_ℤ t u
          then elim ids [ [] ↦ none | x ∷ xs ↦ some (x ∷ xs) ]
          else SortedDict.get S m u)
  unfolding keep_bucket
  get-keep_bucket m t u [] = get-pop S m t u
  get-keep_bucket m t u (x ∷ xs) = get-set_item S m t u (x ∷ xs)

  module _ (a b : String) (t u : ℤ) (m : Map IdSet) where
    pub member-index_expiration :
        member b (expiring_at S (index_expiration S a t m) u)
        ≡ ((a == b && ltb_ℤ (pos 0) t && eqb_ℤ t u) || member b (expiring_at S m u))
    unfolding index_expiration
    member-index_expiration = ground (
      arith,
      get-set_item S m t u (add a (expiring_at S m t)),
      member-add a b (expiring_at S m t),
      eqb_ℤ_iff t u,
    )

    member-kept :
        (o : Option IdSet)
        → SortedDict.get S m t ≡ o
        → member b
            (expiring_at S (elim o [ none ↦ m | some ids ↦ keep_bucket S m t (discard a ids) ]) u)
          ≡ (if a == b && eqb_ℤ t u then false else member b (expiring_at S m u))
    unfolding member
    member-kept none e = ground (arith, e, eqb_ℤ_iff t u)
    member-kept (some ids) e =
        ground
          (arith, e, get-keep_bucket m t u (discard a ids), member-discard a b ids, eqb_ℤ_iff t u)

    pub member-unindex_expiration :
        member b (expiring_at S (unindex_expiration S a t m) u)
        ≡ (if a == b && eqb_ℤ t u then false else member b (expiring_at S m u))
    unfolding unindex_expiration
    member-unindex_expiration = member-kept (SortedDict.get S m t) refl

  module _ (a : String) (t u : ℤ) (m : Map IdSet) where
    pub index_expiration_filled :
        SortedDict.get S m u ≢ some [] → SortedDict.get S (index_expiration S a t m) u ≢ some []
    unfolding index_expiration
    index_expiration_filled h =
        ground (
          arith,
          get-set_item S m t u (add a (expiring_at S m t)),
          add-ne-nil a (expiring_at S m t),
        )

    pub unindex_expiration_filled :
        SortedDict.get S m u ≢ some [] → SortedDict.get S (unindex_expiration S a t m) u ≢ some []
    unfolding unindex_expiration
    unindex_expiration_filled h = elim (Option-cases (SortedDict.get S m t)) [
      | inl e ↦ ground (arith, e)
      | inr (ids, e) ↦ ground (arith, e, get-keep_bucket m t u (discard a ids))
    ]
