-- ===== src/Router/Assignment.antt =====
-- Which worker a message goes to (src/router.py): the hash decides, the cache only remembers.
use polypy.Prelude.{
  ℕ, zero, suc, ◌+◌, ◌<◌, String, ◌≡◌, refl, sym, ap, ◌∙◌, Bool, true, false, some, List, [], ◌∷◌,
  ◌++◌, length, length-append, eqb, Option-elim, arith, if◌then◌else◌, eq_iff,
}
use mathlib.Core.List.{append_assoc, append-nil}
use polypy.Prelude.Dict.{Dict, get, put, get-put}
use polypy.Messages.{Floats, ParsedMessage}
use polypy.Router.{Item, hash_to_worker, push_at, replicate, worker_for_asset, group}

-- bs[w]
abbrev pub nth {ℓ} : {A : Type ℓ} → List (List A) → ℕ → List A
nth [] w = []
nth (b ∷ bs) zero = b
nth (b ∷ bs) (suc w) = nth bs w

abbrev pub total {ℓ} : {A : Type ℓ} → List (List A) → ℕ
total [] = 0
total (b ∷ bs) = length b + total bs

module _ {ℓ} {A : Type ℓ} where
  length-push_at : (bs : List (List A)) (i : ℕ) (x : A) → length (push_at bs i x) ≡ length bs
  unfolding push_at
  length-push_at [] i x = refl
  length-push_at (b ∷ bs) zero x = refl
  length-push_at (b ∷ bs) (suc i) x = omega (arith, length-push_at bs i x)

  nth-push_at :
      (bs : List (List A)) (i w : ℕ) (x : A)
      → i < length bs
      → nth (push_at bs i x) w ≡ (if eqb i w then nth bs w ++ x ∷ [] else nth bs w)
  unfolding push_at
  nth-push_at [] i w x h = elim h [ ]
  nth-push_at (b ∷ bs) zero zero x h = refl
  nth-push_at (b ∷ bs) zero (suc w) x h = ground arith
  nth-push_at (b ∷ bs) (suc i) zero x h = ground arith
  nth-push_at (b ∷ bs) (suc i) (suc w) x h = ground (arith, nth-push_at bs i w x)

  total-push_at :
      (bs : List (List A)) (i : ℕ) (x : A) → i < length bs → total (push_at bs i x) ≡ total bs + 1
  unfolding push_at
  total-push_at [] i x h = elim h [ ]
  total-push_at (b ∷ bs) zero x h = omega (arith, length-append b (x ∷ []))
  total-push_at (b ∷ bs) (suc i) x h = omega (arith, total-push_at bs i x (omega arith))

regroup {ℓ} :
    {A : Type ℓ} (b : Bool) (xs ys : List A) (x : A)
    → (if b then xs ++ x ∷ [] else xs) ++ ys ≡ xs ++ (if b then x ∷ ys else ys)
regroup true xs ys x = append_assoc xs (x ∷ []) ys
regroup false xs ys x = refl

module _ {ℓ} (A : Type ℓ) where
  pub nth-replicate : (n w : ℕ) → nth (replicate {A = List A} n []) w ≡ []
  nth-replicate zero w = refl
  nth-replicate (suc n) zero = refl
  nth-replicate (suc n) (suc w) = nth-replicate n w

  pub length-replicate : (n : ℕ) → length (replicate {A = List A} n []) ≡ n
  length-replicate zero = refl
  length-replicate (suc n) = omega (arith, length-replicate n)

  pub total-replicate : (n : ℕ) → total (replicate {A = List A} n []) ≡ 0
  total-replicate zero = refl
  total-replicate (suc n) = omega (arith, total-replicate n)

module _ (md5 : String → List ℕ) (n : ℕ) where
  -- every cached worker is the hashed one
  abbrev pub IsRightCache : Dict ℕ → Type 0
  IsRightCache cache = (a : String) (w : ℕ) → get cache a ≡ some w → w ≡ hash_to_worker md5 a n

  put_right :
      (a : String) (cache : Dict ℕ)
      → IsRightCache cache
      → IsRightCache (put cache a (hash_to_worker md5 a n))
  put_right a cache right b w e =
      ground (arith, right b w, get-put cache a b (hash_to_worker md5 a n), eq_iff a b)

  -- The cache never changes the answer: with a right cache an asset goes to its hashed worker, a
  -- worker that exists, and the cache that is left is right.
  pub worker_for_asset_stable :
      (a : String) (cache : Dict ℕ)
      → 0 < n
      → IsRightCache cache
      → ((worker_for_asset md5 n a cache).1 ≡ hash_to_worker md5 a n)
        × ((worker_for_asset md5 n a cache).1 < n)
        × IsRightCache (worker_for_asset md5 n a cache).0
  unfolding worker_for_asset
  worker_for_asset_stable a cache h right =
      let in_range : hash_to_worker md5 a n < n = unfold hash_to_worker in omega arith in
      Option-elim
        (λ (r : Dict ℕ × ℕ). (r.1 ≡ hash_to_worker md5 a n) × (r.1 < n) × IsRightCache r.0)
        (get cache a) (λ _. (refl, in_range, put_right a cache right))
        (λ w e. (right a w e, rw (right a w e) in_range, right))

module _ (F : Floats) (md5 : String → List ℕ) (n : ℕ) where
  -- the messages of a batch whose asset hashes to a worker, in the batch's order
  unfoldable pub assigned : ℕ → List (String × ParsedMessage F × ℕ) → List (Item F)
  assigned w [] = []
  assigned w ((_, m, ts) ∷ batch) =
      if eqb (hash_to_worker md5 m.asset_id n) w
      then (m, ts) ∷ assigned w batch
      else assigned w batch

  -- what the grouping loop leaves
  pub record IsGrouped (batch : List (String × ParsedMessage F × ℕ)) (bs : List (List (Item F)))
      (r : Dict ℕ × List (List (Item F))) : Type 0 where
    pub cache : IsRightCache md5 n r.0
    pub groups : (w : ℕ) → nth r.1 w ≡ nth bs w ++ assigned w batch
    pub count : total r.1 ≡ total bs + length batch
    pub size : length r.1 ≡ n

  group-IsGrouped :
      (batch : List (String × ParsedMessage F × ℕ)) (cache : Dict ℕ) (bs : List (List (Item F)))
      → 0 < n
      → IsRightCache md5 n cache
      → length bs ≡ n
      → IsGrouped batch bs (group F md5 n batch cache bs)
  unfolding group assigned
  group-IsGrouped [] cache bs h right len = record {
    cache = right;
    groups = λ w. sym (append-nil (nth bs w));
    count = omega arith;
    size = len;
  }
  group-IsGrouped ((c, m, ts) ∷ batch) cache bs h right len =
      let (hashed, lt, right') = worker_for_asset_stable md5 n m.asset_id cache h right in
      let (cache', v) = worker_for_asset md5 n m.asset_id cache in
      let later =
        group-IsGrouped batch cache' (push_at bs v (m, ts)) h right'
          (length-push_at bs v (m, ts) ∙ len) in
      record {
        cache = later.cache;
        groups = λ w.
            later.groups w
            ∙ ap (λ (l : List (Item F)). l ++ assigned w batch)
                (nth-push_at bs v w (m, ts) (omega arith))
            ∙ ap
                (λ (k : ℕ).
                  (if eqb k w then nth bs w ++ (m, ts) ∷ [] else nth bs w) ++ assigned w batch)
                hashed
            ∙ regroup (eqb (hash_to_worker md5 m.asset_id n) w) (nth bs w) (assigned w batch)
                (m, ts);
        count = omega (arith, later.count, total-push_at bs v (m, ts) (omega arith));
        size = later.size;
      }

  -- `_route_batch` groups from empty lists, one for each worker: each message once, to the worker of
  -- its asset, in order.
  pub group_empty :
      (batch : List (String × ParsedMessage F × ℕ)) (cache : Dict ℕ)
      → 0 < n
      → IsRightCache md5 n cache
      → IsGrouped batch
          (replicate {A = List (Item F)} n [])
          (group F md5 n batch cache (replicate {A = List (Item F)} n []))
  group_empty batch cache h right =
      group-IsGrouped batch cache (replicate {A = List (Item F)} n []) h right
        (length-replicate (Item F) n)
