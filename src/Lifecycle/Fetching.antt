-- ===== src/Lifecycle/Fetching.antt =====
-- What the client of the Gamma API (src/lifecycle/api.py) fetches: a page within three attempts, and the
-- pages up to the first that has no valid market.
use polypy.Prelude.{
  ℕ, zero, suc, ◌+◌, ◌*◌, ◌^◌, ◌≤◌, ◌<◌, ◌≡◌, ◌≢◌, refl, sym, ap, ◌∙◌, some, List, [], ◌∷◌, ◌++◌,
  length, take, drop, take-nil, take-add, drop-drop, drop_short, ltb, arith, Bool-cases, inl, inr,
}
use native.Mathlib.Nat.{zero-add}
use mathlib.Core.List.{append_assoc, append-nil}
use polypy.Lifecycle.{MarketInfo}
use polypy.Lifecycle.Api.{
  RawMarket, Readers, Response, page, client_error, Fetched, ok, raised, parse_valid, fetch_page,
  fetch_loop, fetch_active_markets, retry_delay,
}

-- the seconds before each of the attempts that follow the first, doubled each time
abbrev pub waits : ℕ → ℕ → List ℕ
waits i zero = []
waits i (suc k) = (retry_delay * 2 ^ i) ∷ waits (i + 1) k

suc_pages : (n p : ℕ) → suc n * p ≡ p + n * p
suc_pages n p = grind arith

no_pages : (p : ℕ) → 0 ≡ 0 * p
no_pages p = omega arith

zero_pages : (o p : ℕ) → o + 0 * p ≡ o
zero_pages o p = omega arith

shift_pages : (o i p : ℕ) → o + suc i * p ≡ o + p + i * p
shift_pages o i p = omega (arith, suc_pages i p)

module _ (R : Readers) where
  -- A page that the server gives at one of the first three attempts, after as many client errors, is fetched: its
  -- valid markets in order, and how many markets it has in all; and the client has slept 2 seconds
  -- and then 4, once for each error.
  pub fetch_page_retries :
      (respond : ℕ → Response) (k : ℕ) (d : List RawMarket)
      → k < 3
      → ((i : ℕ) → i < k → respond i ≡ client_error)
      → respond k ≡ page d
      → fetch_page R respond ≡ (ok (parse_valid R d, length d), waits 0 k)
  unfolding fetch_page
  fetch_page_retries respond zero d h before at = ground (arith, at)
  fetch_page_retries respond (suc zero) d h before at = ground (arith, before 0, at)
  fetch_page_retries respond (suc (suc zero)) d h before at = ground (arith, before 0, before 1, at)
  fetch_page_retries respond (suc (suc (suc k))) d h before at = absurd (omega arith)

  -- three client errors, or any other error, end the fetch
  pub fetch_page_gives_up :
      (respond : ℕ → Response)
      → ((i : ℕ) → i < 3 → respond i ≡ client_error)
      → fetch_page R respond ≡ (raised, waits 0 2)
  unfolding fetch_page
  fetch_page_gives_up respond errors = ground (arith, errors 0, errors 1, errors 2)

  parse_valid-append :
      (l l' : List RawMarket) → parse_valid R (l ++ l') ≡ parse_valid R l ++ parse_valid R l'
  unfolding parse_valid
  parse_valid-append [] l' = refl
  parse_valid-append (m ∷ l) l' = ground (arith, parse_valid-append l l')

  module _ (server : ℕ → ℕ → Response) (page_size : ℕ) (listed : List RawMarket) where
    abbrev pub page_at : ℕ → List RawMarket
    page_at offset = take page_size (drop offset listed)

    -- the server has a list of markets, and gives any page of it within three attempts
    abbrev pub Serves : Type 0
    Serves =
        (offset : ℕ)
        → (k : ℕ) × (k < 3)
          × ((i : ℕ) → i < k → server offset i ≡ client_error)
          × (server offset k ≡ page (page_at offset))

    module _ (serves : Serves) where
      fetched :
          (offset : ℕ)
          → (fetch_page R (server offset)).0
            ≡ ok (parse_valid R (page_at offset), length (page_at offset))
      fetched offset =
          let (k, few, before, at) = serves offset in
          ap (λ (x : Fetched (List MarketInfo × ℕ) × List ℕ). x.0)
            (fetch_page_retries (server offset) k (page_at offset) few before at)

      -- the three ways that a round of the loop ends
      round_none :
          (fuel offset : ℕ) (got : List MarketInfo)
          → length (parse_valid R (page_at offset)) ≡ 0
          → fetch_loop R (suc fuel) server page_size offset got ≡ some (ok got)
      unfolding fetch_loop
      round_none fuel offset got h = ground (arith, fetched offset, h)

      round_short :
          (fuel offset : ℕ) (got : List MarketInfo)
          → length (parse_valid R (page_at offset)) ≢ 0
          → length (page_at offset) < page_size
          → fetch_loop R (suc fuel) server page_size offset got
            ≡ some (ok (got ++ parse_valid R (page_at offset)))
      unfolding fetch_loop
      round_short fuel offset got h short = ground (arith, fetched offset, h, short)

      round_full :
          (fuel offset : ℕ) (got : List MarketInfo)
          → length (parse_valid R (page_at offset)) ≢ 0
          → page_size ≤ length (page_at offset)
          → fetch_loop R (suc fuel) server page_size offset got
            ≡ fetch_loop R fuel server page_size
                (offset + page_size)
                (got ++ parse_valid R (page_at offset))
      unfolding fetch_loop
      round_full fuel offset got h long = ground (arith, fetched offset, h, long)

      -- the first pages are a page and the first pages of the rest
      next_pages :
          (n offset : ℕ)
          → parse_valid R (take (suc n * page_size) (drop offset listed))
            ≡ parse_valid R (page_at offset)
              ++ parse_valid R (take (n * page_size) (drop (offset + page_size) listed))
      next_pages n offset =
          ap (λ k. parse_valid R (take k (drop offset listed))) (suc_pages n page_size)
          ∙ ap (parse_valid R) (take-add page_size (n * page_size) (drop offset listed))
          ∙ parse_valid-append (page_at offset) _
          ∙ ap (λ l. parse_valid R (page_at offset) ++ parse_valid R (take (n * page_size) l))
              (drop-drop offset page_size listed)

      fetch_loop_stops :
          (n offset : ℕ) (got : List MarketInfo)
          → ((i : ℕ) → i < n → length (parse_valid R (page_at (offset + i * page_size))) ≢ 0)
          → length (parse_valid R (page_at (offset + n * page_size))) ≡ 0
          → fetch_loop R (suc n) server page_size offset got
            ≡ some (ok (got ++ parse_valid R (take (n * page_size) (drop offset listed))))
      unfolding parse_valid
      fetch_loop_stops zero offset got full last =
          round_none 0 offset got (rw (zero_pages offset page_size) at last)
          ∙ ap (λ l. some (ok l)) (sym (append-nil got))
          ∙ ap (λ k. some (ok (got ++ parse_valid R (take k (drop offset listed)))))
              (no_pages page_size)
      fetch_loop_stops (suc n) offset got full last =
          let here = rw (zero_pages offset page_size) at (full 0 (omega arith)) in
          elim (Bool-cases (ltb (length (page_at offset)) page_size)) [
            | inl short ↦
                let lt : length (page_at offset) < page_size = ground arith in
                round_short (suc n) offset got here lt
                ∙ ap (λ l. some (ok (got ++ l)))
                    (sym (append-nil _)
                      ∙ ap (λ l. parse_valid R (page_at offset) ++ parse_valid R l)
                          (sym (
                            ap (take (n * page_size)) (
                              sym (drop-drop offset page_size listed)
                              ∙ drop_short page_size (drop offset listed) lt)
                            ∙ take-nil (n * page_size)))
                      ∙ sym (next_pages n offset))
            | inr long ↦
                round_full (suc n) offset got here (ground arith)
                ∙ fetch_loop_stops n (offset + page_size) (got ++ parse_valid R (page_at offset))
                    (λ i h. rw (shift_pages offset i page_size) at (full (suc i) (omega arith)))
                    (rw (shift_pages offset n page_size) at last)
                ∙ ap (λ l. some (ok l))
                    (append_assoc got (parse_valid R (page_at offset)) _
                      ∙ ap (λ l. got ++ l) (sym (next_pages n offset)))
          ]

      -- The client asks for page after page until one has no valid market. The fetch ends, and returns the valid
      -- markets of the pages before that one, in order; what the server lists after it is never
      -- seen, be it valid or not.
      pub fetch_active_markets_stops :
          (n : ℕ)
          → ((i : ℕ) → i < n → length (parse_valid R (page_at (i * page_size))) ≢ 0)
          → length (parse_valid R (page_at (n * page_size))) ≡ 0
          → fetch_active_markets R (suc n) server page_size
            ≡ some (ok (parse_valid R (take (n * page_size) listed)))
      unfolding fetch_active_markets
      fetch_active_markets_stops n full last =
          fetch_loop_stops n 0 [] (λ i h. rw (zero-add (i * page_size)) (full i h))
            (rw (zero-add (n * page_size)) last)
