-- ===== src/Worker/Polling.antt =====
-- What the manager of the workers (src/worker/manager.py) promises of a query.
use polypy.Prelude.{
  ℕ, String, ◌≡◌, refl, true, Option, none, some, List, [], ◌∷◌, ◌++◌, length, drop, ltb, ◌==◌,
  eq_iff, arith, if-elim,
}
use polypy.Prelude.Int.{ℤ}
use polypy.Messages.{Floats}
use polypy.Worker.{OrderbookResponse}
use polypy.Worker.Loop.{Incoming, request}
use polypy.Worker.Manager.{
  poll_one, wait_response, failed_response, input_queue_size, query_orderbook,
}

module _ (F : Floats) where
  abbrev pub Response : Type 0
  Response = OrderbookResponse F

  -- what is found is the query's own
  abbrev IsOwn : String → Option Response → Type 0
  IsOwn id none = Unit
  IsOwn id (some r) = r.request_id ≡ id

  poll_one-IsOwn :
      (id : String) (capacity : ℕ) (q : List Response) → IsOwn id (poll_one F id capacity q).1
  unfolding poll_one
  poll_one-IsOwn id capacity [] = tt
  poll_one-IsOwn id capacity (r ∷ rs) =
      if-elim (λ (x : List Response × Option Response). IsOwn id x.1) (r.request_id == id)
        (λ e. (eq_iff r.request_id id).0 e) (λ _. tt)

  wait_response-IsOwn :
      (id : String) (capacity : ℕ) (polls : List (List Response)) (q : List Response)
      → IsOwn id (wait_response F id capacity polls q).1
  unfolding wait_response
  wait_response-IsOwn id capacity [] q = tt
  wait_response-IsOwn id capacity (arrived ∷ polls) q =
      go _ _ (poll_one F id capacity (q ++ arrived)).1 (poll_one-IsOwn id capacity (q ++ arrived))
        (wait_response-IsOwn id capacity polls (poll_one F id capacity (q ++ arrived)).0)
    where
      go :
          (rest : List Response) (later : List Response × Option Response) (found : Option Response)
          → IsOwn id found
          → IsOwn id later.1
          → IsOwn id
              (elim found as (λ _. List Response × Option Response) [
                | some r ↦ (rest, some r)
                | none ↦ later
              ]).1
      go rest later none h l = l
      go rest later (some r) h l = h

  -- the request is put at the end of a queue with room
  pub query_orderbook_asks :
      (id asset_id : String) (depth : ℤ) (taken capacity : ℕ) (polls : List (List Response))
      (queue : List (Incoming F)) (responses : List Response)
      → ltb (length (drop taken queue)) input_queue_size ≡ true
      → (query_orderbook F id asset_id depth taken capacity polls queue responses).0
        ≡ drop taken queue
          ++ request (record { request_id = id; asset_id = asset_id; depth = depth }) ∷ []
  unfolding query_orderbook
  query_orderbook_asks id asset_id depth taken capacity polls queue responses room =
      ground (arith, room)

  -- What a query returns is under its own identifier, on every branch: found, timed out, or the worker's
  -- queue full.
  pub query_orderbook-IsOwn :
      (id asset_id : String) (depth : ℤ) (taken capacity : ℕ) (polls : List (List Response))
      (queue : List (Incoming F)) (responses : List Response)
      → (query_orderbook F id asset_id depth taken capacity polls queue responses).2.request_id ≡ id
  unfolding query_orderbook
  query_orderbook-IsOwn id asset_id depth taken capacity polls queue responses =
      if-elim (λ (x : List (Incoming F) × List Response × Response). x.2.request_id ≡ id)
        (ltb (length (drop taken queue)) input_queue_size)
        (λ _.
          go (wait_response F id capacity polls responses).1
            (wait_response-IsOwn id capacity polls responses))
        (λ _. refl)
    where
      go :
          (found : Option Response)
          → IsOwn id found
          → (elim found as (λ _. Response) [
            | none ↦ failed_response F id asset_id "Request timeout"
            | some r ↦ r
          ]).request_id
            ≡ id
      go none h = refl
      go (some r) h = h
