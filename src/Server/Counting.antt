-- ===== src/Server/Counting.antt =====
-- What `get_subscribed_count` of src/server/websocket_handler.py counts: every client with a stream, and the
-- clients whose stream has ended with an error.
use polypy.Prelude.{
  ℕ, ◌+◌, String, ◌≡◌, true, false, none, some, [], ◌∷◌, All, arith, if◌then◌else◌,
}
use polypy.Prelude.Table.{Table, find, store}
use polypy.Server.{
  ClientSubscription, Stream, poll, Poll, found, not_found, exception, error, error_text,
  update_client, step, tick, get_subscribed_count,
}

-- a stream is for the asset of the subscription
abbrev pub IsSubscribed : ClientSubscription → Type 0
IsSubscribed c = elim c.stream_task [ none ↦ Unit | some s ↦ c.asset_id ≡ some s.asset ]

abbrev pub AllSubscribed : Table ClientSubscription → Type 0
AllSubscribed = All (λ (e : ℕ × ClientSubscription). IsSubscribed e.1)

-- 1 for a client that streams
abbrev pub streams : ClientSubscription → ℕ
streams c = elim c.stream_task [ none ↦ 0 | some s ↦ if s.done then 0 else 1 ]

unfoldable pub streaming_count : Table ClientSubscription → ℕ
streaming_count [] = 0
streaming_count ((id, c) ∷ d) = streams c + streaming_count d

-- 1 for a client that `get_subscribed_count` counts
abbrev subscribes : ClientSubscription → ℕ
subscribes c = elim c.asset_id [ none ↦ 0 | some a ↦ 1 ]

-- a poll that finds no order book
abbrev pub Fails {ℓ} : {A : Type ℓ} → Poll A → Type 0
Fails (found x) = ⊥
Fails (not_found e) = Unit
Fails (exception t) = Unit

-- the sum after a write to a client that is there
streaming_count-store :
    (d : Table ClientSubscription) (id : ℕ) (c c' : ClientSubscription)
    → find d id ≡ some c
    → streaming_count (store d id c') + streams c ≡ streaming_count d + streams c'
unfolding find store streaming_count
streaming_count-store [] id c c' e = absurd (ground (arith, e))
streaming_count-store ((j, x) ∷ d) id c c' e = ground (arith, e, streaming_count-store d id c c')

get_subscribed_count-store :
    (d : Table ClientSubscription) (id : ℕ) (c c' : ClientSubscription)
    → find d id ≡ some c
    → get_subscribed_count (store d id c') + subscribes c ≡ get_subscribed_count d + subscribes c'
unfolding find store get_subscribed_count
get_subscribed_count-store [] id c c' e = absurd (ground (arith, e))
get_subscribed_count-store ((j, x) ∷ d) id c c' e =
    ground (arith, e, get_subscribed_count-store d id c c')

module _ {ℓ} {A : Type ℓ} where
  -- When a poll of a client's stream finds no book or raises, the client is sent one error, and its stream ends for
  -- good; but the client stays counted as one that streams.
  pub ended_stream_counts :
      (id : ℕ) (p : Poll A) (d : Table ClientSubscription) (a : String) (s : Stream)
      → find d id ≡ some (record { asset_id = some a; stream_task = some s })
      → s.done ≡ false
      → Fails p
      → (get_subscribed_count (step (poll id p) d).0 ≡ get_subscribed_count d)
        × (streaming_count (step (poll id p) d).0 + 1 ≡ streaming_count d)
        × ((t : String) × ((step (poll id p) d).1 ≡ (id, error t) ∷ []))
  unfolding step update_client tick
  ended_stream_counts id (found x) d a s e live h = absurd h
  ended_stream_counts id (not_found r) d a s e live h =
      let c : ClientSubscription = record { asset_id = some a; stream_task = some s } in
      let c' : ClientSubscription = record c { stream_task = some (record s { done = true }) } in
      (
        ground (arith, e, live, get_subscribed_count-store d id c c' e),
        ground (arith, e, live, streaming_count-store d id c c' e),
        (error_text r, ground (arith, e, live)),
      )
  ended_stream_counts id (exception t) d a s e live h =
      let c : ClientSubscription = record { asset_id = some a; stream_task = some s } in
      let c' : ClientSubscription = record c { stream_task = some (record s { done = true }) } in
      (
        ground (arith, e, live, get_subscribed_count-store d id c c' e),
        ground (arith, e, live, streaming_count-store d id c c' e),
        (t, ground (arith, e, live)),
      )
