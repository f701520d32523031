-- ===== src/Connection/Backoff.antt =====
-- The reconnection of a connection (src/connection/websocket.py, `_connection_loop`): its back-off,
-- its counter and its end.
use polypy.Prelude.{
  ℕ, zero, suc, ◌+◌, ◌*◌, ◌^◌, ◌≤◌, ◌≡◌, refl, sym, ap, ◌∙◌, Bool, true, false, List, [], ◌∷◌, min,
  arith, if-elim, ◌⊎◌, inl, inr,
}
use native.Mathlib.Nat.{
  pow-suc, one-le-pow, min-eq_left, min-eq_right, mul_assoc, mul_comm, mul-le-mul_left,
}
use polypy.Connection.{
  connecting, connected, WebsocketConnection, Ending, closed_ok, failed, cancelled, Attempt,
  Generator, initial_reconnect_delay, max_reconnect_delay, track_stats, receive_one,
  receive_messages, connect_and_run, disconnect, back_off, after_attempt, connection_loop,
}

total_order : (a b : ℕ) → (a ≤ b) ⊎ (b ≤ a)
total_order a b = ground arith

-- doubling and then capping n more times is capping once at the end
doubled : (x p : ℕ) → 1 ≤ p → min (min (x * 2) 30000 * p) 30000 ≡ min (x * (p * 2)) 30000
doubled x p h = elim (total_order (x * 2) 30000) [
  | inl small ↦
      rw (min-eq_left small)
        (ap (λ y. min y 30000) (mul_assoc x 2 p ∙ ap (λ y. x * y) (mul_comm 2 p)))
  | inr large ↦
      let big : 30000 ≤ x * (p * 2) =
        omega (arith, mul-le-mul_left (x * 2) h, mul_assoc x 2 p, mul_comm 2 p) in
      rw (min-eq_right large) (min-eq_right (omega (arith, h)) ∙ sym (min-eq_right big))
]

module _ {Bytes A E : Type 0} (parse : Bytes → Generator A E) (accepts : A → Bool) where
  delay-receive_messages :
      (ms : List (ℕ × ℕ × Bytes)) (c : WebsocketConnection)
      → (receive_messages parse accepts ms c).0.reconnect_delay ≡ c.reconnect_delay
  unfolding receive_messages receive_one track_stats
  delay-receive_messages [] c = refl
  delay-receive_messages ((now, size, bytes) ∷ ms) c =
      delay-receive_messages ms (receive_one parse accepts (now, size, bytes) c).0

  -- the delay is between a second and half a minute
  abbrev pub IsPatient : WebsocketConnection → Type 0
  IsPatient c =
      (initial_reconnect_delay ≤ c.reconnect_delay) × (c.reconnect_delay ≤ max_reconnect_delay)

  connect_and_run-IsPatient :
      (a : Attempt Bytes) (c : WebsocketConnection)
      → IsPatient c
      → IsPatient (connect_and_run parse accepts a c).0
  unfolding connect_and_run
  connect_and_run-IsPatient a c h =
      if-elim (λ (r : WebsocketConnection × List A × Ending). IsPatient r.0) a.connects
        (λ _.
          let e = delay-receive_messages a.received (record c {
            status = connected;
            subscribed_asset_ids = c.asset_ids;
            reconnect_delay = initial_reconnect_delay;
          }) in
          (omega (arith, e), omega (arith, e)))
        (λ _. h)

  after_attempt-IsPatient :
      (ending : Ending) (stopped : Bool) (c : WebsocketConnection) (delivered : List A)
      (later : WebsocketConnection × List A × Bool)
      → IsPatient c
      → IsPatient later.0
      → IsPatient (after_attempt ending stopped c delivered later).0
  unfolding after_attempt
  after_attempt-IsPatient cancelled stopped c l later h g = h
  after_attempt-IsPatient closed_ok true c l later h g = h
  after_attempt-IsPatient failed true c l later h g = h
  after_attempt-IsPatient closed_ok false c l later h g = g
  after_attempt-IsPatient failed false c l later h g = g

  -- Through any attempts, connected or refused, the delay before the next one stays between one
  -- second and thirty.
  pub connection_loop-IsPatient :
      (attempts : List (Attempt Bytes)) (c : WebsocketConnection)
      → IsPatient c
      → IsPatient (connection_loop parse accepts attempts c).0
  unfolding connection_loop
  connection_loop-IsPatient [] c h = h
  connection_loop-IsPatient (a ∷ attempts) c h =
      let h1 = connect_and_run-IsPatient a c h in
      let (c1, delivered, ending) = connect_and_run parse accepts a c in
      let again =
        connection_loop-IsPatient attempts (back_off (disconnect c1))
          (unfold back_off in omega (arith, h1), unfold back_off in omega (arith, h1)) in
      if-elim (λ (r : WebsocketConnection × List A × Bool). IsPatient r.0) c.stop_event (λ _. h)
        (λ _. after_attempt-IsPatient ending a.stop_while_waiting c1 delivered _ h1 again)

  abbrev refusal : Attempt Bytes
  refusal = record { connects = false; received = []; ending = failed; stop_while_waiting = false }

  abbrev pub refusals : ℕ → List (Attempt Bytes)
  refusals zero = []
  refusals (suc n) = refusal ∷ refusals n

  -- After n refused attempts in a row the delay has doubled n times, up to thirty seconds, and each
  -- was counted; the loop goes on.
  pub refusals_back_off :
      (n : ℕ) (c : WebsocketConnection)
      → c.stop_event ≡ false
      → c.reconnect_delay ≤ max_reconnect_delay
      → let (c', delivered, ended) = connection_loop parse accepts (refusals n) c in
        (c'.reconnect_delay ≡ min (c.reconnect_delay * 2 ^ n) max_reconnect_delay)
        × (c'.stats.reconnect_count ≡ c.stats.reconnect_count + n)
        × (ended ≡ false)
  unfolding connection_loop connect_and_run disconnect back_off
  refusals_back_off zero c on h = (ground (arith, h), omega arith, refl)
  refusals_back_off (suc n) c on h =
      let next : WebsocketConnection = back_off (disconnect (record c { status = connecting })) in
      let (d, k, e) = refusals_back_off n next on (omega arith) in
      if-elim
        (λ (r : WebsocketConnection × List A × Bool).
          (r.0.reconnect_delay ≡ min (c.reconnect_delay * 2 ^ suc n) max_reconnect_delay)
          × (r.0.stats.reconnect_count ≡ c.stats.reconnect_count + suc n)
          × (r.2 ≡ false))
        c.stop_event (λ stop. cc)
        (λ _. (
          d ∙ rw (pow-suc 2 n) (doubled c.reconnect_delay (2 ^ n) (one-le-pow n 2 (omega arith))),
          omega (arith, k),
          e,
        ))
