-- ===== src/Connection/Receiving.antt =====
-- What a connection receives, delivers and counts (src/connection/websocket.py).
use polypy.Prelude.{ℕ, ◌+◌, ◌≡◌, refl, ◌∙◌, Bool, true, false, List, [], ◌∷◌, ◌++◌, if-elim}
use polypy.Connection.{
  closed, WebsocketConnection, Ending, closed_ok, failed, cancelled, Attempt, Generator,
  track_stats, receive_one, receive_messages, connect_and_run, disconnect, back_off, close,
  after_attempt, connection_loop, deliver,
}

abbrev pub sizes : {Bytes : Type 0} → List (ℕ × ℕ × Bytes) → ℕ
sizes [] = 0
sizes ((now, size, bytes) ∷ ms) = size + sizes ms

module _ {Bytes A E : Type 0} (parse : Bytes → Generator A E) (accepts : A → Bool) where
  -- of each message, what its generator yields up to the first item that the callback refuses
  unfoldable pub accepted : List (ℕ × ℕ × Bytes) → List A
  unfolding deliver
  accepted [] = []
  accepted ((now, size, bytes) ∷ ms) = deliver accepts (parse bytes).0 ++ accepted ms

  errors-receive_messages :
      (ms : List (ℕ × ℕ × Bytes)) (c : WebsocketConnection)
      → (receive_messages parse accepts ms c).0.stats.parse_errors ≡ c.stats.parse_errors
  unfolding receive_messages receive_one track_stats
  errors-receive_messages [] c = refl
  errors-receive_messages ((now, size, bytes) ∷ ms) c =
      errors-receive_messages ms (receive_one parse accepts (now, size, bytes) c).0

  errors-connect_and_run :
      (a : Attempt Bytes) (c : WebsocketConnection)
      → (connect_and_run parse accepts a c).0.stats.parse_errors ≡ c.stats.parse_errors
  unfolding connect_and_run
  errors-connect_and_run a c =
      if-elim
        (λ (r : WebsocketConnection × List A × Ending).
          r.0.stats.parse_errors ≡ c.stats.parse_errors)
        a.connects (λ _. errors-receive_messages a.received _) (λ _. refl)

  -- what a run of the loop keeps and how it ends
  pub record Ended (errors : ℕ) (r : WebsocketConnection × List A × Bool) : Type 0 where
    pub uncounted : r.0.stats.parse_errors ≡ errors
    pub closing : r.2 ≡ true → r.0.status ≡ closed

  after_attempt-Ended :
      (errors : ℕ) (ending : Ending) (stopped : Bool) (c : WebsocketConnection) (delivered : List A)
      (later : WebsocketConnection × List A × Bool)
      → c.stats.parse_errors ≡ errors
      → Ended errors later
      → Ended errors (after_attempt ending stopped c delivered later)
  unfolding after_attempt
  after_attempt-Ended n cancelled stopped c l later h g = record {
    uncounted = h;
    closing = λ _. refl;
  }
  after_attempt-Ended n closed_ok true c l later h g = record { uncounted = h; closing = λ _. refl }
  after_attempt-Ended n failed true c l later h g = record { uncounted = h; closing = λ _. refl }
  after_attempt-Ended n closed_ok false c l later h g = record {
    uncounted = g.uncounted;
    closing = g.closing;
  }
  after_attempt-Ended n failed false c l later h g = record {
    uncounted = g.uncounted;
    closing = g.closing;
  }

  -- However many messages fail to parse, the loop counts no parse error: the exception is raised by
  -- the generator's items and not by the call, where it would be counted. A loop that ends leaves the
  -- connection CLOSED.
  pub connection_loop-Ended :
      (attempts : List (Attempt Bytes)) (c : WebsocketConnection)
      → Ended c.stats.parse_errors (connection_loop parse accepts attempts c)
  unfolding connection_loop
  connection_loop-Ended [] c = record { uncounted = refl; closing = λ e. cc }
  connection_loop-Ended (a ∷ attempts) c =
      let e1 = errors-connect_and_run a c in
      let (c1, delivered, ending) = connect_and_run parse accepts a c in
      let again = connection_loop-Ended attempts (back_off (disconnect c1)) in
      if-elim (Ended c.stats.parse_errors) c.stop_event
        (λ _. unfold close in record { uncounted = refl; closing = λ _. refl })
        (λ _.
          after_attempt-Ended c.stats.parse_errors ending a.stop_while_waiting c1 delivered _ e1
            (record {
              uncounted = again.uncounted ∙ unfold back_off disconnect in e1;
              closing = again.closing;
            }))
