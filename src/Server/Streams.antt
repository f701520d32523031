-- ===== src/Server/Streams.antt =====
-- The clients of src/server/websocket_handler.py do not disturb one another, and a stream is for the asset that
-- its client asked for.
use polypy.Prelude.{
  ℕ, ◌≡◌, refl, ap, ◌∙◌, Option, none, some, List, [], ◌∷◌, ◌++◌, eqb, eqb_iff, arith,
  if◌then◌else◌, Option-cases, inl, inr,
}
use polypy.Prelude.Table.{Table, find, find-store, find-erase}
use polypy.Server.{
  ClientSubscription, Event, connect, text_message, poll, disconnect, Sent, new_client, to_client,
  update_client, step, run, process_text_message, tick,
}

-- the number of the client that an event is of
abbrev pub client_of {ℓ} : {A : Type ℓ} → Event A → ℕ
client_of (connect id) = id
client_of (text_message id text d) = id
client_of (poll id p) = id
client_of (disconnect id) = id

module _ {ℓ} {A : Type ℓ} where
  abbrev pub update_own :
      (ClientSubscription → ClientSubscription × List (Sent A))
      → Option ClientSubscription
      → Option ClientSubscription × List (Sent A)
  update_own f none = (none, [])
  update_own f (some c) = (some (f c).0, (f c).1)

  abbrev pub step_own :
      Event A → Option ClientSubscription → Option ClientSubscription × List (Sent A)
  step_own (connect id) c = (some new_client, [])
  step_own (text_message id text d) c = update_own (process_text_message text d) c
  step_own (poll id p) c = update_own (tick p) c
  step_own (disconnect id) c = (none, [])

  -- what a client would see if it were alone: its own events only
  unfoldable pub run_own :
      ℕ → List (Event A) → Option ClientSubscription → Option ClientSubscription × List (Sent A)
  run_own id [] c = (c, [])
  run_own id (e ∷ es) c =
      let (c', sent) = if eqb (client_of e) id then step_own e c else (c, []) in
      let (c'', later) = run_own id es c' in (c'', sent ++ later)

  -- what is sent to a client
  unfoldable pub sent_to : ℕ → List (ℕ × Sent A) → List (Sent A)
  sent_to id [] = []
  sent_to id ((j, s) ∷ l) = if eqb j id then s ∷ sent_to id l else sent_to id l

  sent_to-append :
      (id : ℕ) (l l' : List (ℕ × Sent A)) → sent_to id (l ++ l') ≡ sent_to id l ++ sent_to id l'
  unfolding sent_to
  sent_to-append id [] l' = refl
  sent_to-append id ((j, s) ∷ l) l' = ground (arith, sent_to-append id l l')

  sent_to-to_client :
      (id j : ℕ) (l : List (Sent A)) → sent_to id (to_client j l) ≡ (if eqb j id then l else [])
  unfolding sent_to
  sent_to-to_client id j [] = ground arith
  sent_to-to_client id j (s ∷ l) = ground (arith, sent_to-to_client id j l)

  update_client-own :
      (j id : ℕ) (f : ClientSubscription → ClientSubscription × List (Sent A))
      (clients : Table ClientSubscription)
      → (find (update_client j f clients).0 id
          ≡ (if eqb j id then update_own f (find clients id) else (find clients id, [])).0)
        × (sent_to id (update_client j f clients).1
            ≡ (if eqb j id then update_own f (find clients id) else (find clients id, [])).1)
  unfolding update_client sent_to
  update_client-own j id f clients = elim (Option-cases (find clients j)) [
    | inl e ↦ ground (arith, e, eqb_iff j id)
    | inr (c, e) ↦
        ground
          (arith, e, eqb_iff j id, find-store clients j id (f c).0, sent_to-to_client id j (f c).1)
  ]

  step-own :
      (e : Event A) (clients : Table ClientSubscription) (id : ℕ)
      → (find (step e clients).0 id
          ≡ (if eqb (client_of e) id
              then step_own e (find clients id)
              else (find clients id, [])).0)
        × (sent_to id (step e clients).1
            ≡ (if eqb (client_of e) id
                then step_own e (find clients id)
                else (find clients id, [])).1)
  unfolding step sent_to
  step-own (connect j) clients id = ground (arith, find-store clients j id new_client)
  step-own (disconnect j) clients id = ground (arith, find-erase clients j id)
  step-own (text_message j text d) clients id =
      update_client-own j id (process_text_message text d) clients
  step-own (poll j p) clients id = update_client-own j id (tick p) clients

  -- Clients are isolated: whatever the others do in between, a client has the subscription that its own
  -- messages and polls give it, and is sent, in order, what these give, and nothing else.
  pub run_isolates :
      (es : List (Event A)) (clients : Table ClientSubscription) (id : ℕ)
      → (find (run es clients).0 id ≡ (run_own id es (find clients id)).0)
        × (sent_to id (run es clients).1 ≡ (run_own id es (find clients id)).1)
  unfolding run run_own sent_to
  run_isolates [] clients id = (refl, refl)
  run_isolates (e ∷ es) clients id =
      let (kept, sent) = step-own e clients id in
      let (later, rest) = run_isolates es (step e clients).0 id in
      (
        later ∙ ap (λ c. (run_own id es c).0) kept,
        sent_to-append id (step e clients).1 _ ∙ rw (sent, rest, kept),
      )
