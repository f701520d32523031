-- ===== src/Exercises/Tests.antt =====
-- The training programs (src/exercises) at concrete messages.
use polypy.Prelude.{ℕ, zero, suc, ◌≡◌, refl, String, true, false, some, List, [], ◌∷◌, arith}
use polypy.Prelude.Int.{ℤ, pos, negsuc}
use polypy.Prelude.Table.{find}
use polypy.Exercises.StateMachine.{
  PriceLevel, buy, book, price_change, book_message, price_change_message, Message, StateMachine,
  Turn, Taken, empty, sentinel, message, binary_search, run,
}
use polypy.Exercises.StateMachine.Levels.{rank}
use polypy.Exercises.StateMachine.Search.{binary_search-rank}
use polypy.Exercises.StateMachine.Books.{Runs, handled, IsMachine, run_shows}
use polypy.Exercises.Router.{Got}

abbrev level : ℕ → ℕ → PriceLevel
level p n = record { price = p; size = pos n }

abbrev ladder : List PriceLevel
ladder = level 60 5 ∷ level 50 2 ∷ level 40 7 ∷ []

ladder_found : binary_search ladder 45 true ≡ some 2
unfolding binary_search
ladder_found = refl

binary_search-rank_example : binary_search ladder 45 true ≡ some (rank true 45 ladder)
binary_search-rank_example =
    binary_search-rank true 45 ladder ((refl, (refl, tt)), ((refl, tt), (tt, tt)))

abbrev opening : Message
opening = record {
  worker_id = 3;
  event_type = book;
  body =
      book_message (record { price = 50; size = pos 2 } ∷ record { price = 60; size = pos 5 } ∷ [])
        (record { price = 70; size = pos 1 } ∷ []);
}

abbrev change : ℕ → ℤ → Message
change p z = record {
  worker_id = 3;
  event_type = price_change;
  body = price_change_message p z buy;
}

abbrev turn : Taken → Turn
turn t = record { event_set = false; taken = t }

abbrev turns : List Turn
turns =
    turn (message (pos 1) opening)
    ∷ turn empty
    ∷ turn (message (pos 2) (change 50 (pos 0)))
    ∷ turn (message (pos 3) (change 55 (negsuc 0)))
    ∷ turn sentinel
    ∷ []

abbrev machine : StateMachine
machine = record { active_states = []; message_latencies = [] }

machine-IsMachine : IsMachine machine
unfolding find
machine-IsMachine id =
    (record { sorted = tt; placed = λ p. refl }, record { sorted = tt; placed = λ p. refl })

run_shows_example : Runs (run turns machine) machine (handled turns)
unfolding handled
run_shows_example = run_shows turns machine (omega arith) machine-IsMachine

-- P, PP, PPP and so on
process_names : ℕ → String
process_names zero = "P"
process_names (suc n) = String.◌∷◌ "P" (process_names n)

characters : String → ℕ
characters String.[] = 0
characters (String.◌∷◌ c s) = suc (characters s)

abbrev got : List Got
got =
    Got.message (pos 1) opening
    ∷ Got.timeout
    ∷ Got.message (pos 2) (change 50 (pos 0))
    ∷ Got.sentinel
    ∷ []
