-- ===== src/Exercises/Router/Delivery.antt =====
-- The whole run of the loop of src/exercises/message_router.py, to the sentinel and what it leaves.
use polypy.Prelude.{ℕ, ◌≤◌, ◌<◌, String, ◌≡◌, refl, Option, none, some, List, [], ◌∷◌, arith}
use polypy.Prelude.Int.{ℤ}
use polypy.Prelude.Dict.{Dict, get}
use polypy.Prelude.Table.{find}
use polypy.Exercises.StateMachine.{Message}
use polypy.Exercises.Router.{
  MessageRouter, Got, event, timeout, sentinel, message, init, get_max_sm_threshold, count_of,
}
use polypy.Exercises.Router.Balance.{AreNames, IsBalanced, tally}
use polypy.Exercises.Router.Routing.{IsFaithful}

-- the messages that the loop takes before it stops
abbrev routed_in : Got → List Message → List Message
routed_in event ms = []
routed_in timeout ms = ms
routed_in sentinel ms = []
routed_in (message waited m) ms = m ∷ ms

unfoldable pub routed : List Got → List Message
routed [] = []
routed (g ∷ gs) = routed_in g (routed gs)

-- the router that a run returns: faithful, and no process over the limit
abbrev pub Delivers : Option MessageRouter → ℕ → List Message → Type 0
Delivers o limit ms =
    (r : MessageRouter) × (o ≡ some r)
    × IsFaithful r ms
    × ((name : String) → count_of r.process_sm_counter name ≤ limit)

threshold_positive : (n : ℕ) (cpus : Option ℕ) → 0 < get_max_sm_threshold n cpus
unfolding get_max_sm_threshold
threshold_positive n none = omega arith
threshold_positive n (some c) = ground arith

module _ (names : ℕ → String) (distinct : AreNames names) (received : List (List ℤ)) where
  pub init-IsBalanced :
      (num_workers : ℕ) (cpus : Option ℕ) → IsBalanced names (init num_workers cpus)
  unfolding init get find tally
  init-IsBalanced num_workers cpus = record {
    positive = threshold_positive num_workers cpus;
    known = λ id name h. ground (arith, h);
    counted = λ name. refl;
    bounded = λ name. omega arith;
    started = λ name h. absurd (ground (arith, h));
    idle = λ name h. refl;
  }
