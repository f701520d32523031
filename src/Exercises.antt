-- ===== src/Exercises.antt =====
-- The training programs (src/exercises): a market simulator that keeps an order book as a sorted array
-- with an index, and a router that spreads its messages over processes.
pub mod StateMachine
pub mod Router
pub mod Tests
