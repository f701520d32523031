-- ===== src/Orderbook/History.antt =====
-- The history of an orderbook (src/orderbook/orderbook.py): bounded, and captured at intervals.
use polypy.Prelude.{
  ℕ, zero, suc, ◌-◌, ◌≤◌, ◌≡◌, true, List, [], ◌∷◌, ◌++◌, length, drop, arith, if-elim,
}
use polypy.Prelude.Int.{ℤ, ◌-ℤ◌, ◌≤ℤ◌}
use polypy.SortedDict.{SortedDict}
use polypy.Orderbook.{
  OrderbookState, OrderbookSnapshot, history_maxlen, history_interval_ms, append_bounded, last?,
  capture_due, maybe_capture_snapshot, load_snapshot, load_change,
}
use polypy.Messages.{PriceChange}
use polypy.Orderbook.Reads.{taken, capture_snapshot_lem}
use polypy.Orderbook.Levels.{Update, snapshot, change, apply, run}

-- a snapshot comes a whole interval before the next
abbrev pub Before : OrderbookSnapshot → List OrderbookSnapshot → Type 0
Before x [] = Unit
Before x (y ∷ l) = history_interval_ms ≤ℤ y.timestamp -ℤ x.timestamp

abbrev pub Spaced : List OrderbookSnapshot → Type 0
Spaced [] = Unit
Spaced (x ∷ l) = Before x l × Spaced l

length-drop {ℓ} : {A : Type ℓ} (n : ℕ) (l : List A) → length (drop n l) ≡ length l - n
length-drop zero l = omega arith
length-drop (suc n) [] = omega arith
length-drop (suc n) (x ∷ l) = omega (arith, length-drop n l)

Spaced-drop : (n : ℕ) (l : List OrderbookSnapshot) → Spaced l → Spaced (drop n l)
Spaced-drop zero l h = h
Spaced-drop (suc n) [] h = h
Spaced-drop (suc n) (x ∷ l) h = Spaced-drop n l h.1

last?-cons :
    (x z : OrderbookSnapshot) (l : List OrderbookSnapshot) → last? (x ∷ z ∷ l) ≡ last? (z ∷ l)
unfolding last?
last?-cons x z l = ground arith

Spaced-snoc :
    (y : OrderbookSnapshot) (l : List OrderbookSnapshot)
    → Spaced l
    → capture_due y.timestamp (last? l) ≡ true
    → Spaced (l ++ y ∷ [])
unfolding last? capture_due
Spaced-snoc y [] h due = (tt, tt)
Spaced-snoc y (x ∷ []) h due = (ground arith, (tt, tt))
Spaced-snoc y (x ∷ z ∷ l) h due = (h.0, Spaced-snoc y (z ∷ l) h.1 (rw (last?-cons x z l) at due))

-- The history holds at most 100 snapshots, any two in a row 30 seconds apart or more.
pub record IsHistory (l : List OrderbookSnapshot) : Type 0 where
  pub bounded : length l ≤ history_maxlen
  pub spaced : Spaced l

append_bounded-IsHistory :
    (y : OrderbookSnapshot) (l : List OrderbookSnapshot)
    → IsHistory l
    → capture_due y.timestamp (last? l) ≡ true
    → IsHistory (append_bounded history_maxlen y l)
unfolding append_bounded
append_bounded-IsHistory y l h due = record {
  bounded = omega (arith, length-drop (length (l ++ y ∷ []) - 100) (l ++ y ∷ []));
  spaced = Spaced-drop (length (l ++ y ∷ []) - 100) (l ++ y ∷ []) (Spaced-snoc y l h.spaced due);
}

module _ (S : SortedDict) where
  maybe_capture_snapshot-IsHistory :
      (s : OrderbookState S) → IsHistory s.history → IsHistory (maybe_capture_snapshot S s).history
  unfolding maybe_capture_snapshot taken
  maybe_capture_snapshot-IsHistory s h =
      if-elim (λ (r : OrderbookState S). IsHistory r.history)
        (capture_due s.last_update_ts (last? s.history))
        (λ due. rw capture_snapshot_lem (append_bounded-IsHistory (taken S s) s.history h due))
        (λ _. h)

  history-load_change :
      (now : ℕ) (c : PriceChange) (t : ℤ) (s : OrderbookState S)
      → (load_change S now c t s).history ≡ s.history
  unfolding load_change
  history-load_change now c t s = ground arith

  apply-IsHistory :
      (u : Update) (s : OrderbookState S) → IsHistory s.history → IsHistory (apply S u s).history
  unfolding apply load_snapshot
  apply-IsHistory (snapshot now b t) s h =
      maybe_capture_snapshot-IsHistory (load_snapshot S now b t s) h
  apply-IsHistory (change now c t) s h =
      maybe_capture_snapshot-IsHistory (load_change S now c t s)
        (rw (history-load_change now c t s) h)

  -- After any updates the history holds at most 100 snapshots, and each comes at least 30 seconds
  -- of message time after the one before it, whatever the order of the timestamps received.
  pub run-IsHistory :
      (us : List Update) (s : OrderbookState S)
      → IsHistory s.history
      → IsHistory (run S us s).history
  unfolding run
  run-IsHistory [] s h = h
  run-IsHistory (u ∷ us) s h = run-IsHistory us (apply S u s) (apply-IsHistory u s h)
