-- ===== src/Lifecycle/Watching.antt =====
-- What the lifecycle controller's tasks keep while they take turns (src/lifecycle/controller.py).
use polypy.Prelude.{◌≡◌, refl, String, true, false, none, some, List, [], ◌∷◌, arith, if-elim}
use polypy.Prelude.Ids.{member, member-add}
use polypy.SortedDict.{SortedDict}
use polypy.Registry.Coherence.{IsCoherent}
use polypy.Registry.Coherence.Adding.{add_asset_locked-IsCoherent}
use polypy.Registry.Runs.{apply-IsCoherent}
use polypy.Lifecycle.{discover_markets, add_market_manually}
use polypy.Lifecycle.Discovery.{discover_markets_once, known_kept}
use polypy.Lifecycle.Expiry.{check_expirations_expires, cleanup_expired_removes}
use polypy.Lifecycle.Tasks.{
  Event, discovery, expiration, cleanup, manual, elsewhere, Managed, stop, step, run,
}

-- the events that are not wake-ups of a loop
abbrev pub others : List Event → List Event
others [] = []
others (discovery now fetched ∷ events) = others events
others (expiration now ∷ events) = others events
others (cleanup now ∷ events) = others events
others (manual now a c t ∷ events) = manual now a c t ∷ others events
others (elsewhere op ∷ events) = elsewhere op ∷ others events

module _ (S : SortedDict) where
  step-IsCoherent :
      (e : Event) (m : Managed S)
      → IsCoherent S m.controller.registry
      → IsCoherent S (step S e m).controller.registry
  unfolding step
  step-IsCoherent (discovery now none) m h = unfold discover_markets in ground (arith, h)
  step-IsCoherent (discovery now (some markets)) m h =
      let P : Managed S → Type 0 = λ m'. IsCoherent S m'.controller.registry in
      if-elim P m.running
        (λ _.
          if-elim P m.session (λ _. (discover_markets_once S now now markets m.controller h).0)
            (λ _. h))
        (λ _. h)
  step-IsCoherent (expiration now) m h =
      if-elim (λ (m' : Managed S). IsCoherent S m'.controller.registry) m.running
        (λ _. (check_expirations_expires S now m.controller.registry h).1) (λ _. h)
  step-IsCoherent (cleanup now) m h =
      if-elim (λ (m' : Managed S). IsCoherent S m'.controller.registry) m.running
        (λ _. (cleanup_expired_removes S now m.controller.registry h).1) (λ _. h)
  step-IsCoherent (manual now a c t) m h =
      unfold add_market_manually in add_asset_locked-IsCoherent S m.controller.registry h now a c t
  step-IsCoherent (elsewhere op) m h = apply-IsCoherent S op m.controller.registry h

  step_knows :
      (k : String) (e : Event) (m : Managed S)
      → member k m.controller.known_conditions ≡ true
      → member k (step S e m).controller.known_conditions ≡ true
  unfolding step
  step_knows k (discovery now none) m h = unfold discover_markets in ground (arith, h)
  step_knows k (discovery now (some markets)) m h =
      unfold discover_markets in ground (arith, h, known_kept S now k markets m.controller h)
  step_knows k (expiration now) m h = ground (arith, h)
  step_knows k (cleanup now) m h = ground (arith, h)
  step_knows k (manual now a c t) m h =
      unfold add_market_manually in ground (arith, h, member-add c k m.controller.known_conditions)
  step_knows k (elsewhere op) m h = h

  -- However the wake-ups of the three loops, manual additions and the operations of the other parts take
  -- turns, whether the controller runs or not: a coherent registry stays coherent, and a condition
  -- that is known stays known.
  pub run_watches :
      (events : List Event) (m : Managed S)
      → IsCoherent S m.controller.registry
      → IsCoherent S (run S events m).controller.registry
        × ((k : String)
            → member k m.controller.known_conditions ≡ true
            → member k (run S events m).controller.known_conditions ≡ true)
  unfolding run
  run_watches [] m h = (h, λ k known. known)
  run_watches (e ∷ events) m h =
      let (coherent, knows) = run_watches events (step S e m) (step-IsCoherent e m h) in
      (coherent, λ k known. knows k (step_knows k e m known))

  idle_run :
      (events : List Event) (m : Managed S)
      → m.running ≡ false
      → run S events m ≡ run S (others events) m
  unfolding run step
  idle_run [] m off = refl
  idle_run (discovery now fetched ∷ events) m off = ground (arith, off, idle_run events m off)
  idle_run (expiration now ∷ events) m off = ground (arith, off, idle_run events m off)
  idle_run (cleanup now ∷ events) m off = ground (arith, off, idle_run events m off)
  idle_run (manual now a c t ∷ events) m off = idle_run events (step S (manual now a c t) m) off
  idle_run (elsewhere op ∷ events) m off = idle_run events (step S (elsewhere op) m) off

  -- After a `stop` the loops do nothing: whatever wake-ups come, the controller and the registry are as
  -- if only the other events had happened.
  pub stop_silences :
      (events : List Event) (m : Managed S)
      → run S events (stop S m) ≡ run S (others events) (stop S m)
  unfolding stop
  stop_silences events m = idle_run events (stop S m) (ground arith)
