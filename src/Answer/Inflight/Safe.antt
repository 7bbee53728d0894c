-- ===== src/Answer/Inflight/Safe.antt =====
-- No interleaving of requests closes a channel twice.
use raglibrarian.Base.{ℕ, ◌≡◌, refl, ap, Bool, List, [], ◌∷◌, some, arith}
use raglibrarian.Answer.Evidence.{ContextEvidence, Limits}
use raglibrarian.Answer.Inflight.{
  Request, idle, generating, completed, finished, waiting, closing, Event, put_back, System, step,
  run, start,
}
use raglibrarian.Answer.Inflight.Invariant.{leads, Sound, moved, moved-Sound}
use raglibrarian.Answer.Inflight.Steps.{Moves}
use raglibrarian.Answer.Inflight.Waiters.{idle-Moves, finished-Moves, waiting-Moves}
use raglibrarian.Answer.Inflight.Leaders.{completed-Moves, generating-Moves, closing-Moves}

module _ (is_format : ℕ → Bool) (limits : Limits) (evidence : ℕ → List ContextEvidence)
    (key : ℕ → ℕ) (same_evidence : (i j : ℕ) → key i ≡ key j → evidence i ≡ evidence j) where
  abbrev Fine : System → Type 0
  Fine = Sound is_format limits evidence key

  move-Moves :
      (s : System) (i : ℕ)
      → Fine s
      → (r : Request) → s.requests i ≡ r
      → (event : Event) → Moves is_format limits evidence key s i r event
  move-Moves s i v idle at event = idle-Moves is_format limits evidence key s i v at event
  move-Moves s i v finished at event = finished-Moves is_format limits evidence key s i v at event
  move-Moves s i v generating at event =
      generating-Moves is_format limits evidence key same_evidence s i v at event
  move-Moves s i v completed at event =
      completed-Moves is_format limits evidence key same_evidence s i v at event
  move-Moves s i v (waiting a) at event =
      waiting-Moves is_format limits evidence key s i v a at event
  move-Moves s i v (closing a) at event =
      closing-Moves is_format limits evidence key same_evidence s i v a at event

  pub step-Sound :
      (s : System) (i : ℕ) (event : Event)
      → Fine s
      → (s' : System) × (step is_format limits evidence key s (i, event) ≡ some s') × Fine s'
  unfolding step
  step-Sound s i event v =
      let (slot, r, moves, keeps) = move-Moves s i v (s.requests i) refl event in
      (
        moved is_format limits evidence key s i slot r,
        ap (put_back key s i) moves,
        moved-Sound is_format limits evidence key s i slot r v keeps,
      )

  start-Sound : Fine start
  unfolding leads
  start-Sound = record {
    placed = λ i. tt;
    alone = λ i j f g same. absurd (ground arith);
    led = λ k a h. absurd (ground arith);
    usable = λ k. record {
      made = λ a h. absurd (ground arith);
      useful = λ i a shared h. absurd (ground arith);
    };
  }

  run_from-Sound :
      (events : List (ℕ × Event)) (s : System)
      → Fine s
      → (s' : System) × (run is_format limits evidence key s events ≡ some s') × Fine s'
  unfolding run
  run_from-Sound [] s v = (s, refl, v)
  run_from-Sound ((i, event) ∷ events) s v =
      let (s', stepped, v') = step-Sound s i event v in
      let (s'', ran, v'') = run_from-Sound events s' v' in (s'', rw (run, stepped) ran, v'')

  -- When requests with one key have the same evidence, no interleaving of their steps closes a channel
  -- twice: the run does not panic. At its end, at most one request for each key is behind `wait` with
  -- the call of the key to complete, its channel is open until it closes it, and whoever waits for a
  -- call waits for one that is in the table or whose channel is closed.
  pub run-Sound :
      (events : List (ℕ × Event))
      → (s : System) × (run is_format limits evidence key start events ≡ some s)
        × Sound is_format limits evidence key s
  run-Sound events = run_from-Sound events start start-Sound
