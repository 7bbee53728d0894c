-- ===== src/Answer/Inflight/Waiters.antt =====
-- The steps of requests that do not lead.
use raglibrarian.Base.{ℕ, ◌≡◌, refl, ap, Bool, true, List, some, inl, inr, Bool-cases, Option-cases}
use raglibrarian.Answer.Evidence.{ContextEvidence, Limits}
use raglibrarian.Answer.Inflight.{
  InflightCall, idle, generating, finished, waiting, Event, arrive, wake, cancel, fail, close,
  leave, succeed, arriving, woken, move, System,
}
use raglibrarian.Answer.Inflight.Invariant.{leads, Taken, Sound}
use raglibrarian.Answer.Inflight.Moves.{made_slot, stay-Keeps, found-Keeps, make-Keeps}
use raglibrarian.Answer.Inflight.Steps.{wait-none, wait-some, Moves, Placed-at, stays}

module _ (is_format : ℕ → Bool) (limits : Limits) (evidence : ℕ → List ContextEvidence)
    (key : ℕ → ℕ) where
  abbrev Fine : System → Type 0
  Fine = Sound is_format limits evidence key

  pub idle-Moves :
      (s : System) (i : ℕ)
      → Fine s
      → s.requests i ≡ idle
      → (event : Event) → Moves is_format limits evidence key s i idle event
  unfolding move leads
  idle-Moves s i v at arrive = elim (Option-cases (s.slots (key i)).call) [
    | inl empty ↦ (
      made_slot (s.slots (key i)),
      generating,
      ap (λ w. some (arriving w)) (wait-none (s.slots (key i)) empty),
      make-Keeps is_format limits evidence key s i v empty,
    )
    | inr (a, there) ↦ (
      s.slots (key i),
      waiting a,
      ap (λ w. some (arriving w)) (wait-some (s.slots (key i)) a there),
      found-Keeps is_format limits evidence key s i a v at there,
    )
  ]
  idle-Moves s i v at wake = stays is_format limits evidence key s i idle v at
  idle-Moves s i v at cancel = stays is_format limits evidence key s i idle v at
  idle-Moves s i v at fail = stays is_format limits evidence key s i idle v at
  idle-Moves s i v at close = stays is_format limits evidence key s i idle v at
  idle-Moves s i v at leave = stays is_format limits evidence key s i idle v at
  idle-Moves s i v at (succeed segments) = stays is_format limits evidence key s i idle v at

  pub finished-Moves :
      (s : System) (i : ℕ)
      → Fine s
      → s.requests i ≡ finished
      → (event : Event) → Moves is_format limits evidence key s i finished event
  unfolding move leads
  finished-Moves s i v at arrive = stays is_format limits evidence key s i finished v at
  finished-Moves s i v at wake = stays is_format limits evidence key s i finished v at
  finished-Moves s i v at cancel = stays is_format limits evidence key s i finished v at
  finished-Moves s i v at fail = stays is_format limits evidence key s i finished v at
  finished-Moves s i v at close = stays is_format limits evidence key s i finished v at
  finished-Moves s i v at leave = stays is_format limits evidence key s i finished v at
  finished-Moves s i v at (succeed segments) = stays is_format limits evidence key s i finished v at

  -- A waiter never starts to generate: the segments of a success pass its validation.
  woken-finished :
      (i : ℕ) (call : InflightCall)
      → (call.succeeded ≡ true → Taken is_format limits evidence i call.segments)
      → woken is_format limits evidence i call ≡ finished
  unfolding woken
  woken-finished i call useful = elim (Bool-cases call.succeeded) [
    | inl good ↦ rw (good, useful good) refl
    | inr bad ↦ rw bad refl
  ]

  pub waiting-Moves :
      (s : System) (i : ℕ)
      → Fine s
      → (a : ℕ) → s.requests i ≡ waiting a
      → (event : Event) → Moves is_format limits evidence key s i (waiting a) event
  unfolding move leads woken
  waiting-Moves s i v a at arrive = stays is_format limits evidence key s i (waiting a) v at
  waiting-Moves s i v a at wake =
      let slot = s.slots (key i) in
      elim (Bool-cases (slot.heap a).closed) [
        | inr open_call ↦
            rw (move, open_call) (stays is_format limits evidence key s i (waiting a) v at)
        | inl over ↦
            let (made, there, useful) =
              Placed-at is_format limits evidence key s i (waiting a) v at in
            (
              slot,
              finished,
              rw (move, over) (ap (λ r. some (slot, r)) (woken-finished i (slot.heap a) useful)),
              stay-Keeps is_format limits evidence key s i finished v (ap leads at) refl tt,
            )
      ]
  waiting-Moves s i v a at cancel = (
    s.slots (key i),
    finished,
    refl,
    stay-Keeps is_format limits evidence key s i finished v (ap leads at) refl tt,
  )
  waiting-Moves s i v a at fail = stays is_format limits evidence key s i (waiting a) v at
  waiting-Moves s i v a at close = stays is_format limits evidence key s i (waiting a) v at
  waiting-Moves s i v a at leave = stays is_format limits evidence key s i (waiting a) v at
  waiting-Moves s i v a at (succeed segments) =
      stays is_format limits evidence key s i (waiting a) v at
