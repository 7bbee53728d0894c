-- ===== src/Answer/Inflight/Steps.antt =====
-- What the operations on the table give, and what a step of a request has to show.
use raglibrarian.Base.{ℕ, ◌≡◌, refl, subst, Bool, true, false, List, Option, none, some}
use raglibrarian.Answer.Evidence.{ContextEvidence, Limits}
use raglibrarian.Answer.Output.{AnswerSegment}
use raglibrarian.Answer.Inflight.{
  InflightCall, Slot, wait, close_ready, done, complete, completing, closing, Request, Event, Moved,
  move, System,
}
use raglibrarian.Answer.Inflight.Invariant.{Placed, Sound, Keeps}
use raglibrarian.Answer.Inflight.Moves.{made_slot, updated, identity-Keeps}

pub wait-none : (slot : Slot) → slot.call ≡ none → wait slot ≡ (made_slot slot, none)
unfolding wait
wait-none slot h = rw h refl

pub wait-some : (slot : Slot) (a : ℕ) → slot.call ≡ some a → wait slot ≡ (slot, some a)
unfolding wait
wait-some slot a h = rw h refl

abbrev pub closed_call : InflightCall → InflightCall
closed_call c = record c { closed = true }

pub done-some :
    (slot : Slot) (a : ℕ)
    → slot.call ≡ some a
    → done slot ≡ updated slot none a (closed_call (slot.heap a))
unfolding done
done-some slot a h = rw h refl

pub close_ready-some :
    (slot : Slot) (a : ℕ)
    → (slot.heap a).closed ≡ false
    → close_ready slot a ≡ some (updated slot slot.call a (closed_call (slot.heap a)))
unfolding close_ready
close_ready-some slot a h = rw h refl

module _ (is_format : ℕ → Bool) (limits : Limits) (evidence : ℕ → List ContextEvidence)
    (key : ℕ → ℕ) where
  abbrev pub Fine : System → Type 0
  Fine = Sound is_format limits evidence key

  -- A step does not panic and keeps what holds.
  abbrev pub Moves : System → ℕ → Request → Event → Type 0
  Moves s i r event =
      (slot : Slot) × (after : Request) × (move is_format limits evidence i (s.slots (key i)) r
          event
        ≡ some (slot, after))
      × Keeps is_format limits evidence key s i slot after

  pub Placed-at :
      (s : System) (i : ℕ) (r : Request)
      → Fine s
      → s.requests i ≡ r
      → Placed is_format limits evidence (s.slots (key i)) i r
  Placed-at s i r v at =
      subst (Placed is_format limits evidence (s.slots (key i)) i) at (v.placed i)

  abbrev pub stays :
      (s : System) (i : ℕ) (r : Request) (v : Fine s) (at : s.requests i ≡ r)
      → (slot : Slot) × (after : Request) × ◌≡◌ {A = Option Moved}
          (some (s.slots (key i), r))
          (some (slot, after))
        × Keeps is_format limits evidence key s i slot after
  stays s i r v at =
      (s.slots (key i), r, refl, identity-Keeps is_format limits evidence key s i r v at)

  pub completing-some :
      (slot : Slot) (a : ℕ) (segments : List AnswerSegment) (succeeded : Bool)
      → slot.call ≡ some a
      → completing is_format limits evidence slot segments succeeded ≡ (
        updated slot slot.call a
            (record { closed = (slot.heap a).closed; segments = segments; succeeded = succeeded }),
        closing a,
      )
  unfolding completing complete
  completing-some slot a segments succeeded h = rw h refl
