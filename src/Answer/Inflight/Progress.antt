-- ===== src/Answer/Inflight/Progress.antt =====
-- What the steps of a request that leads a call do to the call.
use raglibrarian.Base.{
  ℕ, ◌≡◌, refl, ap, ◌∙◌, Bool, true, false, List, [], Option, none, some, inl, inr, Bool-cases,
}
use raglibrarian.Answer.Evidence.{ContextEvidence, Limits}
use raglibrarian.Answer.Output.{AnswerSegment}
use raglibrarian.Answer.Inflight.{
  InflightCall, Slot, Request, generating, completed, finished, closing, Event, arrive, wake,
  cancel, fail, close, leave, succeed, accepts, completing, closed_move, Moved, move,
}
use raglibrarian.Answer.Inflight.Invariant.{set_at_same}
use raglibrarian.Answer.Inflight.Moves.{updated}
use raglibrarian.Answer.Inflight.Steps.{done-some, close_ready-some, closed_call, completing-some}

module _ (is_format : ℕ → Bool) (limits : Limits) (evidence : ℕ → List ContextEvidence)
    (key : ℕ → ℕ) where
  -- What a step of a leader does to it and to the slot.
  pub data Progress (a : ℕ) (r : Request) : Slot → Request → Type 0 where
    stood : {slot : Slot} → Progress a r slot r
    closed_it :
        {slot : Slot} {after : Request} → (slot.heap a).closed ≡ true → Progress a r slot after
    ready_to :
        {slot : Slot}
        → r ≡ generating
        → slot.call ≡ some a
        → (slot.heap a).closed ≡ false
        → Progress a r slot (closing a)

  abbrev pub Goes : ℕ → ℕ → Slot → Request → Event → Type 0
  Goes j a slot r event =
      (slot' : Slot) × (after : Request) × (move is_format limits evidence j slot r event
        ≡ some (slot', after))
      × Progress a r slot' after

  abbrev unmoved :
      (a : ℕ) (slot : Slot) (r : Request)
      → (slot' : Slot) × (after : Request) × ◌≡◌ {A = Option Moved}
          (some (slot, r))
          (some (slot', after))
        × Progress a r slot' after
  unmoved a slot r = (slot, r, refl, stood)

  completing-Progress :
      (a : ℕ) (slot : Slot) (segments : List AnswerSegment) (succeeded : Bool)
      → slot.call ≡ some a
      → (slot.heap a).closed ≡ false
      → (slot' : Slot) × (after : Request) × ◌≡◌ {A = Option Moved}
          (some (completing is_format limits evidence slot segments succeeded))
          (some (slot', after))
        × Progress a generating slot' after
  completing-Progress a slot segments succeeded there open_call =
      let c : InflightCall = record {
        closed = (slot.heap a).closed;
        segments = segments;
        succeeded = succeeded;
      } in
      (
        updated slot slot.call a c,
        closing a,
        ap (λ x. some x)
            (completing-some is_format limits evidence key slot a segments succeeded there),
        ready_to refl there
            (ap (λ (x : InflightCall). x.closed) (set_at_same a c slot.heap) ∙ open_call),
      )

  leave-Progress :
      (j a : ℕ) (slot : Slot)
      → slot.call ≡ some a
      → (slot.heap a).closed ≡ false
      → Goes j a slot generating leave
  unfolding move
  leave-Progress j a slot there open_call = (
    updated slot none a (closed_call (slot.heap a)),
    finished,
    ap (λ q. some (q, finished)) (done-some slot a there),
    closed_it
        (ap (λ (x : InflightCall). x.closed) (set_at_same a (closed_call (slot.heap a)) slot.heap)),
  )

  close-Progress :
      (j a : ℕ) (slot : Slot) → (slot.heap a).closed ≡ false → Goes j a slot (closing a) close
  unfolding move
  close-Progress j a slot open_call = (
    updated slot slot.call a (closed_call (slot.heap a)),
    completed,
    ap closed_move (close_ready-some slot a open_call),
    closed_it
        (ap (λ (x : InflightCall). x.closed) (set_at_same a (closed_call (slot.heap a)) slot.heap)),
  )

  -- Whatever a generating leader does, it stays, closes the channel, or is ready to close it.
  pub generating-Progress :
      (j a : ℕ) (slot : Slot)
      → slot.call ≡ some a
      → (slot.heap a).closed ≡ false
      → (event : Event) → Goes j a slot generating event
  unfolding move
  generating-Progress j a slot there open_call arrive = unmoved a slot generating
  generating-Progress j a slot there open_call wake = unmoved a slot generating
  generating-Progress j a slot there open_call cancel = unmoved a slot generating
  generating-Progress j a slot there open_call close = unmoved a slot generating
  generating-Progress j a slot there open_call leave = leave-Progress j a slot there open_call
  generating-Progress j a slot there open_call fail =
      completing-Progress a slot [] false there open_call
  generating-Progress j a slot there open_call (succeed segments) =
      elim (Bool-cases (accepts is_format limits evidence j segments)) [
        | inl taken ↦ rw (move, taken) (completing-Progress a slot segments true there open_call)
        | inr refused ↦ rw (move, refused) (unmoved a slot generating)
      ]

  -- Whatever a leader does between the two parts of `complete`, it stays or closes the channel.
  pub closing-Progress :
      (j a : ℕ) (slot : Slot)
      → (slot.heap a).closed ≡ false
      → (event : Event) → Goes j a slot (closing a) event
  unfolding move
  closing-Progress j a slot open_call arrive = unmoved a slot (closing a)
  closing-Progress j a slot open_call wake = unmoved a slot (closing a)
  closing-Progress j a slot open_call cancel = unmoved a slot (closing a)
  closing-Progress j a slot open_call fail = unmoved a slot (closing a)
  closing-Progress j a slot open_call leave = unmoved a slot (closing a)
  closing-Progress j a slot open_call (succeed segments) = unmoved a slot (closing a)
  closing-Progress j a slot open_call close = close-Progress j a slot open_call
