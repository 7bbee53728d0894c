-- ===== src/Answer/Inflight/Leaders.antt =====
-- The steps of requests that lead.
use raglibrarian.Base.{
  ℕ, ◌≡◌, refl, sym, ap, subst, ◌∙◌, Bool, true, false, List, [], none, some, is_some, inl, inr,
  Bool-cases,
}
use raglibrarian.Answer.Evidence.{ContextEvidence, Limits}
use raglibrarian.Answer.Output.{AnswerSegment, validate_segments}
use raglibrarian.Answer.Inflight.{
  InflightCall, Slot, done, Request, generating, completed, finished, closing, Event, arrive, wake,
  cancel, fail, close, leave, succeed, accepts, closed_move, completing, move, System,
}
use raglibrarian.Answer.Inflight.Invariant.{leads, Taken, Sound, Keeps, set_at_same}
use raglibrarian.Answer.Inflight.Moves.{updated, leads-call, update-Keeps}
use raglibrarian.Answer.Inflight.Steps.{
  closed_call, completing-some, done-some, close_ready-some, Moves, Placed-at, stays,
}

module _ (is_format : ℕ → Bool) (limits : Limits) (evidence : ℕ → List ContextEvidence)
    (key : ℕ → ℕ) (same_evidence : (i j : ℕ) → key i ≡ key j → evidence i ≡ evidence j) where
  abbrev Fine : System → Type 0
  Fine = Sound is_format limits evidence key

  leave-Moves :
      (s : System) (i : ℕ) (r : Request)
      → Fine s
      → s.requests i ≡ r
      → leads r ≡ true
      → Keeps is_format limits evidence key s i (done (s.slots (key i))) finished
  leave-Moves s i r v at l =
      let slot = s.slots (key i) in
      let (a, there) =
        leads-call is_format limits evidence key slot i r
          (Placed-at is_format limits evidence key s i r v at) l in
      subst (λ q. Keeps is_format limits evidence key s i q finished) (sym (done-some slot a there))
        (update-Keeps is_format limits evidence key s i finished none a (closed_call (slot.heap a))
          v (ap leads at ∙ l) there (λ j shared. (v.usable (key i)).useful j a shared there)
          (inr refl) tt (inl refl))

  pub completed-Moves :
      (s : System) (i : ℕ)
      → Fine s
      → s.requests i ≡ completed
      → (event : Event) → Moves is_format limits evidence key s i completed event
  unfolding move leads
  completed-Moves s i v at arrive = stays is_format limits evidence key s i completed v at
  completed-Moves s i v at wake = stays is_format limits evidence key s i completed v at
  completed-Moves s i v at cancel = stays is_format limits evidence key s i completed v at
  completed-Moves s i v at fail = stays is_format limits evidence key s i completed v at
  completed-Moves s i v at close = stays is_format limits evidence key s i completed v at
  completed-Moves s i v at leave =
      (done (s.slots (key i)), finished, refl, leave-Moves s i completed v at refl)
  completed-Moves s i v at (succeed segments) =
      stays is_format limits evidence key s i completed v at

  -- Requests of one key accept the same segments.
  shared_accepts :
      (i j : ℕ) (segments : List AnswerSegment)
      → key i ≡ key j
      → Taken is_format limits evidence i segments
      → Taken is_format limits evidence j segments
  shared_accepts i j segments shared h =
      subst (λ e. is_some (validate_segments is_format segments e limits) ≡ true)
        (same_evidence i j shared) h

  completing-Moves :
      (s : System) (i : ℕ) (segments : List AnswerSegment) (succeeded : Bool)
      → Fine s
      → s.requests i ≡ generating
      → (succeeded ≡ true → Taken is_format limits evidence i segments)
      → (slot : Slot) × (after : Request) × (some
            (completing is_format limits evidence (s.slots (key i)) segments succeeded)
          ≡ some (slot, after))
        × Keeps is_format limits evidence key s i slot after
  unfolding leads
  completing-Moves s i segments succeeded v at useful =
      let slot = s.slots (key i) in
      let (a, there, open_call) = Placed-at is_format limits evidence key s i generating v at in
      let c : InflightCall = record {
        closed = (slot.heap a).closed;
        segments = segments;
        succeeded = succeeded;
      } in
      (
        updated slot slot.call a c,
        closing a,
        rw (completing-some is_format limits evidence key slot a segments succeeded there) refl,
        update-Keeps is_format limits evidence key s i (closing a) slot.call a c v (ap leads at)
            there (λ j shared h. shared_accepts i j segments (sym shared) (useful h)) (inl there)
            (there, ap (λ (x : InflightCall). x.closed) (set_at_same a c slot.heap) ∙ open_call)
            (inr (there, refl)),
      )

  pub generating-Moves :
      (s : System) (i : ℕ)
      → Fine s
      → s.requests i ≡ generating
      → (event : Event) → Moves is_format limits evidence key s i generating event
  unfolding move leads
  generating-Moves s i v at arrive = stays is_format limits evidence key s i generating v at
  generating-Moves s i v at wake = stays is_format limits evidence key s i generating v at
  generating-Moves s i v at cancel = stays is_format limits evidence key s i generating v at
  generating-Moves s i v at fail = completing-Moves s i [] false v at (λ e. absurd cc)
  generating-Moves s i v at close = stays is_format limits evidence key s i generating v at
  generating-Moves s i v at leave =
      (done (s.slots (key i)), finished, refl, leave-Moves s i generating v at refl)
  generating-Moves s i v at (succeed segments) =
      elim (Bool-cases (accepts is_format limits evidence i segments)) [
        | inl taken ↦ rw (move, taken) (completing-Moves s i segments true v at (λ _. taken))
        | inr refused ↦ rw (move, refused) (stays is_format limits evidence key s i generating v at)
      ]

  pub closing-Moves :
      (s : System) (i : ℕ)
      → Fine s
      → (a : ℕ) → s.requests i ≡ closing a
      → (event : Event) → Moves is_format limits evidence key s i (closing a) event
  unfolding move leads
  closing-Moves s i v a at arrive = stays is_format limits evidence key s i (closing a) v at
  closing-Moves s i v a at wake = stays is_format limits evidence key s i (closing a) v at
  closing-Moves s i v a at cancel = stays is_format limits evidence key s i (closing a) v at
  closing-Moves s i v a at fail = stays is_format limits evidence key s i (closing a) v at
  closing-Moves s i v a at close =
      let slot = s.slots (key i) in
      let (there, open_call) = Placed-at is_format limits evidence key s i (closing a) v at in
      let c = closed_call (slot.heap a) in
      (
        updated slot slot.call a c,
        completed,
        ap closed_move (close_ready-some slot a open_call),
        update-Keeps is_format limits evidence key s i completed slot.call a c v (ap leads at) there
            (λ j shared. (v.usable (key i)).useful j a shared there) (inr refl)
            (a, there, ap (λ (x : InflightCall). x.closed) (set_at_same a c slot.heap))
            (inr (there, refl)),
      )
  closing-Moves s i v a at leave = stays is_format limits evidence key s i (closing a) v at
  closing-Moves s i v a at (succeed segments) =
      stays is_format limits evidence key s i (closing a) v at
