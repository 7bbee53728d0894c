-- ===== src/Answer/Inflight/Released.antt =====
-- Whoever waits for a call in flight is released.
use raglibrarian.Base.{
  some-injective, ℕ, zero, suc, ◌≡◌, ◌≢◌, ◌⊎◌, refl, sym, ap, subst, ◌∙◌, Bool, true, false, List,
  none, some, arith, inl, inr,
}
use raglibrarian.Answer.Evidence.{ContextEvidence, Limits}
use raglibrarian.Answer.Inflight.{
  InflightCall, Slot, set_at, Request, idle, generating, completed, finished, waiting, closing,
  Event, wake, close, leave, woken, closed_move, put_back, move, System, step, run, start,
}
use raglibrarian.Answer.Inflight.Invariant.{leads, Placed, Sound, moved, set_at_same, set_at_other}
use raglibrarian.Answer.Inflight.Moves.{updated}
use raglibrarian.Answer.Inflight.Steps.{done-some, close_ready-some, closed_call}
use raglibrarian.Answer.Inflight.Progress.{
  Progress, stood, closed_it, ready_to, Goes, generating-Progress, closing-Progress,
}
use raglibrarian.Answer.Inflight.Safe.{run-Sound}

module _ (is_format : ℕ → Bool) (limits : Limits) (evidence : ℕ → List ContextEvidence)
    (key : ℕ → ℕ) where
  -- A request that waits for a call whose channel is closed, and goes on when it is woken.
  pub record Freed (i a : ℕ) (s : System) : Type 0 where
    pub waits : s.requests i ≡ waiting a
    pub closed : ((s.slots (key i)).heap a).closed ≡ true
    pub goes_on :
        (s' : System) × (step is_format limits evidence key s (i, wake) ≡ some s')
        × ((s'.requests i ≡ finished) ⊎ (s'.requests i ≡ generating))

  -- A step of request `j` that changes where it stands.
  pub record Acts (j : ℕ) (s : System) : Type 0 where
    pub event : Event
    pub next : System
    pub steps : step is_format limits evidence key s (j, event) ≡ some next
    pub changes : next.requests j ≢ s.requests j

  -- Request `i` is freed after at most `n` steps of request `j` that change where `j` stands, whichever
  -- these are; and as long as it is not freed, there is such a step.
  abbrev pub Frees : ℕ → ℕ → ℕ → ℕ → System → Type 0
  Frees j i a zero s = Freed i a s
  Frees j i a (suc n) s =
      Freed i a s ⊎ (Acts j s × ((step_taken : Acts j s) → Frees j i a n step_taken.next))

  -- Request `j` leads the call that `i` waits for, whose channel is open.
  record Holds (j i a : ℕ) (r : Request) (s : System) : Type 0 where
    shared : key j ≡ key i
    other : i ≢ j
    waits : s.requests i ≡ waiting a
    stands : s.requests j ≡ r
    there : (s.slots (key j)).call ≡ some a
    open_call : ((s.slots (key j)).heap a).closed ≡ false

  slot_shared :
      (s : System) (j i : ℕ) (slot : Slot) (r : Request)
      → key j ≡ key i
      → (moved is_format limits evidence key s j slot r).slots (key i) ≡ slot
  slot_shared s j i slot r shared =
      ap (set_at (key j) slot s.slots) (sym shared) ∙ set_at_same (key j) slot s.slots

  woken-on :
      (i : ℕ) (c : InflightCall)
      → (woken is_format limits evidence i c ≡ finished)
        ⊎ (woken is_format limits evidence i c ≡ generating)
  unfolding woken
  woken-on i c = ground arith

  wake_step :
      (s : System) (i a : ℕ)
      → s.requests i ≡ waiting a
      → ((s.slots (key i)).heap a).closed ≡ true
      → step is_format limits evidence key s (i, wake)
        ≡ some (
            moved is_format limits evidence key s i
              (s.slots (key i))
              (woken is_format limits evidence i ((s.slots (key i)).heap a)))
  unfolding step move
  wake_step s i a waits closed = rw (waits, closed) refl

  closed-Freed :
      (s : System) (i a : ℕ)
      → s.requests i ≡ waiting a
      → ((s.slots (key i)).heap a).closed ≡ true
      → Freed i a s
  closed-Freed s i a waits closed =
      let r = woken is_format limits evidence i ((s.slots (key i)).heap a) in
      record {
        waits = waits;
        closed = closed;
        goes_on = (
          moved is_format limits evidence key s i (s.slots (key i)) r,
          wake_step s i a waits closed,
          subst (λ q. (q ≡ finished) ⊎ (q ≡ generating)) (sym (set_at_same i r s.requests))
              (woken-on i ((s.slots (key i)).heap a)),
        );
      }

  progressed :
      (s : System) (j i a : ℕ) (r : Request) (slot : Slot) (after : Request)
      → Holds j i a r s
      → Progress is_format limits evidence key a r slot after
      → (moved is_format limits evidence key s j slot after).requests j ≢ s.requests j
      → Freed i a (moved is_format limits evidence key s j slot after)
        ⊎ ((r ≡ generating)
            × Holds j i a (closing a) (moved is_format limits evidence key s j slot after))
  progressed s j i a r slot after h stood changes =
      absurd (changes (set_at_same j r s.requests ∙ sym h.stands))
  progressed s j i a r slot after h (closed_it closed) changes = inl (
      closed-Freed (moved is_format limits evidence key s j slot after) i a
        (set_at_other j i after s.requests h.other ∙ h.waits)
        (ap (λ (q : Slot). (q.heap a).closed) (slot_shared s j i slot after h.shared) ∙ closed))
  progressed s j i a r slot after h (ready_to from there open_call) changes = inr (
    from,
    record {
      shared = h.shared;
      other = h.other;
      waits = set_at_other j i (closing a) s.requests h.other ∙ h.waits;
      stands = set_at_same j (closing a) s.requests;
      there = ap (λ (q : Slot). q.call) (set_at_same (key j) slot s.slots) ∙ there;
      open_call =
          ap (λ (q : Slot). (q.heap a).closed) (set_at_same (key j) slot s.slots) ∙ open_call;
    },
  )

  goes_step :
      (s : System) (j a : ℕ) (r : Request) (event : Event) (slot : Slot) (after : Request)
      → s.requests j ≡ r
      → move is_format limits evidence j (s.slots (key j)) r event ≡ some (slot, after)
      → step is_format limits evidence key s (j, event)
        ≡ some (moved is_format limits evidence key s j slot after)
  unfolding step
  goes_step s j a r event slot after stands goes =
      ap (λ q. put_back key s j (move is_format limits evidence j (s.slots (key j)) q event)) stands
      ∙ ap (put_back key s j) goes

  acted :
      (s : System) (j i a : ℕ) (r : Request)
      → Holds j i a r s
      → (x : Acts j s) → Goes is_format limits evidence key j a (s.slots (key j)) r x.event
      → Freed i a x.next ⊎ ((r ≡ generating) × Holds j i a (closing a) x.next)
  acted s j i a r h x (slot, after, goes, p) =
      let m = moved is_format limits evidence key s j slot after in
      let same : m ≡ x.next =
        some-injective m x.next
          (sym (goes_step s j a r x.event slot after h.stands goes) ∙ x.steps) in
      subst (λ q. Freed i a q ⊎ ((r ≡ generating) × Holds j i a (closing a) q)) same
        (progressed s j i a r slot after h p
          (subst (λ (q : System). q.requests j ≢ s.requests j) (sym same) x.changes))

  closing-next : (s : System) (j i a : ℕ) → Holds j i a (closing a) s → Acts j s
  unfolding move
  closing-next s j i a h =
      let here = s.slots (key j) in
      let slot = updated here here.call a (closed_call (here.heap a)) in
      record {
        event = close;
        next = moved is_format limits evidence key s j slot completed;
        steps =
            goes_step s j a (closing a) close slot completed h.stands
              (ap closed_move (close_ready-some here a h.open_call));
        changes =
            λ e. absurd (ground (arith, sym (set_at_same j completed s.requests) ∙ e ∙ h.stands));
      }

  generating-next : (s : System) (j i a : ℕ) → Holds j i a generating s → Acts j s
  unfolding move
  generating-next s j i a h =
      let here = s.slots (key j) in
      let slot = updated here none a (closed_call (here.heap a)) in
      record {
        event = leave;
        next = moved is_format limits evidence key s j slot finished;
        steps =
            goes_step s j a generating leave slot finished h.stands
              (ap (λ q. some (q, finished)) (done-some here a h.there));
        changes =
            λ e. absurd (ground (arith, sym (set_at_same j finished s.requests) ∙ e ∙ h.stands));
      }

  closing-Frees : (s : System) (j i a : ℕ) → Holds j i a (closing a) s → Frees j i a 1 s
  closing-Frees s j i a h = inr (
    closing-next s j i a h,
    λ x.
        elim (acted s j i a (closing a) h x (
          closing-Progress is_format limits evidence key j a (s.slots (key j)) h.open_call
            x.event)) [ inl freed ↦ freed | inr (impossible, holds) ↦ absurd (ground arith) ],
  )

  generating-Frees : (s : System) (j i a : ℕ) → Holds j i a generating s → Frees j i a 2 s
  generating-Frees s j i a h = inr (
    generating-next s j i a h,
    λ x.
        elim (acted s j i a generating h x (
          generating-Progress is_format limits evidence key j a (s.slots (key j)) h.there
            h.open_call x.event)) [
              | inl freed ↦ inl freed
              | inr (generates, holds) ↦ closing-Frees x.next j i a holds
            ],
  )

  Frees-more : (j i a : ℕ) (s : System) → Frees j i a 1 s → Frees j i a 2 s
  Frees-more j i a s (inl freed) = inl freed
  Frees-more j i a s (inr (next, frees)) = inr (next, λ x. inl (frees x))

  -- The slot of the leader and its request say how it goes on.
  leader-Frees :
      (s : System) (j i a : ℕ) (r : Request)
      → Holds j i a r s
      → leads r ≡ true
      → Placed is_format limits evidence (s.slots (key j)) j r
      → Frees j i a 2 s
  unfolding leads
  leader-Frees s j i a idle h l p = absurd (ground arith)
  leader-Frees s j i a finished h l p = absurd (ground arith)
  leader-Frees s j i a (waiting b) h l p = absurd (ground arith)
  leader-Frees s j i a completed h l p = absurd (
      ground (
        arith,
        ap (λ x. ((s.slots (key j)).heap x).closed) (some-injective p.0 a (sym p.1 ∙ h.there)),
        p.2,
        h.open_call,
      ))
  leader-Frees s j i a generating h l p = generating-Frees s j i a h
  leader-Frees s j i a (closing b) h l p =
      let same : b ≡ a = some-injective b a (sym p.0 ∙ h.there) in
      Frees-more j i a s (closing-Frees s j i a (subst (λ c. Holds j i a (closing c) s) same h))

  -- When requests with one key have the same evidence: after any interleaving, for a request that waits
  -- for a call whose channel is open there is another one of its key that can go on, and however that one
  -- goes on (it ends its generation with or without success and closes the channel, or it leaves), the
  -- channel is closed after at most two of its steps; then the request that waits goes on when it is woken.
  pub run-Frees :
      (same_evidence : (i j : ℕ) → key i ≡ key j → evidence i ≡ evidence j)
      (events : List (ℕ × Event)) (s : System) (i a : ℕ)
      → run is_format limits evidence key start events ≡ some s
      → s.requests i ≡ waiting a
      → ((s.slots (key i)).heap a).closed ≡ false
      → (j : ℕ) × (key j ≡ key i) × (j ≢ i) × Frees j i a 2 s
  unfolding leads
  run-Frees same_evidence events s i a ran at open_call =
      let (s', ran', v') = run-Sound is_format limits evidence key same_evidence events in
      let v : Sound is_format limits evidence key s =
        subst (Sound is_format limits evidence key) (some-injective s' s (sym ran' ∙ ran)) v' in
      let (made, where_it_is, useful) =
        subst (Placed is_format limits evidence (s.slots (key i)) i) at (v.placed i) in
      let there : (s.slots (key i)).call ≡ some a = elim where_it_is [
        | inl in_table ↦ in_table
        | inr over ↦ absurd (ground arith)
      ] in
      let (j, shared, led) = v.led (key i) a there in
      let other : i ≢ j = λ e. absurd (ground (arith, ap leads (sym at ∙ ap s.requests e), led)) in
      let h : Holds j i a (s.requests j) s = record {
        shared = shared;
        other = other;
        waits = at;
        stands = refl;
        there = ap (λ q. (s.slots q).call) shared ∙ there;
        open_call = ap (λ q. ((s.slots q).heap a).closed) shared ∙ open_call;
      } in
      (j, shared, λ e. other (sym e), leader-Frees s j i a (s.requests j) h led (v.placed j))
