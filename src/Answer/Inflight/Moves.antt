-- ===== src/Answer/Inflight/Moves.antt =====
-- Each step keeps what holds of the requests and of the table.
use raglibrarian.Base.{
  ℕ, ◌+◌, ◌<◌, ◌≡◌, ◌≢◌, ◌⊎◌, refl, sym, ap, subst, ◌∙◌, Bool, true, false, List, Option, none,
  some, arith, inl, inr, Bool-cases,
}
use raglibrarian.Answer.Evidence.{ContextEvidence, Limits}
use raglibrarian.Answer.Inflight.{
  InflightCall, Slot, new_call, set_at, Request, idle, generating, completed, finished, waiting,
  closing, System,
}
use raglibrarian.Answer.Inflight.Invariant.{
  leads, Taken, Placed, Sound, Keeps, set_at_same, set_at_other, ==-cases,
}

abbrev pub made_slot : Slot → Slot
made_slot slot = record slot {
  call = some slot.next;
  heap = set_at slot.next new_call slot.heap;
  next = slot.next + 1;
}

abbrev pub updated : Slot → Option ℕ → ℕ → InflightCall → Slot
updated slot call a c = record slot { call = call; heap = set_at a c slot.heap }

module _ (is_format : ℕ → Bool) (limits : Limits) (evidence : ℕ → List ContextEvidence)
    (key : ℕ → ℕ) where
  abbrev Fine : System → Type 0
  Fine = Sound is_format limits evidence key

  abbrev Kept : System → ℕ → Slot → Request → Type 0
  Kept = Keeps is_format limits evidence key

  abbrev At : Slot → ℕ → Request → Type 0
  At = Placed is_format limits evidence

  -- A leader's call is in the table.
  pub leads-call :
      (slot : Slot) (i : ℕ) (r : Request)
      → At slot i r
      → leads r ≡ true
      → (a : ℕ) × (slot.call ≡ some a)
  unfolding leads
  leads-call slot i generating p l = (p.0, p.1)
  leads-call slot i (closing a) p l = (a, p.0)
  leads-call slot i completed p l = (p.0, p.1)
  leads-call slot i idle p l = absurd (ground arith)
  leads-call slot i finished p l = absurd (ground arith)
  leads-call slot i (waiting a) p l = absurd (ground arith)

  -- A request that does not lead and does not start to leaves the slot as it is.
  pub stay-Keeps :
      (s : System) (i : ℕ) (r : Request)
      → Fine s
      → leads (s.requests i) ≡ false
      → leads r ≡ false
      → At (s.slots (key i)) i r
      → Kept s i (s.slots (key i)) r
  stay-Keeps s i r v before after placed = record {
    here = placed;
    others = λ j other shared p. p;
    first = λ f. absurd (ground arith);
    leader = λ a there.
        let (j, shared, led) = v.led (key i) a there in
        inr (j, (λ e. ground (arith, ap leads (ap s.requests e))), shared, led);
    still = v.usable (key i);
  }

  pub found-Keeps :
      (s : System) (i a : ℕ)
      → Fine s
      → s.requests i ≡ idle
      → (s.slots (key i)).call ≡ some a
      → Kept s i (s.slots (key i)) (waiting a)
  unfolding leads
  found-Keeps s i a v at there =
      let u = v.usable (key i) in
      stay-Keeps s i (waiting a) v (ap leads at) refl
        (u.made a there, inl there, u.useful i a refl there)

  -- No request leads while the table has no call.
  nobody_leads :
      (s : System) (i j : ℕ)
      → Fine s
      → (s.slots (key i)).call ≡ none
      → key j ≡ key i
      → leads (s.requests j) ≡ false
  nobody_leads s i j v empty shared = elim (Bool-cases (leads (s.requests j))) [
    | inr no_leader ↦ no_leader
    | inl leader ↦
        let (a, there) = leads-call (s.slots (key j)) j (s.requests j) (v.placed j) leader in
        let wrong : some a ≡ none = sym there ∙ ap (λ q. (s.slots q).call) shared ∙ empty in
        absurd cc
  ]

  make-others :
      (slot : Slot) (j : ℕ) (r : Request) → slot.call ≡ none → At slot j r → At (made_slot slot) j r
  make-others slot j idle empty p = p
  make-others slot j finished empty p = p
  make-others slot j generating empty p = absurd (ground (arith, sym p.1 ∙ empty))
  make-others slot j completed empty p = absurd (ground (arith, sym p.1 ∙ empty))
  make-others slot j (closing a) empty p = absurd (ground (arith, sym p.0 ∙ empty))
  make-others slot j (waiting a) empty p =
      let older : set_at slot.next new_call slot.heap a ≡ slot.heap a =
        set_at_other slot.next a new_call slot.heap (λ e. omega (arith, p.0)) in
      let closed : (slot.heap a).closed ≡ true = elim p.1 [
        | inl there ↦ absurd (ground (arith, sym there ∙ empty))
        | inr gone ↦ gone
      ] in
      (omega (arith, p.0), inr (ap (λ (x : InflightCall). x.closed) older ∙ closed), rw older p.2)

  pub make-Keeps :
      (s : System) (i : ℕ)
      → Fine s
      → (s.slots (key i)).call ≡ none
      → Kept s i (made_slot (s.slots (key i))) generating
  unfolding leads
  make-Keeps s i v empty =
      let slot = s.slots (key i) in
      let fresh : set_at slot.next new_call slot.heap slot.next ≡ new_call =
        set_at_same slot.next new_call slot.heap in
      record {
        here = (slot.next, refl, ap (λ (x : InflightCall). x.closed) fresh);
        others = λ j other shared p. make-others slot j (s.requests j) empty p;
        first = λ f. inr (λ j shared. nobody_leads s i j v empty shared);
        leader = λ a there. inl refl;
        still = record {
          made = λ a there. ground arith;
          useful = λ j a shared there succeeded.
              let same : a ≡ slot.next = ground arith in
              let wrong : false ≡ true =
                ap (λ (x : InflightCall). x.succeeded)
                  (sym (ap (set_at slot.next new_call slot.heap) same ∙ fresh))
                ∙ succeeded in
              absurd cc;
        };
      }

  update-others :
      (slot : Slot) (call : Option ℕ) (a : ℕ) (c : InflightCall) (j : ℕ) (r : Request)
      → leads r ≡ false
      → slot.call ≡ some a
      → (c.succeeded ≡ true → Taken is_format limits evidence j c.segments)
      → (call ≡ some a) ⊎ (c.closed ≡ true)
      → At slot j r
      → At (updated slot call a c) j r
  unfolding leads
  update-others slot call a c j idle l there useful open_or p = p
  update-others slot call a c j finished l there useful open_or p = p
  update-others slot call a c j generating l there useful open_or p = absurd (ground arith)
  update-others slot call a c j completed l there useful open_or p = absurd (ground arith)
  update-others slot call a c j (closing b) l there useful open_or p = absurd (ground arith)
  update-others slot call a c j (waiting b) l there useful open_or p = elim (==-cases a b) [
    | inl same ↦
        subst (λ q. At (updated slot call a c) j (waiting q)) (sym same)
          (rw (set_at_same a c slot.heap) (subst (λ q. q < slot.next) same p.0, open_or, useful))
    | inr other ↦
        let closed : (slot.heap b).closed ≡ true = elim p.1 [
          | inl here ↦ absurd (other (ground (arith, sym here ∙ there)))
          | inr gone ↦ gone
        ] in
        rw (set_at_other a b c slot.heap other) (p.0, inr closed, p.2)
  ]

  only_leader :
      (s : System) (i j : ℕ)
      → Fine s
      → leads (s.requests i) ≡ true
      → j ≢ i
      → key j ≡ key i
      → leads (s.requests j) ≡ false
  only_leader s i j v led other shared = elim (Bool-cases (leads (s.requests j))) [
    | inl leader ↦ absurd (other (v.alone j i leader led shared))
    | inr no_leader ↦ no_leader
  ]

  pub update-Keeps :
      (s : System) (i : ℕ) (r : Request) (call : Option ℕ) (a : ℕ) (c : InflightCall)
      → Fine s
      → leads (s.requests i) ≡ true
      → (s.slots (key i)).call ≡ some a
      → ((j : ℕ)
          → key j ≡ key i
          → c.succeeded ≡ true
          → Taken is_format limits evidence j c.segments)
      → (call ≡ some a) ⊎ (c.closed ≡ true)
      → At (updated (s.slots (key i)) call a c) i r
      → (call ≡ none) ⊎ ((call ≡ some a) × (leads r ≡ true))
      → Kept s i (updated (s.slots (key i)) call a c) r
  update-Keeps s i r call a c v led there useful open_or placed after =
      let slot = s.slots (key i) in
      record {
        here = placed;
        others = λ j other shared p.
            update-others slot call a c j (s.requests j) (only_leader s i j v led other shared)
              there (useful j shared) open_or p;
        first = λ f. inl led;
        leader = λ b here. elim after [
          | inl empty ↦ absurd (ground (arith, sym here ∙ empty))
          | inr (full, leading) ↦ inl leading
        ];
        still = record {
          made = λ b here. elim after [
            | inl empty ↦ absurd (ground (arith, sym here ∙ empty))
            | inr (full, leading) ↦ ground (arith, sym here ∙ full, (v.usable (key i)).made a there)
          ];
          useful = λ j b shared here. elim after [
            | inl empty ↦ absurd (ground (arith, sym here ∙ empty))
            | inr (full, leading) ↦
                let same : b ≡ a = ground (arith, sym here ∙ full) in
                subst
                  (λ q.
                    (set_at a c slot.heap q).succeeded ≡ true
                    → Taken is_format limits evidence j (set_at a c slot.heap q).segments)
                  (sym same) (rw (set_at_same a c slot.heap) (useful j shared))
          ];
        };
      }

  -- A step that changes nothing.
  pub identity-Keeps :
      (s : System) (i : ℕ) (r : Request) → Fine s → s.requests i ≡ r → Kept s i (s.slots (key i)) r
  identity-Keeps s i r v at = record {
    here = subst (At (s.slots (key i)) i) at (v.placed i);
    others = λ j other shared p. p;
    first = λ f. inl (ap leads at ∙ f);
    leader = λ a there.
        let (j, shared, led) = v.led (key i) a there in
        elim (==-cases i j) [
          | inl same ↦ inl (ap leads (sym (ap s.requests same ∙ at)) ∙ led)
          | inr other ↦ inr (j, other, shared, led)
        ];
    still = v.usable (key i);
  }
