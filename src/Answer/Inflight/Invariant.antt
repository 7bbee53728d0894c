-- ===== src/Answer/Inflight/Invariant.antt =====
-- What holds of the requests and of the table between two steps, and what a step has to keep of it.
use raglibrarian.Base.{
  ℕ, ◌<◌, ◌≡◌, ◌≢◌, ◌⊎◌, refl, sym, ap, subst, ◌∙◌, Bool, true, false, List, some, arith, inl, inr,
  ◌==◌, Bool-cases, ==_refl,
}
use raglibrarian.Answer.Evidence.{ContextEvidence, Limits}
use raglibrarian.Answer.Output.{AnswerSegment}
use raglibrarian.Answer.Inflight.{
  Slot, set_at, Request, generating, completed, waiting, closing, accepts, System,
}

-- The requests that have made the call of their key, until they take it out of the table.
unfoldable pub leads : Request → Bool
leads generating = true
leads completed = true
leads (closing a) = true
leads _ = false

pub set_at_same {ℓ} : {A : Type ℓ} (a : ℕ) (x : A) (f : ℕ → A) → set_at a x f a ≡ x
set_at_same a x f = rw (==_refl a) refl

pub set_at_other {ℓ} : {A : Type ℓ} (a b : ℕ) (x : A) (f : ℕ → A) → b ≢ a → set_at a x f b ≡ f b
set_at_other a b x f h = elim (Bool-cases (a == b)) [
  | inl same ↦ absurd (h (ground arith))
  | inr other ↦ rw other refl
]

pub ==-cases : (a b : ℕ) → (b ≡ a) ⊎ (b ≢ a)
==-cases a b = elim (Bool-cases (a == b)) [
  | inl same ↦ inl (ground arith)
  | inr other ↦ inr (λ e. ground arith)
]

module _ (is_format : ℕ → Bool) (limits : Limits) (evidence : ℕ → List ContextEvidence) where
  abbrev pub Taken : ℕ → List AnswerSegment → Type 0
  Taken i segments = accepts is_format limits evidence i segments ≡ true

  -- What holds of a request in the slot of its key: a leader's call is in the table, and open until it
  -- closes it; a call that is waited for is in the table or closed, and its success can be used.
  abbrev pub Placed : Slot → ℕ → Request → Type 0
  Placed s i generating = (a : ℕ) × (s.call ≡ some a) × ((s.heap a).closed ≡ false)
  Placed s i (closing a) = (s.call ≡ some a) × ((s.heap a).closed ≡ false)
  Placed s i completed = (a : ℕ) × (s.call ≡ some a) × ((s.heap a).closed ≡ true)
  Placed s i (waiting a) =
      (a < s.next)
      × ((s.call ≡ some a) ⊎ ((s.heap a).closed ≡ true))
      × ((s.heap a).succeeded ≡ true → Taken i (s.heap a).segments)
  Placed s i _ = Unit

  module _ (key : ℕ → ℕ) where
    -- What holds of a slot: its call was made, and its success can be used by each request of the key.
    pub record Usable (k : ℕ) (s : Slot) : Type 0 where
      pub made : (a : ℕ) → s.call ≡ some a → a < s.next
      pub useful :
          (i a : ℕ)
          → key i ≡ k
          → s.call ≡ some a
          → (s.heap a).succeeded ≡ true
          → Taken i (s.heap a).segments

    pub record Sound (s : System) : Type 0 where
      pub placed : (i : ℕ) → Placed (s.slots (key i)) i (s.requests i)
      pub alone :
          (i j : ℕ)
          → leads (s.requests i) ≡ true
          → leads (s.requests j) ≡ true
          → key i ≡ key j
          → i ≡ j
      pub led :
          (k a : ℕ)
          → (s.slots k).call ≡ some a
          → (j : ℕ) × (key j ≡ k) × (leads (s.requests j) ≡ true)
      pub usable : (k : ℕ) → Usable k (s.slots k)

    -- What a step has to keep, of the slot and the request that it changes.
    pub record Keeps (s : System) (i : ℕ) (slot : Slot) (r : Request) : Type 0 where
      pub here : Placed slot i r
      pub others :
          (j : ℕ)
          → j ≢ i
          → key j ≡ key i
          → Placed (s.slots (key i)) j (s.requests j)
          → Placed slot j (s.requests j)
      pub first :
          leads r ≡ true
          → (leads (s.requests i) ≡ true) ⊎ ((j : ℕ) → key j ≡ key i → leads (s.requests j) ≡ false)
      pub leader :
          (a : ℕ)
          → slot.call ≡ some a
          → (leads r ≡ true) ⊎ ((j : ℕ) × (j ≢ i) × (key j ≡ key i) × (leads (s.requests j) ≡ true))
      pub still : Usable (key i) slot

    abbrev pub moved : System → ℕ → Slot → Request → System
    moved s i slot r = record {
      slots = set_at (key i) slot s.slots;
      requests = set_at i r s.requests;
    }

    moved-Placed :
        (s : System) (i : ℕ) (slot : Slot) (r : Request)
        → Sound s
        → Keeps s i slot r
        → (j : ℕ) → Placed (set_at (key i) slot s.slots (key j)) j (set_at i r s.requests j)
    moved-Placed s i slot r v k j = elim (==-cases i j) [
      | inl same ↦
          subst (λ x. Placed (set_at (key i) slot s.slots (key x)) x (set_at i r s.requests x))
            (sym same) (rw (set_at_same (key i) slot s.slots, set_at_same i r s.requests) k.here)
      | inr other ↦ rw (set_at_other i j r s.requests other) (elim (==-cases (key i) (key j)) [
        | inl same ↦
            subst (λ q. Placed (set_at (key i) slot s.slots q) j (s.requests j)) (sym same)
              (rw (set_at_same (key i) slot s.slots) (
                k.others j other same
                  (subst (λ q. Placed (s.slots q) j (s.requests j)) same (v.placed j))))
        | inr apart ↦ rw (set_at_other (key i) (key j) slot s.slots apart) (v.placed j)
      ])
    ]

    moved-request :
        (P : Request → Type 0) (s : System) (i : ℕ) (slot : Slot) (r : Request) (j : ℕ)
        → P ((moved s i slot r).requests j)
        → ((j ≡ i) × P r) ⊎ ((j ≢ i) × P (s.requests j))
    moved-request P s i slot r j p = elim (==-cases i j) [
      | inl same ↦
          inl (same, subst P (ap (set_at i r s.requests) same ∙ set_at_same i r s.requests) p)
      | inr other ↦ inr (other, subst P (set_at_other i j r s.requests other) p)
    ]

    first_alone :
        (s : System) (i : ℕ) (slot : Slot) (r : Request)
        → Sound s
        → Keeps s i slot r
        → (j : ℕ) → leads r ≡ true
        → leads (s.requests j) ≡ true
        → key i ≡ key j
        → i ≡ j
    first_alone s i slot r v k j f g same = elim (k.first f) [
      | inl before ↦ v.alone i j before g same
      | inr nobody ↦ absurd (ground (arith, nobody j (sym same)))
    ]

    moved-alone :
        (s : System) (i : ℕ) (slot : Slot) (r : Request)
        → Sound s
        → Keeps s i slot r
        → (j l : ℕ) → leads ((moved s i slot r).requests j) ≡ true
        → leads ((moved s i slot r).requests l) ≡ true
        → key j ≡ key l
        → j ≡ l
    moved-alone s i slot r v k j l f g same =
        let Leads : Request → Type 0 = λ x. leads x ≡ true in
        elim (moved-request Leads s i slot r j f) [
          | inl (ji, fr) ↦ elim (moved-request Leads s i slot r l g) [
            | inl (li, gr) ↦ ji ∙ sym li
            | inr (li, gr) ↦ ji ∙ first_alone s i slot r v k l fr gr (ap key (sym ji) ∙ same)
          ]
          | inr (ji, fr) ↦ elim (moved-request Leads s i slot r l g) [
            | inl (li, gr) ↦
                sym (first_alone s i slot r v k j gr fr (sym (same ∙ ap key li))) ∙ sym li
            | inr (li, gr) ↦ v.alone j l fr gr same
          ]
        ]

    moved-led :
        (s : System) (i : ℕ) (slot : Slot) (r : Request)
        → Sound s
        → Keeps s i slot r
        → (k a : ℕ) → ((moved s i slot r).slots k).call ≡ some a
        → (j : ℕ) × (key j ≡ k) × (leads ((moved s i slot r).requests j) ≡ true)
    moved-led s i slot r v w k a h = elim (==-cases (key i) k) [
      | inl same ↦
          let there : slot.call ≡ some a =
            ap (λ (x : Slot). x.call)
              (sym (ap (set_at (key i) slot s.slots) same ∙ set_at_same (key i) slot s.slots))
            ∙ h in
          elim (w.leader a there) [
            | inl mine ↦ (i, sym same, ap leads (set_at_same i r s.requests) ∙ mine)
            | inr (j, other, shared, led) ↦
                (j, shared ∙ sym same, ap leads (set_at_other i j r s.requests other) ∙ led)
          ]
      | inr apart ↦
          let there : (s.slots k).call ≡ some a =
            ap (λ (x : Slot). x.call) (sym (set_at_other (key i) k slot s.slots apart)) ∙ h in
          let (j, shared, led) = v.led k a there in
          (
            j,
            shared,
            ap leads (set_at_other i j r s.requests (λ e. apart (sym shared ∙ ap key e))) ∙ led,
          )
    ]

    moved-usable :
        (s : System) (i : ℕ) (slot : Slot) (r : Request)
        → Sound s
        → Keeps s i slot r
        → (k : ℕ) → Usable k ((moved s i slot r).slots k)
    moved-usable s i slot r v w k = elim (==-cases (key i) k) [
      | inl same ↦
          subst (λ q. Usable q (set_at (key i) slot s.slots q)) (sym same)
            (subst (Usable (key i)) (sym (set_at_same (key i) slot s.slots)) w.still)
      | inr apart ↦ subst (Usable k) (sym (set_at_other (key i) k slot s.slots apart)) (v.usable k)
    ]

    pub moved-Sound :
        (s : System) (i : ℕ) (slot : Slot) (r : Request)
        → Sound s
        → Keeps s i slot r
        → Sound (moved s i slot r)
    moved-Sound s i slot r v w = record {
      placed = moved-Placed s i slot r v w;
      alone = moved-alone s i slot r v w;
      led = moved-led s i slot r v w;
      usable = moved-usable s i slot r v w;
    }
