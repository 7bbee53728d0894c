-- ===== src/Ingestion/Selection/Updates.antt =====
-- What one candidate adds to the decisions of Ingestion/Selection.
use raglibrarian.Base.{
  ℕ, ◌≤◌, ◌≡◌, inl, inr, refl, Bool, true, false, ◌&&◌, ◌||◌, List, [], ◌∷◌, some, arith, All, ◌==◌,
  Bool-cases, Option-cases, subst,
}
use raglibrarian.Ingestion.Selection.{
  Reason, Signal, Candidate, Decision, Decisions, reason_eq, valid_reason, update_reason,
  add_signals, update_decision, add_candidate,
}

abbrev pub no_decision : Decision
no_decision = record { keep = false; reasons = [] }

-- What `add_candidate` does to the map.
pub data Added (c : Candidate) : Decisions → Decisions → Type 0 where
  new_entry :
      (o : ℕ) (d : Decision)
      → o ≡ c.ordinal
      → update_decision c no_decision ≡ some d
      → Added c [] ((o, d) ∷ [])
  same_entry :
      (o : ℕ) (d d' : Decision) (m : Decisions)
      → o ≡ c.ordinal
      → update_decision c d ≡ some d'
      → Added c ((o, d) ∷ m) ((o, d') ∷ m)
  later_entry :
      (o : ℕ) (d : Decision) {m m' : Decisions}
      → (o == c.ordinal) ≡ false
      → Added c m m'
      → Added c ((o, d) ∷ m) ((o, d) ∷ m')

pub add_candidate-Added :
    (c : Candidate) (m m' : Decisions) → add_candidate c m ≡ some m' → Added c m m'
unfolding add_candidate
add_candidate-Added c [] m' h = elim (Option-cases (update_decision c no_decision)) [
  | inl e ↦ absurd (ground arith)
  | inr (d, e) ↦ subst (Added c []) (ground arith) (new_entry c.ordinal d refl e)
]
add_candidate-Added c ((o, d) ∷ m) m' h = elim (Bool-cases (o == c.ordinal)) [
  | inl e ↦ elim (Option-cases (update_decision c d)) [
    | inl u ↦ absurd (ground arith)
    | inr (d', u) ↦ subst (Added c _) (ground arith) (same_entry o d d' m (ground arith) u)
  ]
  | inr e ↦ elim (Option-cases (add_candidate c m)) [
    | inl u ↦ absurd (ground arith)
    | inr (m'', u) ↦
        subst (Added c _) (ground arith) (later_entry o d e (add_candidate-Added c m m'' u))
  ]
]

unfoldable pub has_key : ℕ → Decisions → Bool
has_key x [] = false
has_key x ((o, d) ∷ m) = (x == o) || has_key x m

-- A candidate has vetoed the exclusion of a location.
unfoldable pub vetoed : ℕ → Decisions → Bool
vetoed x [] = false
vetoed x ((o, d) ∷ m) = (x == o && d.keep) || vetoed x m

abbrev pub DistinctKeys : Decisions → Type 0
DistinctKeys [] = Unit
DistinctKeys ((o, d) ∷ m) = (has_key o m ≡ false) × DistinctKeys m

abbrev pub Listed : List (Reason × List Signal) → Type 0
Listed = All (λ e. valid_reason e.0 ≡ true)

-- The entries lie in the document and have listed reasons.
abbrev pub Sound : ℕ → Decisions → Type 0
Sound total = All (λ e. (1 ≤ e.0) × (e.0 ≤ total) × Listed e.1.reasons)

update_reason-Listed :
    (r : Reason) (ss : List Signal) (m m' : List (Reason × List Signal))
    → valid_reason r ≡ true
    → Listed m
    → update_reason r ss m ≡ some m'
    → Listed m'
unfolding update_reason
update_reason-Listed r ss [] m' v l h = elim (Option-cases (add_signals ss [])) [
  | inl u ↦ absurd (ground arith)
  | inr (t, u) ↦ subst Listed {x = (r, t) ∷ []} (ground arith) (v, tt)
]
update_reason-Listed r ss ((q, t) ∷ m) m' v l h = elim (Bool-cases (reason_eq r q)) [
  | inl e ↦ elim (Option-cases (add_signals ss t)) [
    | inl u ↦ absurd (ground arith)
    | inr (t', u) ↦ subst Listed {x = (q, t') ∷ m} (ground arith) l
  ]
  | inr e ↦ elim (Option-cases (update_reason r ss m)) [
    | inl u ↦ absurd (ground arith)
    | inr (m'', u) ↦
        subst Listed {x = (q, t) ∷ m''} (ground arith)
          (l.0, update_reason-Listed r ss m m'' v l.1 u)
  ]
]

update_decision-Listed :
    (c : Candidate) (d d' : Decision)
    → valid_reason c.reason ≡ true
    → Listed d.reasons
    → update_decision c d ≡ some d'
    → Listed d'.reasons
unfolding update_decision
update_decision-Listed c d d' v l h =
    elim (Option-cases (update_reason c.reason c.signals d.reasons)) [
      | inl u ↦ absurd (ground arith)
      | inr (m, u) ↦
          subst Listed {x = m} (ground arith)
            (update_reason-Listed c.reason c.signals d.reasons m v l u)
    ]

has_key-Added :
    (x : ℕ) {c : Candidate} {m m' : Decisions}
    → Added c m m'
    → has_key x m' ≡ (has_key x m || x == c.ordinal)
unfolding has_key
has_key-Added x (new_entry o d e u) = ground arith
has_key-Added x (same_entry o d d' m e u) = ground arith
has_key-Added x (later_entry o d e a) = ground (arith, has_key-Added x a)

update_decision-keep :
    (c : Candidate) (d d' : Decision) → update_decision c d ≡ some d' → d'.keep ≡ (d.keep || c.keep)
unfolding update_decision
update_decision-keep c d d' h = ground arith

pub vetoed-Added :
    (x : ℕ) {c : Candidate} {m m' : Decisions}
    → Added c m m'
    → vetoed x m' ≡ (vetoed x m || (x == c.ordinal && c.keep))
unfolding vetoed
vetoed-Added x {c} (new_entry o d e u) = ground (arith, update_decision-keep c no_decision d u)
vetoed-Added x {c} (same_entry o d d' m e u) = ground (arith, update_decision-keep c d d' u)
vetoed-Added x (later_entry o d e a) = ground (arith, vetoed-Added x a)

pub DistinctKeys-Added :
    {c : Candidate} {m m' : Decisions} → Added c m m' → DistinctKeys m → DistinctKeys m'
unfolding has_key
DistinctKeys-Added (new_entry o d e u) k = (refl, tt)
DistinctKeys-Added (same_entry o d d' m e u) k = k
DistinctKeys-Added (later_entry o d e a) k =
    (ground (arith, has_key-Added o a), DistinctKeys-Added a k.1)

pub Sound-Added :
    (total : ℕ) {c : Candidate} {m m' : Decisions}
    → Added c m m'
    → 1 ≤ c.ordinal
    → c.ordinal ≤ total
    → valid_reason c.reason ≡ true
    → Sound total m
    → Sound total m'
Sound-Added total {c} (new_entry o d e u) p q v s =
    ((omega arith, omega arith, update_decision-Listed c no_decision d v tt u), tt)
Sound-Added total {c} (same_entry o d d' m e u) p q v s =
    ((s.0.0, s.0.1, update_decision-Listed c d d' v s.0.2 u), s.1)
Sound-Added total (later_entry o d e a) p q v s = (s.0, Sound-Added total a p q v s.1)
