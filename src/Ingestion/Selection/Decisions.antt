-- ===== src/Ingestion/Selection/Decisions.antt =====
-- The decisions collected from the candidates: their keys, their reasons and the vetoes.
use raglibrarian.Base.{
  ℕ, ◌≤◌, ◌≡◌, inl, inr, refl, Bool, true, false, ◌&&◌, ◌||◌, List, [], ◌∷◌, some, arith, All, ◌==◌,
  Option-cases, subst,
}
use raglibrarian.Ingestion.Selection.{
  Reason, Candidate, Decision, Decisions, Policy, valid_reason, add_candidate, collect, exclusion,
  excluded,
}
use raglibrarian.Ingestion.Selection.Ranges.{has_ordinal, Within, Distinct}
use raglibrarian.Ingestion.Selection.Updates.{
  Added, DistinctKeys, DistinctKeys-Added, Listed, Sound, Sound-Added, add_candidate-Added, has_key,
  vetoed, vetoed-Added,
}

-- What holds of the decisions of a run over candidates.
pub record Collected (total : ℕ) (m : Decisions) : Type 0 where
  pub sound : Sound total m
  pub distinct : DistinctKeys m

-- The checks that a candidate passes, and the map behind it.
collect-step :
    (total : ℕ) (c : Candidate) (cs : List Candidate) (m m' : Decisions)
    → collect total (c ∷ cs) m ≡ some m'
    → (m'' : Decisions) × Added c m m''
      × (collect total cs m'' ≡ some m')
      × (1 ≤ c.ordinal)
      × (c.ordinal ≤ total)
      × (valid_reason c.reason ≡ true)
unfolding collect
collect-step total c cs m m' h = elim (Option-cases (add_candidate c m)) [
  | inl u ↦ absurd (ground arith)
  | inr (m'', u) ↦
      (m'', add_candidate-Added c m m'' u, ground arith, ground arith, ground arith, ground arith)
]

pub collect-Collected :
    (total : ℕ) (cs : List Candidate) (m m' : Decisions)
    → Collected total m
    → collect total cs m ≡ some m'
    → Collected total m'
unfolding collect
collect-Collected total [] m m' k h = subst (Collected total) {x = m} (ground arith) k
collect-Collected total (c ∷ cs) m m' k h =
    let (m'', a, rest, p, q, v) = collect-step total c cs m m' h in
    collect-Collected total cs m'' m'
      (record {
        sound = Sound-Added total a p q v k.sound;
        distinct = DistinctKeys-Added a k.distinct;
      })
      rest

-- One of the candidates asks to keep the location.
unfoldable pub asks_to_keep : ℕ → List Candidate → Bool
asks_to_keep x [] = false
asks_to_keep x (c ∷ cs) = (x == c.ordinal && c.keep) || asks_to_keep x cs

pub collect-vetoed :
    (x total : ℕ) (cs : List Candidate) (m m' : Decisions)
    → collect total cs m ≡ some m'
    → vetoed x m' ≡ (vetoed x m || asks_to_keep x cs)
unfolding collect asks_to_keep
collect-vetoed x total [] m m' h = ground arith
collect-vetoed x total (c ∷ cs) m m' h =
    let (m'', a, rest, p, q, v) = collect-step total c cs m m' h in
    ground (arith, vetoed-Added x a, collect-vetoed x total cs m'' m' rest)

-- What is left out has one listed reason and no veto.
exclusion-valid :
    (policy : Policy) (d : Decision) (r : Reason)
    → Listed d.reasons
    → exclusion policy d ≡ some r
    → (valid_reason r ≡ true) × (d.keep ≡ false)
unfolding exclusion
exclusion-valid policy d r l h = ground arith

pub excluded-Within :
    (policy : Policy) (total : ℕ) (m : Decisions)
    → Sound total m
    → Within total (excluded policy m) × All (λ e. 1 ≤ e.0) (excluded policy m)
unfolding excluded
excluded-Within policy total [] s = (tt, tt)
excluded-Within policy total ((o, d) ∷ m) s = elim (Option-cases (exclusion policy d)) [
  | inl u ↦ rw (u, excluded) (excluded-Within policy total m s.1)
  | inr (r, u) ↦
      let rest = excluded-Within policy total m s.1 in
      rw (u, excluded) (((s.0.1, (exclusion-valid policy d r s.0.2 u).0), rest.0), (s.0.0, rest.1))
]

has_ordinal-excluded :
    (x : ℕ) (policy : Policy) (m : Decisions)
    → has_ordinal x (excluded policy m) ≡ true
    → has_key x m ≡ true
unfolding excluded has_ordinal has_key
has_ordinal-excluded x policy [] h = h
has_ordinal-excluded x policy ((o, d) ∷ m) h = ground (arith, has_ordinal-excluded x policy m)

pub excluded-Distinct :
    (policy : Policy) (m : Decisions) → DistinctKeys m → Distinct (excluded policy m)
unfolding excluded
excluded-Distinct policy [] k = tt
excluded-Distinct policy ((o, d) ∷ m) k = elim (Option-cases (exclusion policy d)) [
  | inl u ↦ rw (u, excluded) (excluded-Distinct policy m k.1)
  | inr (r, u) ↦
      rw (u, excluded)
        (ground (arith, has_ordinal-excluded o policy m), excluded-Distinct policy m k.1)
]

vetoed-has_key : (x : ℕ) (m : Decisions) → vetoed x m ≡ true → has_key x m ≡ true
unfolding vetoed has_key
vetoed-has_key x [] h = h
vetoed-has_key x ((o, d) ∷ m) h = ground (arith, vetoed-has_key x m)

-- A veto keeps a location out of the excluded ones.
pub vetoed-excluded :
    (x : ℕ) (policy : Policy) (m : Decisions)
    → DistinctKeys m
    → vetoed x m ≡ true
    → has_ordinal x (excluded policy m) ≡ false
unfolding vetoed excluded has_ordinal exclusion
vetoed-excluded x policy [] k h = refl
vetoed-excluded x policy ((o, d) ∷ m) k h =
    ground
      (arith, has_ordinal-excluded x policy m, vetoed-has_key x m, vetoed-excluded x policy m k.1)
