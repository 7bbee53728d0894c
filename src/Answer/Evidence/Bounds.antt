-- ===== src/Answer/Evidence/Bounds.antt =====
-- What holds of the selected evidence, after each step of the selection.
use raglibrarian.Base.{
  ℕ, ◌+◌, ◌≤◌, ◌≡◌, ◌⊎◌, inl, inr, if-both, refl, sym, ap, subst, Bool, true, false, not, ◌&&◌,
  ◌||◌, List, [], ◌∷◌, ◌++◌, map, All, All-append, arith, leb, ltb, length, length-append, Text,
  member, distinct, text_eq, text_eq_comm,
}
use raglibrarian.Answer.Evidence.{
  SearchResult, ContextEvidence, Limits, EvidenceCandidate, Picked, nothing, context_evidence,
  context_evidence_bytes, normalized_passage, usable, put_evidence, add, add_all, pick,
  evidence_candidates, select_evidence,
}

pub member-append :
    (s t : Text) (ts : List Text) → member s (ts ++ (t ∷ [])) ≡ (member s ts || text_eq s t)
unfolding member
member-append s t [] = ground arith
member-append s t (u ∷ ts) = ground (arith, member-append s t ts)

distinct-append :
    (t : Text) (ts : List Text)
    → distinct ts ≡ true
    → member t ts ≡ false
    → distinct (ts ++ (t ∷ [])) ≡ true
unfolding distinct member
distinct-append t [] d h = ground arith
distinct-append t (u ∷ ts) d h =
    ground (arith, distinct-append t ts, member-append u t ts, text_eq_comm t u)

pub map-append :
    {A B : Type 0} (f : A → B) (x : A) (xs : List A)
    → map f (xs ++ (x ∷ [])) ≡ map f xs ++ (f x ∷ [])
map-append f x [] = refl
map-append f x (y ∷ xs) = ap (◌∷◌ (f y)) (map-append f x xs)

abbrev pub ids : List ContextEvidence → List Text
ids vs = map (λ (v : ContextEvidence). v.evidence_id) vs

abbrev pub passages : List ContextEvidence → List Text
passages vs = map normalized_passage vs

unfoldable pub context_bytes : List ContextEvidence → ℕ
context_bytes [] = 0
context_bytes (v ∷ vs) = context_evidence_bytes v + context_bytes vs

pub context_bytes-append :
    (v : ContextEvidence) (vs : List ContextEvidence)
    → context_bytes (vs ++ (v ∷ [])) ≡ context_bytes vs + context_evidence_bytes v
unfolding context_bytes
context_bytes-append v [] = omega arith
context_bytes-append v (w ∷ vs) = omega (arith, context_bytes-append v vs)

-- Evidence within the limits: not too much of it nor too large, each piece usable, no identifier
-- and no passage twice.
pub record Within (limits : Limits) (vs : List ContextEvidence) : Type 0 where
  pub few : length vs ≤ limits.maximum_evidence
  pub small : context_bytes vs ≤ limits.maximum_context_bytes
  pub all_usable : All (λ v. usable limits v ≡ true) vs
  pub distinct_ids : distinct (ids vs) ≡ true
  pub distinct_passages : distinct (passages vs) ≡ true

-- The sets and the sum that the code keeps are those of the selected evidence.
pub record Tracks (p : Picked) : Type 0 where
  pub all_seen : p.seen ≡ ids p.selected
  pub all_passages : p.seen_passages ≡ passages p.selected
  pub sum : p.total ≡ context_bytes p.selected

put_evidence-Tracks :
    (p : Picked) (v : ContextEvidence) (group : Text) → Tracks p → Tracks (put_evidence p v group)
unfolding put_evidence
put_evidence-Tracks p v group t = record {
  all_seen = cc (t.all_seen, map-append (λ (v : ContextEvidence). v.evidence_id) v p.selected);
  all_passages = cc (t.all_passages, map-append normalized_passage v p.selected);
  sum = ground (arith, t.sum, context_bytes-append v p.selected);
}

put_evidence-Within :
    (limits : Limits) (p : Picked) (v : ContextEvidence) (group : Text)
    → Within limits p.selected
    → length p.selected + 1 ≤ limits.maximum_evidence
    → usable limits v ≡ true
    → member v.evidence_id (ids p.selected) ≡ false
    → member (normalized_passage v) (passages p.selected) ≡ false
    → context_bytes p.selected + context_evidence_bytes v ≤ limits.maximum_context_bytes
    → Within limits (put_evidence p v group).selected
unfolding put_evidence
put_evidence-Within limits p v group w room good new_id new_passage fits = record {
  few = ground (arith, length-append p.selected (v ∷ []));
  small = ground (arith, context_bytes-append v p.selected);
  all_usable = All-append (λ v. usable limits v ≡ true) p.selected (v ∷ []) w.all_usable (good, tt);
  distinct_ids =
      subst (λ x. distinct x ≡ true)
        (sym (map-append (λ (v : ContextEvidence). v.evidence_id) v p.selected))
        (distinct-append v.evidence_id (ids p.selected) w.distinct_ids new_id);
  distinct_passages =
      subst (λ x. distinct x ≡ true) (sym (map-append normalized_passage v p.selected))
        (distinct-append (normalized_passage v) (passages p.selected) w.distinct_passages
          new_passage);
}

-- Is there room for one more piece beside what is selected?
unfoldable pub could_add : Limits → List ContextEvidence → ContextEvidence → Bool
could_add limits vs v =
    ltb (length vs) limits.maximum_evidence
    && usable limits v
    && not (member v.evidence_id (ids vs))
    && not (member (normalized_passage v) (passages vs))
    && leb (context_bytes vs + context_evidence_bytes v) limits.maximum_context_bytes

-- `add` puts what there is room for; it leaves out the rest, and what a group rules out.
pub add-cases :
    (limits : Limits) (new : Bool) (c : EvidenceCandidate) (p : Picked)
    → Tracks p
    → let v = context_evidence c.evidence in
      ((add limits new c p ≡ p) × ((new ≡ false) → could_add limits p.selected v ≡ false))
      ⊎ ((add limits new c p ≡ put_evidence p v c.group) × (could_add limits p.selected v ≡ true))
unfolding add could_add
add-cases limits new c p t = ground (arith, t.all_seen, t.all_passages, t.sum)

pub add-Within :
    (limits : Limits) (new : Bool) (c : EvidenceCandidate) (p : Picked)
    → Tracks p
    → Within limits p.selected
    → Tracks (add limits new c p) × Within limits (add limits new c p).selected
unfolding could_add
add-Within limits new c p t w =
    let v = context_evidence c.evidence in
    elim (add-cases limits new c p t) [
      | inl (same, _) ↦ rw same (t, w)
      | inr (put, room) ↦ rw put (
        put_evidence-Tracks p v c.group t,
        put_evidence-Within limits p v c.group w (ground (arith, room)) (ground (arith, room))
            (ground (arith, room)) (ground (arith, room)) (ground (arith, room)),
      )
    ]

pub add_all-Within :
    (limits : Limits) (new : Bool) (cs : List EvidenceCandidate) (p : Picked)
    → Tracks p
    → Within limits p.selected
    → Tracks (add_all limits new cs p) × Within limits (add_all limits new cs p).selected
unfolding add_all
add_all-Within limits new [] p t w = (t, w)
add_all-Within limits new (c ∷ cs) p t w =
    let (t1, w1) = add-Within limits new c p t w in
    let rest = add_all-Within limits new cs (add limits new c p) t1 w1 in
    if-both (λ q. Tracks q × Within limits q.selected)
      (leb limits.maximum_evidence (length p.selected)) p
      (add_all limits new cs (add limits new c p)) (λ _. (t, w)) rest

pub nothing-Within : (limits : Limits) → Tracks nothing × Within limits nothing.selected
unfolding context_bytes distinct
nothing-Within limits = (
  record { all_seen = refl; all_passages = refl; sum = refl },
  record {
    few = omega arith;
    small = omega arith;
    all_usable = tt;
    distinct_ids = refl;
    distinct_passages = refl;
  },
)

-- The selected evidence is within the limits: the number of pieces, the bytes of each and of all
-- together; each piece is usable, and no identifier and no normalized passage stands twice.
pub select_evidence-Within :
    (found : SearchResult) (limits : Limits) → Within limits (select_evidence found limits)
unfolding select_evidence pick
select_evidence-Within found limits =
    let candidates = evidence_candidates found in
    let (t0, w0) = nothing-Within limits in
    let (t1, w1) = add_all-Within limits true candidates nothing t0 w0 in
    let (t2, w2) =
      add_all-Within limits false candidates (add_all limits true candidates nothing) t1 w1 in
    let diverse = add_all limits true candidates nothing in
    if-both (λ q. Within limits q.selected) (leb limits.maximum_evidence (length diverse.selected))
      diverse (add_all limits false candidates diverse) (λ _. w1) w2
