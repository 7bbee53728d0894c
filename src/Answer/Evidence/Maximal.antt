-- ===== src/Answer/Evidence/Maximal.antt =====
-- No candidate that is left out would have fitted.
use raglibrarian.Base.{
  ◌≡◌, inl, inr, refl, Bool, true, false, if-both, List, [], ◌∷◌, ◌++◌, All, arith, leb, length,
  length-append, text_eq_refl,
}
use raglibrarian.Answer.Evidence.{
  SearchResult, ContextEvidence, Limits, EvidenceCandidate, Picked, nothing, context_evidence,
  normalized_passage, put_evidence, add, add_all, pick, evidence_candidates, select_evidence,
}
use raglibrarian.Answer.Evidence.Bounds.{
  map-append, member-append, ids, passages, context_bytes-append, Within, Tracks, could_add,
  add-cases, add-Within, add_all-Within, nothing-Within,
}

-- What does not fit beside some evidence does not fit beside more of it.
could_add-append :
    (limits : Limits) (x v : ContextEvidence) (vs : List ContextEvidence)
    → could_add limits vs v ≡ false
    → could_add limits (vs ++ (x ∷ [])) v ≡ false
unfolding could_add
could_add-append limits x v vs h =
    rw
      (
        map-append (λ (v : ContextEvidence). v.evidence_id) x vs,
        map-append normalized_passage x vs,
        length-append vs (x ∷ []),
        context_bytes-append x vs,
        member-append v.evidence_id x.evidence_id (ids vs),
        member-append (normalized_passage v) (normalized_passage x) (passages vs),
      )
      (ground (arith, h))

could_add-itself :
    (limits : Limits) (x : ContextEvidence) (vs : List ContextEvidence)
    → could_add limits (vs ++ (x ∷ [])) x ≡ false
unfolding could_add
could_add-itself limits x vs =
    rw
      (
        map-append (λ (v : ContextEvidence). v.evidence_id) x vs,
        member-append x.evidence_id x.evidence_id (ids vs),
      )
      (ground (arith, text_eq_refl x.evidence_id))

could_add-full :
    (limits : Limits) (v : ContextEvidence) (vs : List ContextEvidence)
    → leb limits.maximum_evidence (length vs) ≡ true
    → could_add limits vs v ≡ false
unfolding could_add
could_add-full limits v vs h = ground arith

-- There is no room for the candidate.
abbrev pub Left : Limits → List ContextEvidence → EvidenceCandidate → Type 0
Left limits vs c = could_add limits vs (context_evidence c.evidence) ≡ false

All-full :
    (limits : Limits) (vs : List ContextEvidence) (cs : List EvidenceCandidate)
    → leb limits.maximum_evidence (length vs) ≡ true
    → All (Left limits vs) cs
All-full limits vs [] h = tt
All-full limits vs (c ∷ cs) h =
    (could_add-full limits (context_evidence c.evidence) vs h, All-full limits vs cs h)

add-keeps :
    (limits : Limits) (new : Bool) (c : EvidenceCandidate) (p : Picked) (v : ContextEvidence)
    → Tracks p
    → could_add limits p.selected v ≡ false
    → could_add limits (add limits new c p).selected v ≡ false
unfolding put_evidence
add-keeps limits new c p v t h = elim (add-cases limits new c p t) [
  | inl (same, _) ↦ rw same h
  | inr (put, _) ↦ rw put (could_add-append limits (context_evidence c.evidence) v p.selected h)
]

add_all-keeps :
    (limits : Limits) (new : Bool) (cs : List EvidenceCandidate) (p : Picked) (v : ContextEvidence)
    → Tracks p
    → Within limits p.selected
    → could_add limits p.selected v ≡ false
    → could_add limits (add_all limits new cs p).selected v ≡ false
unfolding add_all
add_all-keeps limits new [] p v t w h = h
add_all-keeps limits new (c ∷ cs) p v t w h =
    let (t1, w1) = add-Within limits new c p t w in
    if-both (λ q. could_add limits q.selected v ≡ false)
      (leb limits.maximum_evidence (length p.selected)) p
      (add_all limits new cs (add limits new c p)) (λ _. h)
      (add_all-keeps limits new cs (add limits new c p) v t1 w1 (add-keeps limits new c p v t h))

add-settles :
    (limits : Limits) (c : EvidenceCandidate) (p : Picked)
    → Tracks p
    → Left limits (add limits false c p).selected c
unfolding put_evidence
add-settles limits c p t = elim (add-cases limits false c p t) [
  | inl (same, left) ↦ rw same (left refl)
  | inr (put, _) ↦ rw put (could_add-itself limits (context_evidence c.evidence) p.selected)
]

add_all-settles :
    (limits : Limits) (cs : List EvidenceCandidate) (p : Picked)
    → Tracks p
    → Within limits p.selected
    → All (Left limits (add_all limits false cs p).selected) cs
unfolding add_all
add_all-settles limits [] p t w = tt
add_all-settles limits (c ∷ cs) p t w =
    let q = add limits false c p in
    let (t1, w1) = add-Within limits false c p t w in
    if-both (λ r. All (Left limits r.selected) (c ∷ cs))
      (leb limits.maximum_evidence (length p.selected)) p (add_all limits false cs q)
      (λ full. All-full limits p.selected (c ∷ cs) full)
      (
        add_all-keeps limits false cs q (context_evidence c.evidence) t1 w1
            (add-settles limits c p t),
        add_all-settles limits cs q t1 w1,
      )

-- Beside the selected evidence there is no room for any candidate: it is one too many, it is not
-- usable, its identifier or its normalized passage is there, or it has too many bytes.
pub select_evidence-could_add :
    (found : SearchResult) (limits : Limits)
    → All (Left limits (select_evidence found limits)) (evidence_candidates found)
unfolding select_evidence pick
select_evidence-could_add found limits =
    let candidates = evidence_candidates found in
    let diverse = add_all limits true candidates nothing in
    let (t0, w0) = nothing-Within limits in
    let (t1, w1) = add_all-Within limits true candidates nothing t0 w0 in
    if-both (λ q. All (Left limits q.selected) candidates)
      (leb limits.maximum_evidence (length diverse.selected)) diverse
      (add_all limits false candidates diverse)
      (λ full. All-full limits diverse.selected candidates full)
      (add_all-settles limits candidates diverse t1 w1)
