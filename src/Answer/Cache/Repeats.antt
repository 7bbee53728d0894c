-- ===== src/Answer/Cache/Repeats.antt =====
-- The test of a stored entry against the question that it was stored for.
use raglibrarian.Base.{
  ℕ, ◌||◌, ◌≡◌, refl, ap, Bool, true, false, List, [], ◌∷◌, arith, inl, inr, Bool-cases,
  Option-cases, map, all, is_some, is_empty, text_eq_refl, Text, text_eq, text_eq-false, member,
}
use raglibrarian.Answer.Evidence.{ContextEvidence}
use raglibrarian.Answer.Output.{AnswerSegment}
use raglibrarian.Answer.Cache.Query.{same_tokens, QueryMatch, hit}
use raglibrarian.Answer.Cache.Tokens.{queries_match}
use raglibrarian.Answer.Cache.Fingerprint.{
  evidence_projection_fingerprints, add_projections, evidence_projection_fingerprint,
}
use raglibrarian.Answer.Cache.Store.{
  CachePolicy, CacheKey, Environment, found, cache_match_hit, cached_segments_match_evidence,
  projections_match, find_text, same_projection,
}
use raglibrarian.Answer.Cache.Operations.{Ask, key_eq, key_of, query_of, examine, entry_of}

same_tokens_refl : (s : List Text) → same_tokens s s ≡ true
unfolding same_tokens
same_tokens_refl [] = refl
same_tokens_refl (t ∷ s) = ground (arith, text_eq_refl t, same_tokens_refl s)

-- A test of every member.
all-member :
    (p : Text → Bool) (ids allowed : List Text)
    → ((id : Text) → member id allowed ≡ true → p id ≡ true)
    → all (λ id. member id allowed) ids ≡ true
    → all p ids ≡ true
all-member p [] allowed h a = refl
all-member p (id ∷ ids) allowed h a = ground (arith, h id, all-member p ids allowed h)

module _ (env : Environment) where
  find_text-projection :
      (id : Text) (evidence : List ContextEvidence) (result : List (Text × Text))
      → (member id (map (λ e. e.evidence_id) evidence) || is_some (find_text id result)) ≡ true
      → is_empty id ≡ false
      → is_some (find_text id (add_projections env.hash result evidence)) ≡ true
  unfolding add_projections find_text member
  find_text-projection id [] result h k = h
  find_text-projection id (e ∷ es) result h k = elim (Bool-cases (is_empty e.evidence_id)) [
    | inl blank ↦
        let other : text_eq id e.evidence_id ≡ false =
          text_eq-false id e.evidence_id (λ same. ground (arith, ap is_empty same)) in
        rw blank (find_text-projection id es result (ground arith) k)
    | inr named ↦ rw named (
        find_text-projection id es
          ((e.evidence_id, evidence_projection_fingerprint env.hash e) ∷ result) (ground arith) k)
  ]

  same_projection-some :
      (projections : List (Text × Text)) (id : Text)
      → is_some (find_text id projections) ≡ true
      → same_projection projections projections id ≡ true
  unfolding same_projection
  same_projection-some projections id h = elim (Option-cases (find_text id projections)) [
    | inl missing ↦ ground arith
    | inr (digest, there) ↦ ground (arith, text_eq_refl digest)
  ]

  -- Every piece of evidence has an identifier.
  abbrev pub Named : List ContextEvidence → Type 0
  Named evidence =
      (id : Text) → member id (map (λ e. e.evidence_id) evidence) ≡ true → is_empty id ≡ false

  projections_match_refl :
      (segments : List AnswerSegment) (evidence : List ContextEvidence)
      → Named evidence
      → cached_segments_match_evidence segments evidence ≡ true
      → projections_match segments
          (evidence_projection_fingerprints env.hash evidence)
          (evidence_projection_fingerprints env.hash evidence)
        ≡ true
  unfolding cached_segments_match_evidence projections_match evidence_projection_fingerprints
  projections_match_refl [] evidence n h = refl
  projections_match_refl (s ∷ segments) evidence n h = ground (
    arith,
    all-member
        (same_projection (evidence_projection_fingerprints env.hash evidence)
          (evidence_projection_fingerprints env.hash evidence))
        s.evidence_ids (map (λ e. e.evidence_id) evidence)
        (λ id there.
          same_projection-some (evidence_projection_fingerprints env.hash evidence) id
            (find_text-projection id evidence [] (ground arith) (n id there))),
    projections_match_refl segments evidence n,
  )

  key_eq_refl :
      (k : CacheKey)
      → env.floats.same k.minimum_evidence_score k.minimum_evidence_score ≡ true
      → key_eq env k k ≡ true
  unfolding key_eq
  key_eq_refl k score = ground (
    arith,
    text_eq_refl k.auth_scope,
    text_eq_refl k.filters,
    text_eq_refl k.retrieval_profile,
    text_eq_refl k.generator_profile,
    text_eq_refl k.context_fingerprint,
  )

  queries_match_refl :
      (query : QueryMatch) (minimum : ℕ) → queries_match env.floats query query minimum ≡ hit
  unfolding queries_match
  queries_match_refl query minimum = ground (
    arith,
    text_eq_refl query.embedding_profile,
    text_eq_refl query.normalized_query,
    same_tokens_refl query.guard_tokens,
  )

  -- The test of a stored entry against the question that it was stored for.
  pub examine_stored :
      (policy : CachePolicy) (ask : Ask) (segments : List AnswerSegment) (later : ℕ)
      → env.floats.same ask.request.minimum_evidence_score ask.request.minimum_evidence_score ≡ true
      → Named ask.evidence
      → cached_segments_match_evidence segments ask.evidence ≡ true
      → let again : Ask = record ask { now = later } in
        examine env policy
          (key_of env policy again)
          (query_of env again)
          ask.evidence
          (entry_of env policy ask segments)
        ≡ found
  unfolding examine key_of query_of entry_of cache_match_hit
  examine_stored policy ask segments later score named cited =
      let query = query_of env ask in
      ground (
        arith,
        key_eq_refl (key_of env policy ask) score,
        ap cache_match_hit (queries_match_refl query policy.minimum_cosine),
        cited,
        projections_match_refl segments ask.evidence named cited,
      )
