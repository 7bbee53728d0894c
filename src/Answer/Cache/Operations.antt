-- ===== src/Answer/Cache/Operations.antt =====
-- The methods of the answer cache of services/answer-service/internal/application/cache.go; no cache
-- is the nil pointer. The time that a call reads from the clock is an argument.
use raglibrarian.Base.{
  ℕ, suc, ◌+◌, Bool, not, ◌&&◌, ◌||◌, List, [], ◌∷◌, ◌++◌, Option, none, some, ltb, ◌==◌,
  if◌then◌else◌, length, drop, is_empty, is_blank, text_eq, Result, ok, err, pos, pos_part, ltb_ℤ,
}
use raglibrarian.Answer.Evidence.{ContextEvidence}
use raglibrarian.Answer.Output.{AnswerSegment}
use raglibrarian.Answer.Request.{SearchRequest}
use raglibrarian.Answer.Cache.Query.{
  QueryMatch, SearchMetadata, CacheOutcome, bypass, hit, miss, stale, hard_mismatch,
  evidence_mismatch, same_answer_modes, canonical_answer_modes,
}
use raglibrarian.Answer.Cache.Tokens.{new_query_match, cacheable_search, queries_match}
use raglibrarian.Answer.Cache.Fingerprint.{
  evidence_projection_fingerprints, evidence_fingerprint, auth_scope_fingerprint, canonical_filters,
}
use raglibrarian.Answer.Cache.Store.{
  CachePolicy, CacheKey, CacheEntry, AnswerCache, FlightKey, CacheError, invalid_cache_policy,
  Environment, preferred_cache_miss_outcome, cache_match_hit, cached_segments_match_evidence,
  projections_match, prune_expired, touch, replace, Examined, other_key, found, missed, next_index,
}

abbrev second : ℕ
second = 1000000000

-- What a call of `lookup` or `store` is given.
pub record Ask : Type 0 where
  pub now : ℕ
  pub request : SearchRequest
  pub search : SearchMetadata
  pub evidence : List ContextEvidence

-- One call of the cache.
pub data CacheCall : Type 0 where
  look : Ask → CacheCall
  put : Ask → List AnswerSegment → CacheCall

abbrev pub Answered : Type 0
Answered = Option CacheEntry × CacheOutcome

-- The outcome before the loop of `lookup`: of a cache before and after it is pruned.
unfoldable pub first_outcome : AnswerCache → AnswerCache → CacheOutcome
first_outcome before pruned =
    if ltb (length pruned.entries) (length before.entries)
    then stale
    else if is_empty before.entries
    then miss
    else hard_mismatch

module _ (env : Environment) where
  unfoldable pub new_answer_cache : CachePolicy → Result CacheError (Option AnswerCache)
  new_answer_cache policy =
      let zero_cosine = env.floats.float_zero in
      if (pos_part policy.capacity == 0 && not (ltb_ℤ policy.capacity (pos 0)))
        || (pos_part policy.ttl == 0 && not (ltb_ℤ policy.ttl (pos 0)))
      then if ltb_ℤ policy.capacity (pos 0) || ltb_ℤ policy.ttl (pos 0)
        then err invalid_cache_policy
        else ok none
      else if ltb_ℤ policy.capacity (pos 1)
          || ltb_ℤ (pos 10000) policy.capacity
          || ltb_ℤ policy.ttl (pos second)
          || env.floats.less policy.minimum_cosine zero_cosine
          || env.floats.same policy.minimum_cosine zero_cosine
          || env.floats.less env.floats.float_one policy.minimum_cosine
          || is_blank policy.generator_profile
      then err invalid_cache_policy
      else ok (
          some (record {
            policy = policy;
            entries = [];
            stores = 0;
            evictions = 0;
            expired = 0;
            sequence = 0;
          }))

  -- `==` on two keys.
  unfoldable pub key_eq : CacheKey → CacheKey → Bool
  key_eq a b =
      text_eq a.auth_scope b.auth_scope
      && text_eq a.filters b.filters
      && a.limit == b.limit
      && env.floats.same a.minimum_evidence_score b.minimum_evidence_score
      && text_eq a.retrieval_profile b.retrieval_profile
      && text_eq a.generator_profile b.generator_profile
      && text_eq a.context_fingerprint b.context_fingerprint

  unfoldable pub key_of : CachePolicy → Ask → CacheKey
  key_of policy ask = record {
    auth_scope = auth_scope_fingerprint env.hash env.quote ask.request.actor;
    filters = canonical_filters env.hash env.quote ask.request.filters;
    limit = ask.request.limit;
    minimum_evidence_score = ask.request.minimum_evidence_score;
    retrieval_profile = ask.search.retrieval_profile;
    generator_profile = policy.generator_profile;
    context_fingerprint = evidence_fingerprint env.hash env.quote ask.evidence;
  }

  unfoldable pub query_of : Ask → QueryMatch
  query_of ask = new_query_match env.unicode ask.request.question ask.search

  unfoldable pub flight_key : Option AnswerCache → Ask → Option FlightKey
  flight_key none ask = none
  flight_key (some c) ask =
      let query = query_of ask in
      if not (cacheable_search env.floats ask.search)
      then none
      else some (record {
        key = key_of c.policy ask;
        normalized_query = query.normalized_query;
        modes = canonical_answer_modes query.modes;
      })

  -- The body of the loop of `lookup` up to its last lines.
  unfoldable pub examine :
      CachePolicy → CacheKey → QueryMatch → List ContextEvidence → CacheEntry → Examined
  examine policy key query evidence entry =
      let outcome = queries_match env.floats query entry.query policy.minimum_cosine in
      if not (key_eq entry.key key)
      then other_key
      else if not (cache_match_hit outcome)
      then missed outcome
      else if not (cached_segments_match_evidence entry.segments evidence)
      then missed evidence_mismatch
      else if not (
          projections_match entry.segments entry.evidence_projection
            (evidence_projection_fingerprints env.hash evidence))
      then missed evidence_mismatch
      else found

  -- The loop of `lookup` with its outcome so far: the entry that it returns, with its index.
  unfoldable pub scan :
      (CacheEntry → Examined)
      → CacheOutcome
      → List CacheEntry
      → Option (ℕ × CacheEntry) × CacheOutcome
  scan test outcome [] = (none, outcome)
  scan test outcome (e ∷ es) = elim (test e) [
    | found ↦ (some (0, e), hit)
    | other_key ↦ (next_index (scan test outcome es).0, (scan test outcome es).1)
    | missed o ↦ (
      next_index (scan test (preferred_cache_miss_outcome outcome o) es).0,
      (scan test (preferred_cache_miss_outcome outcome o) es).1,
    )
  ]

  abbrev pub taken : AnswerCache → Option (ℕ × CacheEntry) × CacheOutcome → AnswerCache × Answered
  taken c (none, outcome) = (c, (none, outcome))
  taken c (some (i, e), outcome) = (record c { entries = touch i c.entries }, (some e, outcome))

  unfoldable pub lookup_entry : AnswerCache → Ask → AnswerCache × Answered
  lookup_entry c ask =
      let pruned = prune_expired ask.now c in
      taken pruned (
        scan (examine c.policy (key_of c.policy ask) (query_of ask) ask.evidence)
          (first_outcome c pruned) pruned.entries)

  unfoldable pub lookup : Option AnswerCache → Ask → Option AnswerCache × Answered
  lookup none ask = (none, (none, bypass))
  lookup (some c) ask =
      let (c', answered) = lookup_entry c ask in
      if cacheable_search env.floats ask.search
      then (some c', answered)
      else (some c, (none, bypass))

  unfoldable pub entry_of : CachePolicy → Ask → List AnswerSegment → CacheEntry
  entry_of policy ask segments = record {
    created = ask.now;
    query = query_of ask;
    key = key_of policy ask;
    evidence_projection = evidence_projection_fingerprints env.hash ask.evidence;
    segments = segments;
  }

  unfoldable pub equivalent_cache_entry : CacheEntry → CacheEntry → Bool
  equivalent_cache_entry left right =
      key_eq left.key right.key
      && text_eq left.query.normalized_query right.query.normalized_query
      && same_answer_modes left.query.modes right.query.modes

  -- The index that the loop of `store` finds.
  unfoldable pub find_equivalent : CacheEntry → List CacheEntry → Option ℕ
  find_equivalent entry [] = none
  find_equivalent entry (e ∷ es) =
      let later : Option ℕ = elim (find_equivalent entry es) [
        | none ↦ none
        | some i ↦ some (suc i)
      ] in
      if equivalent_cache_entry e entry then some 0 else later

  -- The entries with a new one behind the pruned ones, from the index of its equal on.
  unfoldable pub put_entry : CacheEntry → AnswerCache → Option ℕ → AnswerCache
  put_entry entry c (some i) = record c { entries = touch i (replace i entry c.entries) }
  put_entry entry c none =
      if length c.entries == pos_part c.policy.capacity
      then record c { entries = drop 1 c.entries ++ (entry ∷ []); evictions = c.evictions + 1 }
      else record c { entries = c.entries ++ (entry ∷ []) }

  unfoldable pub store_entry : AnswerCache → Ask → List AnswerSegment → AnswerCache
  store_entry c ask segments =
      let entry = entry_of c.policy ask segments in
      let pruned = prune_expired ask.now c in
      let counted = record pruned { stores = pruned.stores + 1; sequence = pruned.sequence + 1 } in
      put_entry entry counted (find_equivalent entry counted.entries)

  unfoldable pub store : Option AnswerCache → Ask → List AnswerSegment → Option AnswerCache
  store none ask segments = none
  store (some c) ask segments =
      if cacheable_search env.floats ask.search then some (store_entry c ask segments) else some c

  -- The cache after a sequence of calls.
  unfoldable pub run : Option AnswerCache → List CacheCall → Option AnswerCache
  run o [] = o
  run o (look ask ∷ calls) = run (lookup o ask).0 calls
  run o (put ask segments ∷ calls) = run (store o ask segments) calls
