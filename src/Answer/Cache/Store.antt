-- ===== src/Answer/Cache/Store.antt =====
-- The entries of the answer cache of services/answer-service/internal/application/cache.go. An instant
-- and the life of an entry are in nanoseconds; the counters are unbounded. A copy of segments or of a
-- map is the value itself.
use raglibrarian.Base.{
  ℕ, zero, suc, ◌+◌, ◌-◌, Bool, true, false, not, ◌&&◌, List, [], ◌∷◌, ◌++◌, Option, none, some,
  map, ltb, if◌then◌else◌, length, keep, is_empty, Text, text_eq, member, all, ℤ, pos_part,
}
use raglibrarian.Answer.Evidence.{ContextEvidence}
use raglibrarian.Answer.Output.{AnswerSegment}
use raglibrarian.Answer.Cache.Query.{
  Unicode, Floats, QueryMatch, CacheOutcome, hit, stale, mode_mismatch, topic_mismatch,
  semantic_mismatch, guard_mismatch, hard_mismatch, evidence_mismatch,
}

-- `minimum_cosine` is a float64.
pub record CachePolicy : Type 0 where
  pub capacity : ℤ
  pub ttl : ℤ
  pub minimum_cosine : ℕ
  pub generator_profile : Text

pub record CacheKey : Type 0 where
  pub auth_scope : Text
  pub filters : Text
  pub limit : ℕ
  pub minimum_evidence_score : ℕ
  pub retrieval_profile : Text
  pub generator_profile : Text
  pub context_fingerprint : Text

pub record CacheEntry : Type 0 where
  pub created : ℕ
  pub query : QueryMatch
  pub key : CacheKey
  pub evidence_projection : List (Text × Text)
  pub segments : List AnswerSegment

pub record AnswerCache : Type 0 where
  pub policy : CachePolicy
  pub entries : List CacheEntry
  pub stores : ℕ
  pub evictions : ℕ
  pub expired : ℕ
  pub sequence : ℕ

pub record FlightKey : Type 0 where
  pub key : CacheKey
  pub normalized_query : Text
  pub modes : Text

pub data CacheError : Type 0 where
  invalid_cache_policy : CacheError

-- What the cache takes from other packages.
pub record Environment : Type 0 where
  pub unicode : Unicode
  pub floats : Floats
  pub hash : Text → Text
  pub quote : Text → Text

unfoldable pub cache_miss_outcome_priority : CacheOutcome → ℕ
cache_miss_outcome_priority evidence_mismatch = 7
cache_miss_outcome_priority guard_mismatch = 6
cache_miss_outcome_priority mode_mismatch = 5
cache_miss_outcome_priority topic_mismatch = 4
cache_miss_outcome_priority semantic_mismatch = 3
cache_miss_outcome_priority stale = 2
cache_miss_outcome_priority hard_mismatch = 1
cache_miss_outcome_priority _ = 0

unfoldable pub preferred_cache_miss_outcome : CacheOutcome → CacheOutcome → CacheOutcome
preferred_cache_miss_outcome current candidate =
    if ltb (cache_miss_outcome_priority current) (cache_miss_outcome_priority candidate)
    then candidate
    else current

unfoldable pub cache_match_hit : CacheOutcome → Bool
cache_match_hit hit = true
cache_match_hit _ = false

-- The identifiers of the evidence hold all that the segments cite, and each segment cites some.
unfoldable pub cached_segments_match_evidence : List AnswerSegment → List ContextEvidence → Bool
cached_segments_match_evidence segments evidence =
    let allowed = map (λ e. e.evidence_id) evidence in
    all (λ s. not (is_empty s.evidence_ids) && all (λ id. member id allowed) s.evidence_ids)
      segments

-- `m[key]`, if it is there.
unfoldable pub find_text : Text → List (Text × Text) → Option Text
find_text key [] = none
find_text key ((k, v) ∷ rest) =
    let later = find_text key rest in if text_eq key k then some v else later

abbrev pub or_empty : Option Text → Text
or_empty none = []
or_empty (some s) = s

unfoldable pub same_projection : List (Text × Text) → List (Text × Text) → Text → Bool
same_projection cached current id = elim (find_text id cached) [
  | none ↦ false
  | some digest ↦ text_eq (or_empty (find_text id current)) digest
]

-- `current` is what the code makes of the evidence.
unfoldable pub projections_match :
    List AnswerSegment → List (Text × Text) → List (Text × Text) → Bool
projections_match segments cached current =
    all (λ s. all (same_projection cached current) s.evidence_ids) segments

-- The loop of `pruneExpired`: `now.Sub(created) < ttl`.
abbrev pub live : CachePolicy → ℕ → CacheEntry → Bool
live policy now entry = ltb now (entry.created + pos_part policy.ttl)

unfoldable pub prune_expired : ℕ → AnswerCache → AnswerCache
prune_expired now c =
    let entries = keep (live c.policy now) c.entries in
    let pruned = length c.entries - length entries in
    record c {
      entries = entries;
      expired = c.expired + pruned;
      sequence = if ltb 0 pruned then c.sequence + 1 else c.sequence;
    }

-- The entry at an index moves to the end.
unfoldable pub touch : ℕ → List CacheEntry → List CacheEntry
touch i [] = []
touch zero (e ∷ es) = es ++ (e ∷ [])
touch (suc i) (e ∷ es) = e ∷ touch i es

unfoldable pub replace : ℕ → CacheEntry → List CacheEntry → List CacheEntry
replace i entry [] = []
replace zero entry (e ∷ es) = entry ∷ es
replace (suc i) entry (e ∷ es) = e ∷ replace i entry es

-- What the loop of `lookup` does at one entry: `continue` at once or with an outcome, or return.
pub data Examined : Type 0 where
  other_key found : Examined
  missed : CacheOutcome → Examined

abbrev pub next_index : Option (ℕ × CacheEntry) → Option (ℕ × CacheEntry)
next_index none = none
next_index (some (i, e)) = some (suc i, e)
