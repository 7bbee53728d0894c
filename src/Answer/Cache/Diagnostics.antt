-- ===== src/Answer/Cache/Diagnostics.antt =====
-- What services/answer-service/internal/application/cache.go reports of the cache.
use raglibrarian.Base.{ℕ, Option, none, some, if◌then◌else◌, length, is_empty, is_blank}
use raglibrarian.Answer.Cache.Query.{
  SearchMetadata, CacheOutcome, bypass, hard_mismatch, evidence_mismatch, generation_coalesced,
  validation_mismatch,
}
use raglibrarian.Answer.Cache.Store.{AnswerCache}

pub data Stage : Type 0 where
  policy_stage metadata_stage match_stage validation_stage coordination_stage : Stage

-- The reason of a bypass, of a mismatch of the key, or the outcome itself.
pub data Reason : Type 0 where
  cache_disabled embedding_profile_missing retrieval_profile_missing : Reason
  query_embedding_missing query_embedding_invalid cache_key_mismatch : Reason
  outcome_reason : CacheOutcome → Reason

pub record CacheDiagnostic : Type 0 where
  pub outcome : CacheOutcome
  pub stage : Stage
  pub reason : Reason

pub record CacheOperationalState : Type 0 where
  pub entries : ℕ
  pub stores : ℕ
  pub evictions : ℕ
  pub expired : ℕ
  pub sequence : ℕ

unfoldable pub operational_state : Option AnswerCache → CacheOperationalState
operational_state none = record {
  entries = 0;
  stores = 0;
  evictions = 0;
  expired = 0;
  sequence = 0;
}
operational_state (some c) = record {
  entries = length c.entries;
  stores = c.stores;
  evictions = c.evictions;
  expired = c.expired;
  sequence = c.sequence;
}

unfoldable pub bypass_reason : SearchMetadata → Reason
bypass_reason search =
    if is_blank search.embedding_profile
    then embedding_profile_missing
    else if is_blank search.retrieval_profile
    then retrieval_profile_missing
    else if is_empty search.query_embedding
    then query_embedding_missing
    else query_embedding_invalid

unfoldable pub diagnose : Option AnswerCache → SearchMetadata → CacheOutcome → CacheDiagnostic
diagnose none search bypass = record {
  outcome = bypass;
  stage = policy_stage;
  reason = cache_disabled;
}
diagnose (some c) search bypass = record {
  outcome = bypass;
  stage = metadata_stage;
  reason = bypass_reason search;
}
diagnose c search hard_mismatch = record {
  outcome = hard_mismatch;
  stage = match_stage;
  reason = cache_key_mismatch;
}
diagnose c search evidence_mismatch = record {
  outcome = evidence_mismatch;
  stage = validation_stage;
  reason = outcome_reason evidence_mismatch;
}
diagnose c search validation_mismatch = record {
  outcome = validation_mismatch;
  stage = validation_stage;
  reason = outcome_reason validation_mismatch;
}
diagnose c search generation_coalesced = record {
  outcome = generation_coalesced;
  stage = coordination_stage;
  reason = outcome_reason generation_coalesced;
}
diagnose c search outcome = record {
  outcome = outcome;
  stage = match_stage;
  reason = outcome_reason outcome;
}
