-- ===== src/Ingestion/Layout.antt =====
-- services/ingestion-service/internal/layoutworker/service.go, behind the decoding of a request, and in
-- the child Contract what contract.go checks. What the object store and the analyzer give is an
-- argument; so are the digest of a policy and the identifier hashed from a request. The error of
-- a call is none.
mod Contract
pub mod Ranges
pub mod Process
pub mod Tests
unfoldable pub use Contract.*
use raglibrarian.Base.{
  ℕ, ◌+◌, Bool, true, false, not, ◌&&◌, ◌||◌, List, [], ◌∷◌, Option, none, some, leb, ltb, ◌==◌,
  if◌then◌else◌, length, is_empty, ℤ, pos, ltb_ℤ, leb_ℤ, Text, literal, text_eq,
}
use raglibrarian.Ingestion.Selection.{
  Reason, Range, Policy, Candidate, Fallback, title, copyright_imprint, dedication_ornamental,
  table_of_contents, list_of_figures_tables, publisher_catalog_advertising, fallback_none,
  invalid_policy, invalid_input, excluded_ratio, range_limit, decide, max_uint32,
}
use raglibrarian.Ingestion.Completion.{
  Mode, ExclusionReason, FallbackReason, ExcludedRange, Completed, title_page, copyright_or_imprint,
  dedication_or_ornamental_blank, table_or_list, publisher_catalog_or_advertising, other_reason,
  no_fallback, observed, processing_timeout, invalid_output, ambiguous_mapping, resource_limit,
  excessive_exclusion, internal_error, other_fallback, observation, enforcement, is_observation,
  is_enforcement, is_no_fallback, is_observed, exclusion_reason_eq, safe_id, safe_version,
}

pub record Config : Type 0 where
  pub maximum_source_bytes : ℤ
  pub policy : Policy
  pub parser_version : Text
  pub model_digest : ℕ

-- `exclusionReason`; a reason that the map does not have gives the zero of the enumeration.
unfoldable pub exclusion_reason : Reason → ExclusionReason
exclusion_reason title = title_page
exclusion_reason copyright_imprint = copyright_or_imprint
exclusion_reason dedication_ornamental = dedication_or_ornamental_blank
exclusion_reason table_of_contents = table_or_list
exclusion_reason list_of_figures_tables = table_or_list
exclusion_reason Reason.index = ExclusionReason.index
exclusion_reason publisher_catalog_advertising = publisher_catalog_or_advertising
exclusion_reason Reason.also_by = ExclusionReason.also_by
exclusion_reason Reason.colophon = ExclusionReason.colophon
exclusion_reason (Reason.unlisted _) = other_reason 0

unfoldable pub encode_range : Range → ExcludedRange
unfolding exclusion_reason
encode_range r = record {
  start_ordinal = r.start;
  end_ordinal = r.end;
  reason = exclusion_reason r.reason;
}

-- Whether a range goes on with the one before it.
abbrev pub joins : ExcludedRange → ExcludedRange → Bool
joins last e =
    exclusion_reason_eq last.reason e.reason
    && ltb last.end_ordinal max_uint32
    && e.start_ordinal == last.end_ordinal + 1

-- The loop of `encodeRanges`; `last` is the last range so far.
unfoldable pub encode_from : ExcludedRange → List Range → List ExcludedRange
unfolding encode_range exclusion_reason_eq
encode_from last [] = last ∷ []
encode_from last (r ∷ rs) = elim (joins last (encode_range r)) [
  | true ↦ encode_from (record last { end_ordinal = r.end }) rs
  | false ↦ last ∷ encode_from (encode_range r) rs
]

unfoldable pub encode_ranges : List Range → List ExcludedRange
unfolding encode_from encode_range
encode_ranges [] = []
encode_ranges (r ∷ rs) = encode_from (encode_range r) rs

unfoldable pub selection_fallback : Fallback → FallbackReason
selection_fallback fallback_none = no_fallback
selection_fallback excluded_ratio = excessive_exclusion
selection_fallback range_limit = resource_limit
selection_fallback invalid_input = ambiguous_mapping
selection_fallback _ = internal_error

-- What `download` gives; the flag says that the deadline of the call has passed.
pub data Download : Type 0 where
  downloaded : Download
  source_unavailable source_integrity : Bool → Download

-- What the analyzer gives: the number of locations and what `Classify` makes of them, or an error
-- with the flag of the deadline.
pub data Analysis : Type 0 where
  analyzed : ℕ → List Candidate → Analysis
  analysis_failed : Bool → Analysis

unfoldable pub source_fallback : Download → FallbackReason
source_fallback downloaded = resource_limit
source_fallback (source_unavailable expired) =
    if expired then processing_timeout else resource_limit
source_fallback (source_integrity expired) = if expired then processing_timeout else invalid_output

unfoldable pub parser_fallback : Bool → FallbackReason
parser_fallback expired = if expired then processing_timeout else invalid_output

module _ (valid_ratio : ℕ → Bool) (share : ℕ → ℕ → ℕ) (policy_digest : Policy → ℕ)
    (completion_event_id : Text → Text) where
  -- The checks of `NewService` but those of the dependencies, the timeout and the digest's digits.
  unfoldable pub valid_config : Config → Bool
  unfolding safe_version text_eq decide
  valid_config config =
      not (
        ltb_ℤ config.maximum_source_bytes (pos 1)
        || ltb_ℤ config.policy.maximum_ranges (pos 1)
        || ltb_ℤ (pos 256) config.policy.maximum_ranges
        || not (text_eq config.policy.version (literal "layout-selector-v1"))
        || not (safe_version config.parser_version))
      && elim (decide valid_ratio share config.policy 1 []).fallback [
        | invalid_policy ↦ false
        | _ ↦ true
      ]

  -- The completion without its outcome.
  unfoldable pub completion_of :
      Config → Request → ℕ → FallbackReason → List ExcludedRange → Completed
  completion_of config r count fallback ranges = record {
    event_id = completion_event_id r.request_id;
    request_id = r.request_id;
    job_id = r.job_id;
    book_id = r.book_id;
    source_sha256 = r.source_sha256;
    lifecycle_version = r.lifecycle_version;
    processing_profile_digest = r.processing_profile_digest;
    original_ordinal_count = count;
    mode = r.mode;
    selector_version = r.selector_version;
    parser_version = config.parser_version;
    model_digest = config.model_digest;
    policy_digest = policy_digest config.policy;
    fallback_reason = fallback;
    excluded_ranges = ranges;
    correlation_id = r.correlation_id;
    occurred_at = r.occurred_at;
    causation_id = r.request_id;
    producer = literal "ingestion-layout-worker";
    schema_version = literal "v1";
    idempotency_key = r.request_id;
    media_type = r.media_type;
  }

  -- `Process` behind the download.
  unfoldable pub complete_analysis : Config → Request → Analysis → Option Completed
  unfolding completion_of encode_completion selection_fallback encode_ranges parser_fallback decide
  complete_analysis config r (analysis_failed expired) =
      encode_completion
        (completion_of config r 0
          (if is_observation r.mode then observed else parser_fallback expired) [])
        config.policy.maximum_ranges
  complete_analysis config r (analyzed count candidates) =
      let decision = decide valid_ratio share config.policy count candidates in
      let fallback = selection_fallback decision.fallback in
      if count == 0 || ltb max_uint32 count
      then encode_completion (completion_of config r 0 invalid_output [])
          config.policy.maximum_ranges
      else if is_observation r.mode
      then encode_completion (completion_of config r count observed []) config.policy.maximum_ranges
      else encode_completion
          (completion_of config r count fallback
            (if is_no_fallback fallback then encode_ranges decision.ranges else []))
          config.policy.maximum_ranges

  unfoldable pub process : Config → Request → Download → Analysis → Option Completed
  unfolding complete_analysis completion_of encode_completion source_fallback
  process config r download analysis =
      if not (text_eq r.selector_version config.policy.version)
        || not (text_eq r.parser_profile config.parser_version)
        || not (r.policy_digest == policy_digest config.policy)
      then none
      else elim download [
        | downloaded ↦ complete_analysis config r analysis
        | failed ↦
            encode_completion
              (completion_of config r 0
                (if is_observation r.mode then observed else source_fallback failed) [])
              config.policy.maximum_ranges
      ]
