-- ===== src/Ingestion/ContentSelection.antt =====
-- `DecodeContentSelectionCompleted` of services/ingestion-service/internal/transport/events.go behind
-- the decoding of the message, and the checks of
-- services/ingestion-service/internal/application/content_selection.go. SHA-256, the hexadecimal
-- digits of a digest, the digest of a policy and the comparison of a float64 ratio are arguments.
mod Terms
pub mod Names
pub mod Decoded
pub mod Accepted
mod Tests
unfoldable pub use Terms.*
use raglibrarian.Base.{
  ℕ, ◌+◌, ◌-◌, Bool, true, false, not, ◌&&◌, ◌||◌, List, [], ◌∷◌, Option, none, some, leb, ltb,
  ◌==◌, if◌then◌else◌, length, is_empty, ℤ, pos, ltb_ℤ, leb_ℤ, Text, literal, text_eq, member,
  byte_len, bool_ne,
}
use raglibrarian.Ingestion.Selection.{Policy, max_uint32}
use raglibrarian.Ingestion.Completion.{
  Mode, ExclusionReason, FallbackReason, ExcludedRange, Completed, title_page, copyright_or_imprint,
  dedication_or_ornamental_blank, table_or_list, index, publisher_catalog_or_advertising, also_by,
  colophon, other_reason, no_fallback, observed, unsupported_layout, processing_timeout,
  invalid_output, ambiguous_mapping, resource_limit, excessive_exclusion, internal_error,
  other_fallback, observation, enforcement, is_no_fallback, safe_id, safe_version,
}

-- What crosses the broker: the bytes of a message and the message that they decode to.
module _ (sha256 : Text → ℕ) (hex : ℕ → Text) where
  unfoldable pub valid_decoded_content_selection : ContentSelectionResult → ℤ → Bool
  valid_decoded_content_selection r maximum_ranges =
      not (
        not (safe_id r.event_id)
        || not (safe_id r.request_id)
        || not (safe_id r.job_id)
        || not (safe_id r.book_id)
        || not (safe_id r.correlation_id)
        || not (safe_id r.causation_id)
        || not (text_eq r.causation_id r.request_id)
        || not (text_eq r.idempotency_key r.request_id)
        || not (text_eq r.producer (literal "ingestion-layout-worker"))
        || not (text_eq r.schema_version (literal "v1"))
        || ltb_ℤ r.lifecycle_version (pos 1)
        || r.occurred_at == 0
        || ltb_ℤ maximum_ranges (pos (length r.ranges))
        || not (valid_media_type r.media_type)
        || r.source_sha256 == 0
        || r.processing_profile_digest == 0
        || r.policy_digest == 0
        || not (r.payload_digest == sha256 r.payload))
      && not
          (r.original_location_count == 0 && (not r.fallback_unfiltered || not (is_empty r.ranges)))
      && (if text_eq r.mode (literal "observation")
          then text_eq r.fallback_reason (literal "observation")
            && r.fallback_unfiltered
            && is_empty r.ranges
          else if not (text_eq r.mode (literal "enforcement"))
              || text_eq r.fallback_reason (literal "observation")
          then false
          else ordered_ranges any_reason r.original_location_count none r.ranges
            && (not r.fallback_unfiltered || is_empty r.ranges))

  unfoldable pub decoded_result :
      Text → Completed → Text → Text → List ContentSelectionRange → ContentSelectionResult
  decoded_result payload m mode fallback ranges = record {
    event_id = m.event_id;
    request_id = m.request_id;
    job_id = m.job_id;
    book_id = m.book_id;
    correlation_id = m.correlation_id;
    causation_id = m.causation_id;
    producer = m.producer;
    schema_version = m.schema_version;
    idempotency_key = m.idempotency_key;
    source_sha256 = m.source_sha256;
    processing_profile_digest = m.processing_profile_digest;
    policy_digest = m.policy_digest;
    payload_digest = sha256 payload;
    media_type = m.media_type;
    mode = mode;
    policy_version = m.selector_version;
    parser_version = m.parser_version;
    model_sha256 = hex m.model_digest;
    fallback_reason = fallback;
    lifecycle_version = m.lifecycle_version;
    original_location_count = m.original_ordinal_count;
    fallback_unfiltered = not (is_no_fallback m.fallback_reason);
    ranges = ranges;
    occurred_at = m.occurred_at;
    payload = payload;
  }

  -- The checks of the message itself.
  unfoldable pub valid_message : ℕ → Text → Completed → ℤ → Bool
  valid_message maximum_message_bytes payload m maximum_ranges = not (
      is_empty payload
      || ltb maximum_message_bytes (length payload)
      || ltb_ℤ maximum_ranges (pos 1)
      || ltb_ℤ (pos 256) maximum_ranges
      || m.policy_digest == 0
      || m.model_digest == 0
      || not (safe_version m.selector_version)
      || not (safe_version m.parser_version)
      || ltb_ℤ maximum_ranges (pos (length m.excluded_ranges))
      || not (text_eq m.causation_id m.request_id))

  unfoldable pub decode_completed : ℕ → Text → Completed → ℤ → Option ContentSelectionResult
  decode_completed maximum_message_bytes payload m maximum_ranges =
      if not (valid_message maximum_message_bytes payload m maximum_ranges)
      then none
      else elim (content_selection_mode m.mode) [
        | none ↦ none
        | some mode ↦ elim (content_selection_fallback m.fallback_reason) [
          | none ↦ none
          | some fallback ↦
              if not (is_no_fallback m.fallback_reason) && not (is_empty m.excluded_ranges)
              then none
              else elim (decode_ranges none m.excluded_ranges) [
                | none ↦ none
                | some ranges ↦
                    let r = decoded_result payload m mode fallback ranges in
                    if valid_decoded_content_selection r maximum_ranges then some r else none
              ]
        ]
      ]

-- `is_hex` says that hex.DecodeString accepts a string, `moderate` that a float64 is above 0 and not
-- above 0.5, and `exceeds a b` compares the float64 quotient of two numbers with a ratio.
module _ (is_hex : Text → Bool) (moderate : ℕ → Bool) (exceeds : ℕ → ℕ → ℕ → Bool) where
  -- `ContentSelectionProfile.Validate`, for a mode that is not disabled.
  unfoldable pub valid_profile : ContentSelectionProfile → Bool
  valid_profile p =
      (text_eq p.mode (literal "observation") || text_eq p.mode (literal "enforcement"))
      && not (
          not (safe_version p.policy_version)
          || not (safe_version p.parser_version)
          || not (byte_len p.model_sha256 == 64)
          || ltb_ℤ p.minimum_signals (pos 2)
          || ltb_ℤ (pos 4) p.minimum_signals
          || ltb_ℤ p.maximum_ranges (pos 1)
          || ltb_ℤ (pos 1000) p.maximum_ranges
          || not (moderate p.maximum_excluded_ratio))
      && is_hex p.model_sha256

  unfoldable pub policy_of : ContentSelectionProfile → Policy
  policy_of p = record {
    version = p.policy_version;
    minimum_signals = p.minimum_signals;
    maximum_excluded_ratio = p.maximum_excluded_ratio;
    maximum_ranges = p.maximum_ranges;
  }

  module _ (sha256 : Text → ℕ) (policy_digest : Policy → ℕ) where
    -- The fields of a result that have to fit the profile.
    unfoldable pub fits_profile : ContentSelectionResult → ContentSelectionProfile → Bool
    fits_profile r p = not (
        not (text_eq r.mode p.mode)
        || not (text_eq r.policy_version p.policy_version)
        || not (text_eq r.parser_version p.parser_version)
        || not (text_eq r.model_sha256 p.model_sha256)
        || not (r.policy_digest == policy_digest (policy_of p))
        || not (sha256 r.payload == r.payload_digest))

    -- `ContentSelectionResult.Validate`
    unfoldable pub validate : ContentSelectionResult → ContentSelectionProfile → Bool
    validate r p =
        valid_profile p
        && not (
            not (safe_id r.event_id)
            || not (safe_id r.request_id)
            || not (safe_id r.job_id)
            || not (safe_id r.book_id)
            || not (safe_id r.correlation_id)
            || not (safe_id r.causation_id)
            || not (text_eq r.producer (literal "ingestion-layout-worker"))
            || not (text_eq r.schema_version (literal "v1"))
            || not (text_eq r.idempotency_key r.request_id)
            || not (text_eq r.causation_id r.request_id)
            || ltb_ℤ r.lifecycle_version (pos 1)
            || r.occurred_at == 0
            || is_empty r.payload
            || r.source_sha256 == 0
            || r.processing_profile_digest == 0
            || r.policy_digest == 0
            || ltb_ℤ p.maximum_ranges (pos (length r.ranges)))
        && valid_media_type r.media_type
        && fits_profile r p
        && not (
            not (valid_selection_fallback r.fallback_reason)
            || bool_ne r.fallback_unfiltered (not (text_eq r.fallback_reason (literal "none"))))
        && not (
            r.original_location_count == 0
            && (not r.fallback_unfiltered || not (is_empty r.ranges)))
        && not (
            text_eq p.mode (literal "observation")
            && (not (text_eq r.fallback_reason (literal "observation")) || not (is_empty r.ranges)))
        && not (
            text_eq p.mode (literal "enforcement")
            && text_eq r.fallback_reason (literal "observation"))
        && ordered_ranges valid_selection_reason r.original_location_count none r.ranges
        && not (
            (r.fallback_unfiltered && not (is_empty r.ranges))
            || (ltb 0 r.original_location_count
                && exceeds (excluded_count r.ranges) r.original_location_count
                    p.maximum_excluded_ratio))
