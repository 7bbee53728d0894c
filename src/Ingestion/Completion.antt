-- ===== src/Ingestion/Completion.antt =====
-- The message BookContentSelectionCompletedV1 between the layout worker and the processor, and the
-- checks of text that both make (services/ingestion-service/internal/layoutworker/contract.go,
-- services/ingestion-service/internal/transport/events.go). An enumeration of the protocol keeps
-- its other numbers.
use raglibrarian.Base.{
  ℕ, Bool, true, false, not, ◌||◌, List, leb, ltb, ◌==◌, if◌then◌else◌, all, is_empty, ℤ, Text,
  text_eq, byte_len, trim_space,
}

pub data Mode : Type 0 where
  observation enforcement : Mode
  other_mode : ℕ → Mode

pub data ExclusionReason : Type 0 where
  title_page copyright_or_imprint dedication_or_ornamental_blank table_or_list : ExclusionReason
  index publisher_catalog_or_advertising also_by colophon : ExclusionReason
  other_reason : ℕ → ExclusionReason

pub data FallbackReason : Type 0 where
  no_fallback observed unsupported_layout processing_timeout invalid_output : FallbackReason
  ambiguous_mapping resource_limit excessive_exclusion internal_error : FallbackReason
  other_fallback : ℕ → FallbackReason

pub record ExcludedRange : Type 0 where
  pub start_ordinal : ℕ
  pub end_ordinal : ℕ
  pub reason : ExclusionReason

pub record Completed : Type 0 where
  pub event_id : Text
  pub request_id : Text
  pub job_id : Text
  pub book_id : Text
  pub source_sha256 : ℕ
  pub lifecycle_version : ℤ
  pub processing_profile_digest : ℕ
  pub original_ordinal_count : ℕ
  pub mode : Mode
  pub selector_version : Text
  pub parser_version : Text
  pub model_digest : ℕ
  pub policy_digest : ℕ
  pub fallback_reason : FallbackReason
  pub excluded_ranges : List ExcludedRange
  pub correlation_id : Text
  pub occurred_at : ℕ
  pub causation_id : Text
  pub producer : Text
  pub schema_version : Text
  pub idempotency_key : Text
  pub media_type : Text

abbrev pub is_observation : Mode → Bool
is_observation observation = true
is_observation _ = false

abbrev pub is_enforcement : Mode → Bool
is_enforcement enforcement = true
is_enforcement _ = false

abbrev pub is_no_fallback : FallbackReason → Bool
is_no_fallback no_fallback = true
is_no_fallback _ = false

abbrev pub is_observed : FallbackReason → Bool
is_observed observed = true
is_observed _ = false

unfoldable pub exclusion_reason_eq : ExclusionReason → ExclusionReason → Bool
exclusion_reason_eq title_page title_page = true
exclusion_reason_eq copyright_or_imprint copyright_or_imprint = true
exclusion_reason_eq dedication_or_ornamental_blank dedication_or_ornamental_blank = true
exclusion_reason_eq table_or_list table_or_list = true
exclusion_reason_eq index index = true
exclusion_reason_eq publisher_catalog_or_advertising publisher_catalog_or_advertising = true
exclusion_reason_eq also_by also_by = true
exclusion_reason_eq colophon colophon = true
exclusion_reason_eq (other_reason a) (other_reason b) = a == b
exclusion_reason_eq _ _ = false

unfoldable pub safe_id_rune : ℕ → Bool
safe_id_rune c = not (leb c 0x20 || c == 0x2f || c == 0x5c)

unfoldable pub safe_id : Text → Bool
unfolding byte_len text_eq trim_space safe_id_rune
safe_id value =
    if is_empty value || ltb 128 (byte_len value) || not (text_eq (trim_space value) value)
    then false
    else all safe_id_rune value

unfoldable pub safe_version_rune : ℕ → Bool
safe_version_rune c = not (leb c 0x20 || ltb 0x7e c)

unfoldable pub safe_version : Text → Bool
unfolding byte_len text_eq trim_space safe_version_rune
safe_version value =
    if is_empty value || ltb 128 (byte_len value) || not (text_eq (trim_space value) value)
    then false
    else all safe_version_rune value
