-- ===== src/Ingestion/ContentSelection/Terms.antt =====
-- The results of a content selection in services/ingestion-service/internal/application/content_selection.go,
-- the names of their terms there and in services/ingestion-service/internal/transport/events.go, and
-- their ranges.
use raglibrarian.Base.{
  ℕ, ◌+◌, ◌-◌, Bool, true, false, not, ◌&&◌, ◌||◌, List, [], ◌∷◌, Option, none, some, leb, ltb,
  ◌==◌, if◌then◌else◌, ℤ, Text, literal, text_eq, member,
}
use raglibrarian.Ingestion.Selection.{max_uint32}
use raglibrarian.Ingestion.Completion.{
  Mode, ExclusionReason, FallbackReason, ExcludedRange, title_page, copyright_or_imprint,
  dedication_or_ornamental_blank, table_or_list, index, publisher_catalog_or_advertising, also_by,
  colophon, other_reason, no_fallback, observed, unsupported_layout, processing_timeout,
  invalid_output, ambiguous_mapping, resource_limit, excessive_exclusion, internal_error,
  other_fallback, observation, enforcement,
}

-- `ContentSelectionMode`, a string: disabled, observation and enforcement have names here.
pub record ContentSelectionProfile : Type 0 where
  pub mode : Text
  pub policy_version : Text
  pub parser_version : Text
  pub model_sha256 : Text
  pub minimum_signals : ℤ
  pub maximum_ranges : ℤ
  pub maximum_excluded_ratio : ℕ

pub record ContentSelectionRange : Type 0 where
  pub start : ℕ
  pub end : ℕ
  pub reason : Text

pub record ContentSelectionResult : Type 0 where
  pub event_id : Text
  pub request_id : Text
  pub job_id : Text
  pub book_id : Text
  pub correlation_id : Text
  pub causation_id : Text
  pub producer : Text
  pub schema_version : Text
  pub idempotency_key : Text
  pub source_sha256 : ℕ
  pub processing_profile_digest : ℕ
  pub policy_digest : ℕ
  pub payload_digest : ℕ
  pub media_type : Text
  pub mode : Text
  pub policy_version : Text
  pub parser_version : Text
  pub model_sha256 : Text
  pub fallback_reason : Text
  pub lifecycle_version : ℤ
  pub original_location_count : ℕ
  pub fallback_unfiltered : Bool
  pub ranges : List ContentSelectionRange
  pub occurred_at : ℕ
  pub payload : Text

unfoldable pub content_selection_mode : Mode → Option Text
content_selection_mode observation = some (literal "observation")
content_selection_mode enforcement = some (literal "enforcement")
content_selection_mode _ = none

unfoldable pub content_exclusion_reason : ExclusionReason → Option Text
content_exclusion_reason title_page = some (literal "title")
content_exclusion_reason copyright_or_imprint = some (literal "copyright_imprint")
content_exclusion_reason dedication_or_ornamental_blank = some (literal "dedication_ornamental")
content_exclusion_reason table_or_list = some (literal "table_of_contents")
content_exclusion_reason index = some (literal "index")
content_exclusion_reason publisher_catalog_or_advertising =
    some (literal "publisher_catalog_advertising")
content_exclusion_reason also_by = some (literal "also_by")
content_exclusion_reason colophon = some (literal "colophon")
content_exclusion_reason (other_reason _) = none

-- The string of a fallback; whether it is one is told apart by `is_no_fallback`.
unfoldable pub content_selection_fallback : FallbackReason → Option Text
content_selection_fallback no_fallback = some (literal "none")
content_selection_fallback observed = some (literal "observation")
content_selection_fallback unsupported_layout = some (literal "unsupported_layout")
content_selection_fallback processing_timeout = some (literal "processing_timeout")
content_selection_fallback invalid_output = some (literal "invalid_output")
content_selection_fallback ambiguous_mapping = some (literal "ambiguous_mapping")
content_selection_fallback resource_limit = some (literal "resource_limit")
content_selection_fallback excessive_exclusion = some (literal "excessive_exclusion")
content_selection_fallback internal_error = some (literal "internal_error")
content_selection_fallback (other_fallback _) = none

-- The loop over the ranges of the message, with the range before, if any.
unfoldable pub decode_ranges :
    Option ContentSelectionRange → List ExcludedRange → Option (List ContentSelectionRange)
unfolding content_exclusion_reason text_eq
decode_ranges previous [] = some []
decode_ranges previous (e ∷ es) = elim (content_exclusion_reason e.reason) [
  | none ↦ none
  | some reason ↦
      let r : ContentSelectionRange = record {
        start = e.start_ordinal;
        end = e.end_ordinal;
        reason = reason;
      } in
      let rest = decode_ranges (some r) es in
      if elim previous [
        | none ↦ false
        | some p ↦ text_eq p.reason reason && ltb p.end max_uint32 && r.start == p.end + 1
      ]
      then none
      else elim rest [ none ↦ none | some rs ↦ some (r ∷ rs) ]
]

-- The loop over the ranges in both checks of a result, with the end of the range before.
unfoldable pub ordered_ranges : (Text → Bool) → ℕ → Option ℕ → List ContentSelectionRange → Bool
ordered_ranges valid_reason count previous [] = true
ordered_ranges valid_reason count previous (r ∷ rs) =
    not (
      r.start == 0
      || ltb r.end r.start
      || not (valid_reason r.reason)
      || ltb count r.end
      || elim previous [ none ↦ false | some end ↦ leb r.start end ])
    && ordered_ranges valid_reason count (some r.end) rs

-- The sum of the loop in `Validate`, in uint64.
unfoldable pub excluded_count : List ContentSelectionRange → ℕ
excluded_count [] = 0
excluded_count (r ∷ rs) = (r.end - r.start + 1) + excluded_count rs

unfoldable pub valid_selection_reason : Text → Bool
unfolding member
valid_selection_reason value = member value (
    literal "title"
    ∷ literal "copyright_imprint"
    ∷ literal "dedication_ornamental"
    ∷ literal "table_or_list"
    ∷ literal "table_of_contents"
    ∷ literal "list_of_figures_tables"
    ∷ literal "index"
    ∷ literal "publisher_catalog_advertising"
    ∷ literal "also_by"
    ∷ literal "colophon"
    ∷ [])

unfoldable pub valid_selection_fallback : Text → Bool
unfolding member
valid_selection_fallback value = member value (
    literal "none"
    ∷ literal "observation"
    ∷ literal "unsupported_layout"
    ∷ literal "processing_timeout"
    ∷ literal "invalid_output"
    ∷ literal "ambiguous_mapping"
    ∷ literal "resource_limit"
    ∷ literal "excessive_exclusion"
    ∷ literal "internal_error"
    ∷ [])

unfoldable pub valid_media_type : Text → Bool
unfolding text_eq
valid_media_type value =
    text_eq value (literal "application/pdf") || text_eq value (literal "application/epub+zip")

abbrev pub any_reason : Text → Bool
any_reason s = true
