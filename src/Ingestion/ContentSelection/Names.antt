-- ===== src/Ingestion/ContentSelection/Names.antt =====
-- The names of what the protocol enumerates, and the checks that they pass.
use raglibrarian.Base.{
  ◌≡◌, refl, true, not, some, arith, Text, literal, text_eq, text_eq_refl, member,
}
use raglibrarian.Ingestion.Completion.{
  Mode, FallbackReason, is_observation, is_enforcement, is_no_fallback, is_observed,
}
use raglibrarian.Ingestion.Layout.{valid_source_reference, valid_fallback_reason}
use raglibrarian.Ingestion.ContentSelection.{
  content_selection_mode, content_selection_fallback, valid_selection_fallback, valid_media_type,
}

-- A fallback that the protocol lists has a name, which is told apart from the others.
pub record Named (why : FallbackReason) (s : Text) : Type 0 where
  pub named : content_selection_fallback why ≡ some s
  pub listed : valid_selection_fallback s ≡ true
  pub same_none : text_eq s (literal "none") ≡ is_no_fallback why
  pub same_observation : text_eq s (literal "observation") ≡ is_observed why

pub fallback-Named :
    (why : FallbackReason) → valid_fallback_reason why ≡ true → (s : Text) × Named why s
unfolding content_selection_fallback valid_selection_fallback valid_fallback_reason text_eq member
fallback-Named FallbackReason.no_fallback h = (
  literal "none",
  record { named = refl; listed = refl; same_none = refl; same_observation = refl },
)
fallback-Named FallbackReason.observed h = (
  literal "observation",
  record { named = refl; listed = refl; same_none = refl; same_observation = refl },
)
fallback-Named FallbackReason.unsupported_layout h = (
  literal "unsupported_layout",
  record { named = refl; listed = refl; same_none = refl; same_observation = refl },
)
fallback-Named FallbackReason.processing_timeout h = (
  literal "processing_timeout",
  record { named = refl; listed = refl; same_none = refl; same_observation = refl },
)
fallback-Named FallbackReason.invalid_output h = (
  literal "invalid_output",
  record { named = refl; listed = refl; same_none = refl; same_observation = refl },
)
fallback-Named FallbackReason.ambiguous_mapping h = (
  literal "ambiguous_mapping",
  record { named = refl; listed = refl; same_none = refl; same_observation = refl },
)
fallback-Named FallbackReason.resource_limit h = (
  literal "resource_limit",
  record { named = refl; listed = refl; same_none = refl; same_observation = refl },
)
fallback-Named FallbackReason.excessive_exclusion h = (
  literal "excessive_exclusion",
  record { named = refl; listed = refl; same_none = refl; same_observation = refl },
)
fallback-Named FallbackReason.internal_error h = (
  literal "internal_error",
  record { named = refl; listed = refl; same_none = refl; same_observation = refl },
)
fallback-Named (FallbackReason.other_fallback n) h = absurd (ground arith)

pub mode_named :
    (mode : Mode) (s : Text)
    → content_selection_mode mode ≡ some s
    → (text_eq s (literal "observation") ≡ is_observation mode)
      × (text_eq s (literal "enforcement") ≡ is_enforcement mode)
      × (is_enforcement mode ≡ not (is_observation mode))
unfolding content_selection_mode text_eq
mode_named Mode.observation s h = ground (arith, text_eq_refl s)
mode_named Mode.enforcement s h = ground (arith, text_eq_refl s)
mode_named (Mode.other_mode n) s h = absurd (ground arith)

pub media_type_named :
    (reference media_type : Text)
    → valid_source_reference reference media_type ≡ true
    → valid_media_type media_type ≡ true
unfolding valid_source_reference valid_media_type
media_type_named reference media_type h = ground arith
