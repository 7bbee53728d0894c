-- ===== src/Ingestion/Layout/Contract.antt =====
-- services/ingestion-service/internal/layoutworker/contract.go, behind the decoding of the protocol.
use raglibrarian.Base.{
  ℕ, Bool, true, false, not, ◌&&◌, ◌||◌, List, [], ◌∷◌, Option, none, some, leb, ltb, ◌==◌,
  if◌then◌else◌, length, is_empty, ℤ, pos, ltb_ℤ, Text, literal, text_eq,
}
use raglibrarian.Ingestion.Completion.{
  Mode, ExclusionReason, FallbackReason, ExcludedRange, Completed, title_page, other_reason,
  no_fallback, other_fallback, is_observation, is_enforcement, is_no_fallback, is_observed, safe_id,
  safe_version,
}

-- A request, with what the code reads of its message alone.
pub record Request : Type 0 where
  pub event_id : Text
  pub request_id : Text
  pub job_id : Text
  pub book_id : Text
  pub source_reference : Text
  pub media_type : Text
  pub correlation_id : Text
  pub selector_version : Text
  pub parser_profile : Text
  pub source_sha256 : ℕ
  pub processing_profile_digest : ℕ
  pub policy_digest : ℕ
  pub source_byte_size : ℤ
  pub lifecycle_version : ℤ
  pub mode : Mode
  pub occurred_at : ℕ
  pub idempotency_key : Text
  pub producer : Text
  pub schema_version : Text
  pub causation_id : Text

unfoldable pub reference_rune : ℕ → Bool
reference_rune c =
    (leb 0x41 c && leb c 0x5a)
    || (leb 0x61 c && leb c 0x7a)
    || (leb 0x30 c && leb c 0x39)
    || c == 0x5f
    || c == 0x2d

unfoldable pub strip_prefix : Text → Text → Option Text
strip_prefix [] s = some s
strip_prefix (a ∷ prefix) [] = none
strip_prefix (a ∷ prefix) (b ∷ s) =
    let rest = strip_prefix prefix s in if a == b then rest else none

-- The runes of a name that a string begins with, and what follows them.
unfoldable pub split_name : Text → Text × Text
unfolding reference_rune
split_name [] = ([], [])
split_name (c ∷ s) =
    let (name, rest) = split_name s in if reference_rune c then (c ∷ name, rest) else ([], c ∷ s)

-- The ending of a string that `sourceReferencePattern` matches; no ending has a rune of names before
-- its dot, so the pattern can only match the longest name.
unfoldable pub source_extension : Text → Option Text
unfolding strip_prefix split_name text_eq
source_extension reference = elim (strip_prefix (literal "originals/") reference) [
  | none ↦ none
  | some rest ↦
      let (name, extension) = split_name rest in
      if is_empty name
        || ltb 256 (length name)
        || not (text_eq extension (literal ".pdf") || text_eq extension (literal ".epub"))
      then none
      else some extension
]

unfoldable pub valid_source_reference : Text → Text → Bool
unfolding source_extension text_eq
valid_source_reference reference media_type = elim (source_extension reference) [
  | none ↦ false
  | some extension ↦
      (text_eq media_type (literal "application/pdf") && text_eq extension (literal ".pdf"))
      || (text_eq media_type (literal "application/epub+zip")
          && text_eq extension (literal ".epub"))
]

-- The conditions of `DecodeRequest` on the fields of the message.
unfoldable pub valid_request : ℤ → Request → Bool
valid_request maximum_source_bytes r = not (
    r.source_sha256 == 0
    || r.policy_digest == 0
    || r.processing_profile_digest == 0
    || not (text_eq r.event_id r.request_id)
    || not (text_eq r.idempotency_key r.request_id)
    || not (text_eq r.producer (literal "ingestion-service"))
    || not (text_eq r.schema_version (literal "v1"))
    || not (safe_id r.event_id)
    || not (safe_id r.job_id)
    || not (safe_id r.book_id)
    || not (safe_id r.correlation_id)
    || not (safe_id r.causation_id)
    || ltb_ℤ r.source_byte_size (pos 1)
    || ltb_ℤ maximum_source_bytes r.source_byte_size
    || ltb_ℤ r.lifecycle_version (pos 1)
    || not (safe_version r.selector_version)
    || not (safe_version r.parser_profile)
    || not (is_observation r.mode || is_enforcement r.mode)
    || not (valid_source_reference r.source_reference r.media_type))

unfoldable pub valid_fallback_reason : FallbackReason → Bool
valid_fallback_reason no_fallback = true
valid_fallback_reason (other_fallback _) = false
valid_fallback_reason _ = true

unfoldable pub valid_exclusion_reason : ExclusionReason → Bool
valid_exclusion_reason title_page = true
valid_exclusion_reason (other_reason _) = false
valid_exclusion_reason _ = true

-- The loop of `validCompletion`, with the end of the range before it, if any.
unfoldable pub valid_ranges : ℕ → Option ℕ → List ExcludedRange → Bool
unfolding valid_exclusion_reason
valid_ranges count previous [] = true
valid_ranges count previous (e ∷ es) =
    not (
      e.start_ordinal == 0
      || ltb e.end_ordinal e.start_ordinal
      || ltb count e.end_ordinal
      || not (valid_exclusion_reason e.reason)
      || elim previous [ none ↦ false | some end ↦ leb e.start_ordinal end ])
    && valid_ranges count (some e.end_ordinal) es

unfoldable pub valid_completion : Completed → Bool
unfolding valid_ranges valid_fallback_reason
valid_completion c =
    not (
      not (valid_fallback_reason c.fallback_reason)
      || (not (is_no_fallback c.fallback_reason) && not (is_empty c.excluded_ranges))
      || (is_no_fallback c.fallback_reason && c.original_ordinal_count == 0)
      || (is_observation c.mode && not (is_observed c.fallback_reason))
      || (is_enforcement c.mode && is_observed c.fallback_reason))
    && valid_ranges c.original_ordinal_count none c.excluded_ranges

-- `EncodeCompletion`, up to the bytes of the message.
unfoldable pub encode_completion : Completed → ℤ → Option Completed
unfolding valid_completion safe_id safe_version
encode_completion c maximum_ranges =
    if not (safe_id c.event_id)
      || c.occurred_at == 0
      || c.model_digest == 0
      || c.policy_digest == 0
      || not (safe_version c.parser_version)
      || ltb_ℤ maximum_ranges (pos 1)
      || ltb_ℤ maximum_ranges (pos (length c.excluded_ranges))
      || not (valid_completion c)
    then none
    else some c
