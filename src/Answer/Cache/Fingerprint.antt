-- ===== src/Answer/Cache/Fingerprint.antt =====
-- The fingerprints of services/answer-service/internal/application/cache.go. `hash` is the hexadecimal
-- SHA-256 of what is written to it and `quote` the verb %q of package fmt.
pub mod Injective
pub mod Scope
use raglibrarian.Base.{
  ℕ, zero, suc, ◌+◌, ◌/◌, ◌%◌, Bool, List, [], ◌∷◌, ◌++◌, Option, none, some, map, ltb,
  if◌then◌else◌, length, is_empty, Text, literal, text_eq, byte_len, ℤ, pos, negsuc,
}
use raglibrarian.Answer.Evidence.{ContextEvidence}
use raglibrarian.Answer.Output.{digits}
use raglibrarian.Answer.Request.{Actor, SearchFilters}
use raglibrarian.Answer.Cache.Query.{sort_texts}

-- The decimal digits of any number: `%d`, strconv.Itoa, FormatInt and FormatUint.
unfoldable pub itoa : ℕ → Text
itoa n = digits (suc n) n

unfoldable pub format_int : ℤ → Text
format_int (pos n) = itoa n
format_int (negsuc n) = b'-' ∷ itoa (suc n)

-- What one field writes: `%d:` and the bytes of the field.
unfoldable pub field_frame : Text → Text
field_frame value = itoa (byte_len value) ++ (b':' ∷ value)

unfoldable pub field_frames : List Text → Text
field_frames [] = []
field_frames (value ∷ values) = field_frame value ++ field_frames values

-- The fields of `evidenceProjectionFingerprint`.
unfoldable pub projected_fields : ContextEvidence → List Text
projected_fields e =
    e.evidence_id
    ∷ e.passage
    ∷ e.title
    ∷ e.author
    ∷ e.chapter
    ∷ e.section
    ∷ itoa e.page_start
    ∷ itoa e.page_end
    ∷ []

-- The numbers of Limits that the profile of the generator names.
pub record GeneratorLimits : Type 0 where
  pub maximum_evidence : ℤ
  pub maximum_context_bytes : ℤ
  pub maximum_evidence_bytes : ℤ
  pub maximum_segments : ℤ
  pub maximum_answer_bytes : ℤ
  pub maximum_summary_runes : ℤ
  pub maximum_citations : ℤ
  pub maximum_output_tokens : ℤ

unfoldable pub generator_fields : Text → Text → GeneratorLimits → List Text
generator_fields version profile limits =
    version
    ∷ profile
    ∷ format_int limits.maximum_evidence
    ∷ format_int limits.maximum_context_bytes
    ∷ format_int limits.maximum_evidence_bytes
    ∷ format_int limits.maximum_segments
    ∷ format_int limits.maximum_answer_bytes
    ∷ format_int limits.maximum_summary_runes
    ∷ format_int limits.maximum_citations
    ∷ format_int limits.maximum_output_tokens
    ∷ []

module _ (hash : Text → Text) where
  unfoldable pub fingerprint_fields : List Text → Text
  fingerprint_fields values = hash (field_frames values)

  unfoldable pub generator_cache_profile : Text → Text → GeneratorLimits → Text
  generator_cache_profile version profile limits =
      fingerprint_fields (generator_fields version profile limits)

  unfoldable pub evidence_projection_fingerprint : ContextEvidence → Text
  evidence_projection_fingerprint e = fingerprint_fields (projected_fields e)

  -- The assignments `result[id] = ...` to the map, the last of which comes first in the list.
  unfoldable pub add_projections : List (Text × Text) → List ContextEvidence → List (Text × Text)
  add_projections result [] = result
  add_projections result (e ∷ es) =
      add_projections
        (if is_empty e.evidence_id
          then result
          else (e.evidence_id, evidence_projection_fingerprint e) ∷ result)
        es

  unfoldable pub evidence_projection_fingerprints : List ContextEvidence → List (Text × Text)
  evidence_projection_fingerprints evidence = add_projections [] evidence

  module _ (quote : Text → Text) where
    unfoldable pub quoted : List Text → Text
    quoted [] = []
    quoted (s ∷ ss) = quote s ++ quoted ss

    -- What `evidenceFingerprint` writes.
    unfoldable pub quoted_evidence : List ContextEvidence → Text
    quoted_evidence [] = []
    quoted_evidence (e ∷ es) =
        quoted (e.evidence_id ∷ evidence_projection_fingerprint e ∷ []) ++ quoted_evidence es

    unfoldable pub evidence_fingerprint : List ContextEvidence → Text
    evidence_fingerprint evidence = hash (quoted_evidence evidence)

    unfoldable pub auth_scope_fingerprint : Actor → Text
    auth_scope_fingerprint actor = hash (quoted (actor.user_id ∷ actor.role ∷ actor.status ∷ []))

    unfoldable pub year_text : Option ℤ → Text
    year_text none = []
    year_text (some year) = format_int year

    -- What `canonicalFilters` writes.
    unfoldable pub quoted_filters : SearchFilters → Text
    quoted_filters filters =
        let tags = sort_texts filters.tags in
        itoa (length tags)
        ++ quoted tags
        ++ quoted (filters.author ∷ year_text filters.year_from ∷ year_text filters.year_to ∷ [])

    unfoldable pub canonical_filters : SearchFilters → Text
    canonical_filters filters = hash (quoted_filters filters)
