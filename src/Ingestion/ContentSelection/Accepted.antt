-- ===== src/Ingestion/ContentSelection/Accepted.antt =====
-- What the layout worker sends passes the checks of the processor. The worker bounds a count by the
-- product of the total and the ratio, rounded down; the processor compares a quotient with the ratio.
-- In float64 the two agree where the product is exact, as with the ratio 0.25, the only one that
-- services/ingestion-service/config/layout.go and config.go let pass; they need not for each ratio.
use raglibrarian.Base.{
  ℕ, ◌≡◌, Bool, true, false, List, some, length, is_empty, Text, pos, ltb_ℤ, ltb, ◌==◌,
}
use raglibrarian.Ingestion.Selection.{Policy}
use raglibrarian.Ingestion.Completion.{
  FallbackReason, ExcludedRange, Completed, safe_id, safe_version,
}
use raglibrarian.Ingestion.Layout.{Config, Request, completion_of}
use raglibrarian.Ingestion.Layout.Ranges.{coded_count}
use raglibrarian.Ingestion.Layout.Process.{Ready}
use raglibrarian.Ingestion.ContentSelection.{
  ContentSelectionProfile, ContentSelectionRange, ContentSelectionResult, content_selection_mode,
  excluded_count, valid_media_type, decoded_result, decode_completed, valid_profile, policy_of,
  validate,
}

-- What the checks of a request say of its fields.
record Checked (r : Request) : Type 0 where
  source : (r.source_sha256 == 0) ≡ false
  profile : (r.processing_profile_digest == 0) ≡ false
  policy : (r.policy_digest == 0) ≡ false
  request : safe_id r.request_id ≡ true
  job : safe_id r.job_id ≡ true
  book : safe_id r.book_id ≡ true
  correlation : safe_id r.correlation_id ≡ true
  lifecycle : ltb_ℤ r.lifecycle_version (pos 1) ≡ false
  selector : safe_version r.selector_version ≡ true
  media : valid_media_type r.media_type ≡ true

module _ (valid_ratio : ℕ → Bool) (share : ℕ → ℕ → ℕ) (policy_digest : Policy → ℕ)
    (completion_event_id : Text → Text) (sha256 : Text → ℕ) (hex : ℕ → Text) (is_hex : Text → Bool)
    (moderate : ℕ → Bool) (exceeds : ℕ → ℕ → ℕ → Bool) where
  -- A worker and a processor of one configuration, and the bytes of a message that the processor takes.
  pub record Agree (config : Config) (r : Request) (p : ContentSelectionProfile) (maximum_bytes : ℕ)
      (payload : Text) : Type 0 where
    pub profile : valid_profile is_hex moderate exceeds p ≡ true
    pub policy : policy_of is_hex moderate exceeds p ≡ config.policy
    pub parser : p.parser_version ≡ config.parser_version
    pub model : p.model_sha256 ≡ hex config.model_digest
    pub mode : content_selection_mode r.mode ≡ some p.mode
    pub filled : is_empty payload ≡ false
    pub small : ltb maximum_bytes (length payload) ≡ false

  module _ (config : Config) (r : Request) (p : ContentSelectionProfile) (maximum_bytes : ℕ)
      (payload : Text) (ready : Ready valid_ratio share policy_digest completion_event_id config r)
      (agree : Agree config r p maximum_bytes payload) where
    result :
        ℕ
        → FallbackReason
        → List ExcludedRange
        → Text
        → List ContentSelectionRange
        → ContentSelectionResult
    result count why es s rs =
        decoded_result sha256 hex payload
          (completion_of valid_ratio share policy_digest completion_event_id config r count why es)
          p.mode s rs

    -- The result that the processor decodes from a message.
    pub record Taken (c : Completed) : Type 0 where
      pub decoded : ContentSelectionResult
      pub decodes :
          decode_completed sha256 hex maximum_bytes payload c config.policy.maximum_ranges
          ≡ some decoded
      pub valid : validate is_hex moderate exceeds sha256 policy_digest decoded p ≡ true
      pub same_count : excluded_count decoded.ranges ≡ coded_count c.excluded_ranges
