-- ===== src/Ingestion/Layout/Tests.antt =====
-- Runs of the layout worker on small documents.
use raglibrarian.Base.{
  ℕ, ◌*◌, ◌/◌, ◌≡◌, refl, Bool, false, ◌&&◌, List, [], ◌∷◌, none, some, leb, pos, Text, literal,
  text_eq, is_space, trim_left, trim_right, trim_space, rune_width, byte_len, ◌++◌,
}
use raglibrarian.Ingestion.Selection.{
  Reason, Policy, Candidate, table_of_contents, title, position, layout, add_candidate, add_signals,
  insert_signal, update_reason, update_decision, collect, exclusion, excluded, insert_ordinal,
  sort_ordinals, extend_ranges, make_ranges, excluded_location_count, bound_ranges, reason_eq,
  valid_reason, valid_signal, signal_eq, valid_policy, decide,
}
use raglibrarian.Ingestion.Completion.{
  Mode, observation, enforcement, Completed, table_or_list, exclusion_reason_eq, safe_id_rune,
  safe_id, safe_version_rune, safe_version,
}
use raglibrarian.Ingestion.Layout.{
  Config, Request, downloaded, analyzed, valid_source_reference, reference_rune, strip_prefix,
  split_name, source_extension, valid_request, valid_config, exclusion_reason, encode_range,
  encode_from, encode_ranges, selection_fallback, valid_fallback_reason, valid_exclusion_reason,
  valid_ranges, valid_completion, encode_completion, completion_of, complete_analysis, process,
  source_fallback, parser_fallback,
}
use raglibrarian.Ingestion.Layout.Process.{
  Ready, IsCompletion, process-IsCompletion, process_refuses,
}

pub program : Unit {0}
unfolding text_eq is_space trim_left trim_right trim_space rune_width byte_len add_candidate
    add_signals insert_signal update_reason update_decision collect exclusion excluded
    insert_ordinal sort_ordinals extend_ranges make_ranges excluded_location_count bound_ranges
    reason_eq valid_reason valid_signal signal_eq valid_policy decide exclusion_reason_eq
    safe_id_rune safe_id safe_version_rune safe_version valid_source_reference reference_rune
    strip_prefix split_name source_extension valid_request valid_config exclusion_reason
    encode_range encode_from encode_ranges selection_fallback valid_fallback_reason
    valid_exclusion_reason valid_ranges valid_completion encode_completion completion_of
    complete_analysis process source_fallback parser_fallback
program = tt

-- Ratios in thousandths.
abbrev pub valid_ratio : ℕ → Bool
valid_ratio r = leb 1 r && leb r 1000

abbrev pub share : ℕ → ℕ → ℕ
share n r = n * r / 1000

abbrev pub policy_digest : Policy → ℕ
policy_digest p = 77

abbrev pub completion_event_id : Text → Text
completion_event_id request = literal "completion-" ++ request

abbrev pub config : Config
config = record {
  maximum_source_bytes = pos 1000;
  policy = record {
    version = literal "layout-selector-v1";
    minimum_signals = pos 2;
    maximum_excluded_ratio = 400;
    maximum_ranges = pos 5;
  };
  parser_version = literal "poppler-1";
  model_digest = 55;
}

abbrev pub request : Mode → Request
request mode = record {
  event_id = literal "r1";
  request_id = literal "r1";
  job_id = literal "j1";
  book_id = literal "b1";
  source_reference = literal "originals/b1.pdf";
  media_type = literal "application/pdf";
  correlation_id = literal "k1";
  selector_version = literal "layout-selector-v1";
  parser_profile = literal "poppler-1";
  source_sha256 = 11;
  processing_profile_digest = 22;
  policy_digest = 77;
  source_byte_size = pos 900;
  lifecycle_version = pos 1;
  mode = mode;
  occurred_at = 5;
  idempotency_key = literal "r1";
  producer = literal "ingestion-service";
  schema_version = literal "v1";
  causation_id = literal "c1";
}

abbrev pub page : ℕ → Reason → Candidate
page o r = record { ordinal = o; reason = r; signals = position ∷ layout ∷ []; keep = false }

abbrev pub pages : List Candidate
pages =
    page 3 table_of_contents
    ∷ page 1 title
    ∷ page 2 Reason.list_of_figures_tables
    ∷ page 4 Reason.index
    ∷ []

-- Two kinds of tables are one kind in the message.
encode_ranges_runs :
    encode_ranges (
      record { start = 2; end = 2; reason = Reason.list_of_figures_tables }
      ∷ record { start = 3; end = 4; reason = table_of_contents }
      ∷ [])
    ≡ record { start_ordinal = 2; end_ordinal = 4; reason = table_or_list } ∷ []
unfolding program
encode_ranges_runs = refl

pub enforcing_ready :
    Ready valid_ratio share policy_digest completion_event_id config (request enforcement)
unfolding program
enforcing_ready = record {
  config_valid = refl;
  request_valid = refl;
  same_version = refl;
  same_parser = refl;
  same_digest = refl;
  model = refl;
  safe_event = refl;
  dated = refl;
}

observing_ready :
    Ready valid_ratio share policy_digest completion_event_id config (request observation)
unfolding program
observing_ready = record {
  config_valid = refl;
  request_valid = refl;
  same_version = refl;
  same_parser = refl;
  same_digest = refl;
  model = refl;
  safe_event = refl;
  dated = refl;
}

process-IsCompletion_example :
    (c : Completed) × (process valid_ratio share policy_digest completion_event_id config
        (request enforcement)
        downloaded
        (analyzed 10 pages)
      ≡ some c)
    × IsCompletion valid_ratio share policy_digest completion_event_id config
        (request enforcement)
        c
process-IsCompletion_example =
    process-IsCompletion valid_ratio share policy_digest completion_event_id config
      (request enforcement) enforcing_ready downloaded (analyzed 10 pages) refl

process_refuses_example :
    process valid_ratio share policy_digest completion_event_id config
      (request observation)
      downloaded
      (analyzed 0 [])
    ≡ none
process_refuses_example =
    process_refuses valid_ratio share policy_digest completion_event_id config (request observation)
      observing_ready 0 [] refl refl
