-- ===== src/Ingestion/Selection/Tests.antt =====
-- A book of ten locations with a title page and a table of contents.
use raglibrarian.Base.{
  ℕ, ◌*◌, ◌/◌, ◌≡◌, refl, Bool, true, false, ◌&&◌, List, [], ◌∷◌, arith, leb, pos, literal, text_eq,
}
use raglibrarian.Ingestion.Selection.{
  Reason, Candidate, Policy, title, table_of_contents, position, layout, decide, valid_policy,
  validate_result, reason_eq, valid_reason, valid_signal, signal_eq, add_candidate, add_signals,
  insert_signal, update_reason, update_decision, collect, exclusion, excluded, insert_ordinal,
  sort_ordinals, make_ranges, excluded_location_count, bound_ranges,
}
use raglibrarian.Ingestion.Selection.Ranges.{covered}
use raglibrarian.Ingestion.Selection.Decisions.{asks_to_keep}
use raglibrarian.Ingestion.Selection.Contract.{validate_result-decide, decide_keeps}

program : Unit {0}
unfolding decide valid_policy validate_result reason_eq valid_reason valid_signal signal_eq
    add_candidate add_signals insert_signal update_reason update_decision collect exclusion excluded
    insert_ordinal sort_ordinals make_ranges excluded_location_count bound_ranges text_eq
program = tt

-- Ratios in thousandths.
abbrev valid_ratio : ℕ → Bool
valid_ratio r = leb 1 r && leb r 1000

abbrev share : ℕ → ℕ → ℕ
share n r = n * r / 1000

abbrev policy : Policy
policy = record {
  version = literal "layout-selector-v1";
  minimum_signals = pos 2;
  maximum_excluded_ratio = 400;
  maximum_ranges = pos 5;
}

abbrev page : ℕ → Reason → Bool → Candidate
page o r k = record {
  ordinal = o;
  reason = r;
  signals = position ∷ layout ∷ position ∷ [];
  keep = k;
}

abbrev pages : List Candidate
pages =
    page 4 table_of_contents false
    ∷ page 1 title false
    ∷ page 3 table_of_contents false
    ∷ page 5 table_of_contents true
    ∷ []

decide_runs :
    (decide valid_ratio share policy 10 pages).ranges
    ≡ record { start = 1; end = 1; reason = title }
      ∷ record { start = 3; end = 4; reason = table_of_contents }
      ∷ []
unfolding program
decide_runs = refl

validate_result-decide_example :
    validate_result valid_ratio share policy (decide valid_ratio share policy 10 pages) ≡ true
unfolding program
validate_result-decide_example =
    validate_result-decide valid_ratio share policy 10 pages refl (omega arith)

decide_keeps_example : covered 5 (decide valid_ratio share policy 10 pages).ranges ≡ false
unfolding asks_to_keep
decide_keeps_example = decide_keeps valid_ratio share policy 10 pages 5 refl
