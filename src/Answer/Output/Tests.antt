-- ===== src/Answer/Output/Tests.antt =====
-- An answer that cites two pieces of evidence.
use raglibrarian.Base.{
  ℕ, ◌≡◌, ◌≤◌, refl, Bool, true, false, List, [], ◌∷◌, ◌++◌, some, arith, ◌==◌, length, Text,
  literal, text_eq, is_space, trim_left, trim_right, trim_space, rune_width, byte_len, valid_string,
  member, join,
}
use raglibrarian.Answer.Evidence.{ContextEvidence, Limits}
use raglibrarian.Answer.Output.{
  AnswerSegment, is_control, digits, decimal, page_range, add_part, split_parts, fields_func,
  human_separator, human_field, unsafe_answer_rune, find_evidence, introduction,
  grounded_segment_text, valid_citations, safe_text, validate_from, validate_segments,
  summary_parts, summarize_segments,
}
use raglibrarian.Answer.Output.Grounded.{
  printable, AllGrounded, answer_bytes, validate_segments-AllGrounded,
}

pub program : Unit {0}
unfolding text_eq is_space trim_left trim_right trim_space rune_width byte_len valid_string member
    join is_control digits decimal page_range add_part split_parts fields_func human_separator
    human_field unsafe_answer_rune find_evidence introduction grounded_segment_text valid_citations
    safe_text validate_from validate_segments summary_parts summarize_segments
program = tt

-- The soft hyphen.
abbrev pub is_format : ℕ → Bool
is_format c = c == 0xad

pub no_ascii : (c : ℕ) → printable c ≡ true → is_format c ≡ false
no_ascii c h = ground arith

abbrev piece : Text → Text → ContextEvidence
piece id title = record {
  evidence_id = id;
  passage = literal "p";
  title = title;
  author = literal "Ann";
  chapter = [];
  section = [];
  page_start = 12;
  page_end = 14;
}

abbrev pub evidence : List ContextEvidence
evidence =
    piece (literal "e1") (literal "The" ++ (10 ∷ 0xad ∷ []) ++ literal "Sea")
    ∷ piece (literal "e2") []
    ∷ []

abbrev pub limits : Limits
limits = record {
  maximum_evidence = 3;
  maximum_context_bytes = 400;
  maximum_evidence_bytes = 200;
  maximum_segments = 2;
  maximum_answer_bytes = 200;
  maximum_summary_runes = 20;
  maximum_citations = 2;
}

abbrev pub segments : List AnswerSegment
segments =
    record { text = literal " Salt. "; evidence_ids = literal "e1" ∷ literal "e2" ∷ [] }
    ∷ record { text = literal "Waves."; evidence_ids = literal "e2" ∷ [] }
    ∷ []

abbrev pub grounded : List AnswerSegment
grounded =
    record {
      text = literal "This is described in The Sea by Ann, pages 12-14: Salt.";
      evidence_ids = literal "e1" ∷ literal "e2" ∷ [];
    }
    ∷ record { text = literal "Waves."; evidence_ids = literal "e2" ∷ [] }
    ∷ []

validates : validate_segments is_format segments evidence limits ≡ some grounded
unfolding program
validates = refl

validate_segments-AllGrounded_example :
    AllGrounded is_format no_ascii evidence limits segments grounded
    × (answer_bytes is_format no_ascii grounded ≤ limits.maximum_answer_bytes)
    × (1 ≤ length segments)
    × (length segments ≤ limits.maximum_segments)
validate_segments-AllGrounded_example =
    validate_segments-AllGrounded is_format no_ascii evidence limits segments grounded validates
