-- ===== src/Answer/Request/Tests.antt =====
-- A request with white space around its strings.
use raglibrarian.Base.{
  ℕ, ◌≡◌, refl, true, [], ◌∷◌, none, some, ok, pos, Text, literal, text_eq, is_space, trim_left,
  trim_right, trim_space, rune_width, byte_len, valid_string,
}
use raglibrarian.Answer.Request.{
  RequestPolicy, SearchRequest, can_answer, valid_request_policy, valid_correlation_id, bad_years,
  normal_tags, bad_fields, normalized, normalize_and_validate,
}
use raglibrarian.Answer.Request.Normal.{normalize_and_validate-again}

program : Unit {0}
unfolding text_eq is_space trim_left trim_right trim_space rune_width byte_len valid_string
    can_answer valid_request_policy valid_correlation_id bad_years normal_tags bad_fields normalized
    normalize_and_validate
program = tt

abbrev policy : RequestPolicy
policy = record {
  maximum_question_characters = pos 20;
  maximum_filter_tags = pos 2;
  maximum_tag_characters = pos 6;
  maximum_author_characters = pos 10;
  maximum_result_limit = 5;
}

abbrev request_of : Text → Text → SearchRequest
request_of question tag = record {
  question = question;
  filters = record { tags = tag ∷ []; author = []; year_from = some (pos 1900); year_to = none };
  limit = 5;
  actor = record { user_id = literal "u"; role = literal "reader"; status = literal "active" };
  correlation_id = literal "0123456789abcdef0123456789abcdef";
  minimum_evidence_score = 0;
  include_query_match_metadata = true;
}

validates :
    normalize_and_validate
      (λ (score : ℕ). true)
      policy
      (request_of (literal "  why salt ") (literal " sea"))
    ≡ ok (request_of (literal "why salt") (literal "sea"))
unfolding program
validates = refl

normalize_and_validate-again_example :
    normalize_and_validate
      (λ (score : ℕ). true)
      policy
      (request_of (literal "why salt") (literal "sea"))
    ≡ ok (request_of (literal "why salt") (literal "sea"))
normalize_and_validate-again_example =
    normalize_and_validate-again (λ (score : ℕ). true) policy
      (request_of (literal "  why salt ") (literal " sea"))
      (request_of (literal "why salt") (literal "sea")) validates
