-- ===== src/Answer/Request.antt =====
-- The request of services/answer-service/internal/domain/model.go. A float64 score is the number that
-- its bits spell; whether it is a number of at least 0 and at most 1 is a parameter.
pub mod Normal
mod Tests
use raglibrarian.Base.{
  ℕ, Bool, true, false, not, ◌&&◌, ◌||◌, List, [], ◌∷◌, Option, none, some, ltb, leb, ◌==◌,
  if◌then◌else◌, length, is_empty, is_some, Text, literal, text_eq, byte_len, trim_space,
  valid_string, all, Result, ok, err, ◌>>=◌, ℤ, pos, ltb_ℤ, map,
}

pub record RequestPolicy : Type 0 where
  pub maximum_question_characters : ℤ
  pub maximum_filter_tags : ℤ
  pub maximum_tag_characters : ℤ
  pub maximum_author_characters : ℤ
  pub maximum_result_limit : ℕ

pub record Actor : Type 0 where
  pub user_id : Text
  pub role : Text
  pub status : Text

pub record SearchFilters : Type 0 where
  pub tags : List Text
  pub author : Text
  pub year_from : Option ℤ
  pub year_to : Option ℤ

pub record SearchRequest : Type 0 where
  pub question : Text
  pub filters : SearchFilters
  pub limit : ℕ
  pub actor : Actor
  pub correlation_id : Text
  pub minimum_evidence_score : ℕ
  pub include_query_match_metadata : Bool

pub data RequestError : Type 0 where
  invalid_request forbidden : RequestError

unfoldable pub can_answer : Actor → Bool
can_answer a =
    not (is_empty a.user_id)
    && text_eq a.status (literal "active")
    && (text_eq a.role (literal "reader")
        || text_eq a.role (literal "librarian")
        || text_eq a.role (literal "admin"))

abbrev positive : ℤ → Bool
positive n = ltb_ℤ (pos 0) n

unfoldable pub valid_request_policy : RequestPolicy → Bool
valid_request_policy policy =
    positive policy.maximum_question_characters
    && positive policy.maximum_filter_tags
    && positive policy.maximum_tag_characters
    && positive policy.maximum_author_characters
    && ltb 0 policy.maximum_result_limit

abbrev lower_hex_digit : ℕ → Bool
lower_hex_digit c = (leb b'0' c && leb c b'9') || (leb b'a' c && leb c b'f')

-- The strings of 32 bytes that hex.DecodeString takes and that are in lower case.
unfoldable pub valid_correlation_id : Text → Bool
valid_correlation_id value = byte_len value == 32 && all lower_hex_digit value

-- The tests of a string against a limit of runes.
abbrev pub fits : Text → ℤ → Bool
fits s most = valid_string s && not (ltb_ℤ most (pos (length s)))

-- A year that is given lies outside the range.
abbrev bad_year : Option ℤ → Bool
bad_year none = false
bad_year (some y) = ltb_ℤ y (pos 0) || ltb_ℤ (pos 9999) y

abbrev crossed_years : Option ℤ → Option ℤ → Bool
crossed_years (some from) (some to) = ltb_ℤ to from
crossed_years _ _ = false

unfoldable pub bad_years : SearchFilters → Bool
bad_years filters =
    bad_year filters.year_from
    || bad_year filters.year_to
    || crossed_years filters.year_from filters.year_to

-- The loop over the tags, with none where the code returns an error.
unfoldable pub normal_tags : ℤ → List Text → Option (List Text)
normal_tags most [] = some []
normal_tags most (tag ∷ tags) =
    let rest = normal_tags most tags in
    let normal = trim_space tag in
    if not (fits tag most)
    then none
    else if is_empty normal
    then none
    else elim rest [ none ↦ none | some normals ↦ some (normal ∷ normals) ]

-- The first conditions on the fields that hold no list.
unfoldable pub bad_fields : RequestPolicy → SearchRequest → Bool
bad_fields policy r =
    not (fits r.question policy.maximum_question_characters)
    || not (fits r.filters.author policy.maximum_author_characters)
    || ltb policy.maximum_result_limit r.limit
    || ltb_ℤ policy.maximum_filter_tags (pos (length r.filters.tags))
    || not (valid_correlation_id r.correlation_id)

-- The request with its strings trimmed.
unfoldable pub normalized : SearchRequest → List Text → SearchRequest
normalized r tags = record r {
  question = trim_space r.question;
  filters = record r.filters { tags = tags; author = trim_space r.filters.author };
}

module _ (valid_score : ℕ → Bool) where
  unfoldable pub normalize_and_validate :
      RequestPolicy → SearchRequest → Result RequestError SearchRequest
  normalize_and_validate policy r =
      if not (can_answer r.actor)
      then err forbidden
      else if not (valid_request_policy policy)
      then err invalid_request
      else if bad_fields policy r
      then err invalid_request
      else if not (valid_score r.minimum_evidence_score)
      then err invalid_request
      else if bad_years r.filters
      then err invalid_request
      else if is_empty (trim_space r.question)
      then err invalid_request
      else elim (normal_tags policy.maximum_tag_characters r.filters.tags) [
        | none ↦ err invalid_request
        | some tags ↦ ok (normalized r tags)
      ]
