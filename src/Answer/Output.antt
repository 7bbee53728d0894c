-- ===== src/Answer/Output.antt =====
-- services/answer-service/internal/application/output.go. Whether a rune is in the Unicode category Cf
-- is an argument. The error of a call is none.
pub mod Grounded
pub mod Summary
pub mod Tests
use raglibrarian.Base.{
  ℕ, zero, suc, ◌+◌, ◌-◌, ◌/◌, ◌%◌, Bool, true, false, not, ◌&&◌, ◌||◌, List, [], ◌∷◌, ◌++◌, Option,
  none, some, map, leb, ltb, ◌==◌, if◌then◌else◌, length, keep, take, is_empty, Text, literal,
  text_eq, byte_len, trim_space, is_space, valid_string, member, fields, join, all,
}
use raglibrarian.Answer.Evidence.{ContextEvidence, Limits}

pub record AnswerSegment : Type 0 where
  pub text : Text
  pub evidence_ids : List Text

-- `unicode.IsControl`
unfoldable pub is_control : ℕ → Bool
is_control c = ltb c 0x20 || (leb 0x7f c && ltb c 0xa0)

-- The decimal digits of a number below 10 ^ 10, as a uint32 is: `%d`.
unfoldable pub digits : ℕ → ℕ → Text
digits zero n = []
digits (suc fuel) n =
    let rest = digits fuel (n / 10) in (if ltb n 10 then [] else rest) ++ ((0x30 + n % 10) ∷ [])

unfoldable pub decimal : ℕ → Text
decimal n = digits 10 n

unfoldable pub page_range : ℕ → ℕ → Text
page_range start end =
    if start == 0 && end == 0
    then []
    else if end == 0 || end == start
    then literal "page " ++ decimal start
    else literal "pages " ++ decimal start ++ literal "-" ++ decimal end

unfoldable pub add_part : Text → List Text → List Text
add_part [] parts = parts
add_part (c ∷ part) parts = (c ∷ part) ∷ parts

unfoldable pub split_parts : (ℕ → Bool) → Text → Text × List Text
split_parts separates [] = ([], [])
split_parts separates (c ∷ s) =
    let (part, parts) = split_parts separates s in
    if separates c then ([], add_part part parts) else (c ∷ part, parts)

-- `strings.FieldsFunc`
unfoldable pub fields_func : (ℕ → Bool) → Text → List Text
fields_func separates s = let (part, parts) = split_parts separates s in add_part part parts

abbrev pub labelled : Text → Text → Text
labelled label s = if is_empty s then [] else label ++ s

module _ (is_format : ℕ → Bool) where
  unfoldable pub human_separator : ℕ → Bool
  human_separator c = is_space c || is_control c || is_format c

  unfoldable pub human_field : Text → Text
  human_field value = join (fields_func human_separator value) (0x20 ∷ [])

  unfoldable pub unsafe_answer_rune : ℕ → Bool
  unsafe_answer_rune c = is_control c || is_format c || c == 0x2028 || c == 0x2029

  -- The first piece of evidence with an identifier.
  unfoldable pub find_evidence : Text → List ContextEvidence → Option ContextEvidence
  find_evidence id [] = none
  find_evidence id (e ∷ es) =
      let rest = find_evidence id es in if text_eq e.evidence_id id then some e else rest

  -- What stands before the text of a segment that cites a piece of evidence.
  unfoldable pub introduction : ContextEvidence → Text
  introduction e =
      let title = human_field e.title in
      let author = human_field e.author in
      let pages = page_range e.page_start e.page_end in
      if is_empty title
      then []
      else literal "This is described in "
        ++ title
        ++ labelled (literal " by ") author
        ++ labelled (literal ", ") pages
        ++ literal ": "

  -- Without such evidence the code reads the empty record, whose title is empty.
  unfoldable pub grounded_segment_text : Text → List Text → List ContextEvidence → Text
  grounded_segment_text text [] evidence = text
  grounded_segment_text text (id ∷ ids) evidence = elim (find_evidence id evidence) [
    | none ↦ text
    | some e ↦ introduction e ++ text
  ]

  -- The loop over the citations of a segment, with those seen so far; false where the code returns.
  unfoldable pub valid_citations : List Text → List Text → List Text → Bool
  valid_citations allowed seen [] = true
  valid_citations allowed seen (id ∷ ids) =
      let rest = valid_citations allowed (id ∷ seen) ids in
      if not (member id allowed) then false else if member id seen then false else rest

  unfoldable pub safe_text : Text → Bool
  safe_text text =
      not (is_empty text)
      && valid_string text
      && all (λ c. not (c == 0xfffd) && not (unsafe_answer_rune c)) text

  -- The loop over the segments, with the bytes of those before.
  unfoldable pub validate_from :
      List ContextEvidence → Limits → ℕ → List AnswerSegment → Option (List AnswerSegment)
  validate_from evidence limits total [] = some []
  validate_from evidence limits total (value ∷ values) =
      let text = trim_space value.text in
      let grounded = grounded_segment_text text value.evidence_ids evidence in
      let total' = total + byte_len grounded in
      let rest = validate_from evidence limits total' values in
      if not (safe_text text)
        || is_empty value.evidence_ids
        || ltb limits.maximum_citations (length value.evidence_ids)
      then none
      else if ltb limits.maximum_answer_bytes total'
      then none
      else if not (valid_citations (map (λ e. e.evidence_id) evidence) [] value.evidence_ids)
      then none
      else elim rest [
        | none ↦ none
        | some result ↦
            some (record { text = grounded; evidence_ids = value.evidence_ids } ∷ result)
      ]

  unfoldable pub validate_segments :
      List AnswerSegment → List ContextEvidence → Limits → Option (List AnswerSegment)
  validate_segments values evidence limits =
      if is_empty values || ltb limits.maximum_segments (length values)
      then none
      else validate_from evidence limits 0 values

unfoldable pub summary_parts : List AnswerSegment → List Text
summary_parts [] = []
summary_parts (value ∷ values) =
    let text = trim_space value.text in
    if is_empty text then summary_parts values else text ∷ summary_parts values

-- The maximum is positive.
unfoldable pub summarize_segments : List AnswerSegment → ℕ → Text
summarize_segments values maximum_summary_runes =
    let summary = join (fields (join (summary_parts values) (0x20 ∷ []))) (0x20 ∷ []) in
    if is_empty values
    then []
    else if leb (length summary) maximum_summary_runes
    then summary
    else trim_space (take (maximum_summary_runes - 1) summary) ++ (0x2026 ∷ [])
