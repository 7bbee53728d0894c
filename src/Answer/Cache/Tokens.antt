-- ===== src/Answer/Cache/Tokens.antt =====
-- What services/answer-service/internal/application/cache.go reads from the words of a question, and
-- the test of two questions for a match.
use raglibrarian.Base.{
  ℕ, Bool, false, not, ◌&&◌, ◌||◌, List, [], ◌∷◌, ◌++◌, Option, none, some, is_some, map,
  if◌then◌else◌, ◌==◌, length, is_empty, Text, literal, text_eq, trim_space, is_blank, member,
  fields, join,
}
use raglibrarian.Answer.Cache.Query.{
  Unicode, Floats, AnswerMode, overview, examples, steps, comparison, troubleshooting, risks,
  QueryMatch, SearchMetadata, CacheOutcome, hit, mode_mismatch, topic_mismatch, semantic_mismatch,
  guard_mismatch, sorted_set, sort_modes, drop_words, has, has_phrase, add_if, same_tokens,
  same_answer_modes, trim_guard, joining_rune, add_guard_word,
}

-- The modes that the words name, in the order of the code.
unfoldable pub named_modes : List Text → List AnswerMode
named_modes words =
    add_if
      (has words (fields (literal "example examples sample samples"))
        || has_phrase words (literal "sample") (literal "code"))
      examples
    ++ add_if (has words (fields (literal "step steps guide tutorial"))) steps
    ++ add_if
        (has words
          (fields (literal "compare comparison versus vs difference tradeoff tradeoffs pros cons")))
        comparison
    ++ add_if
        (has words (
          fields (
            literal
              "troubleshoot troubleshooting debug diagnose diagnosis fix error issue problem")))
        troubleshooting
    ++ add_if (has words (fields (literal "risk risks danger security pitfall pitfalls"))) risks

unfoldable pub modes_or_overview : List AnswerMode → List AnswerMode
modes_or_overview [] = overview ∷ []
modes_or_overview (m ∷ ms) = sort_modes (m ∷ ms)

abbrev negations : List Text
negations = fields (literal "no not without exclude excluding except avoid")

module _ (u : Unicode) where
  abbrev pub word_rune : ℕ → Bool
  word_rune c = u.is_letter c || u.is_number c

  unfoldable pub query_words : Text → List Text
  query_words value = fields (map (λ c. if word_rune c then c else 0x20) (u.to_lower value))

  unfoldable pub normalize_query : Text → Text
  normalize_query value = join (query_words value) (0x20 ∷ [])

  unfoldable pub topic_tokens : Text → List Text
  topic_tokens value = sorted_set (drop_words (query_words value))

  unfoldable pub detect_answer_modes : Text → List AnswerMode
  detect_answer_modes question = modes_or_overview (named_modes (query_words question))

  -- The word that a string begins with, which may be empty, and the words behind it.
  unfoldable pub split_guard_words : Text → Text × List Text
  split_guard_words [] = ([], [])
  split_guard_words (c ∷ s) =
      let (word, words) = split_guard_words s in
      if word_rune c || joining_rune c then (c ∷ word, words) else ([], add_guard_word word words)

  unfoldable pub raw_guard_words : Text → List Text
  raw_guard_words value = let (word, words) = split_guard_words value in add_guard_word word words

  -- The loop over the runes behind the first: is there a symbol, or none where the code returns.
  unfoldable pub scan_symbols : Bool → Text → Option Bool
  scan_symbols has_symbol [] = some has_symbol
  scan_symbols has_symbol (c ∷ s) =
      let rest = scan_symbols (has_symbol || not (word_rune c)) s in
      if word_rune c || c == b'+' || c == b'#' then rest else none

  unfoldable pub symbolic_word : Text → Option Text
  symbolic_word [] = none
  symbolic_word (c ∷ s) = if not (word_rune c) then none else elim (scan_symbols false s) [
    | none ↦ none
    | some has_symbol ↦ if has_symbol then some (u.to_lower (c ∷ s)) else none
  ]

  unfoldable pub symbolic_language_guard : Text → Option Text
  symbolic_language_guard raw = symbolic_word (trim_space (trim_guard raw))

  unfoldable pub has_digit : Text → Bool
  has_digit [] = false
  has_digit (c ∷ s) = u.is_digit c || has_digit s

  unfoldable pub guard_token : Text → Bool
  guard_token raw =
      let word = trim_guard raw in
      is_some (symbolic_language_guard raw)
      || (not (is_empty word) && (member (u.to_lower word) negations || has_digit word))

  unfoldable pub guard_words : List Text → List Text
  guard_words [] = []
  guard_words (raw ∷ raws) =
      let rest = guard_words raws in
      let normal : Text = elim (symbolic_language_guard raw) [
        | none ↦ normalize_query raw
        | some word ↦ word
      ] in
      if not (is_empty normal) && guard_token raw then normal ∷ rest else rest

  unfoldable pub guard_tokens : Text → List Text
  guard_tokens value = sorted_set (guard_words (raw_guard_words value))

  unfoldable pub new_query_match : Text → SearchMetadata → QueryMatch
  new_query_match question search = record {
    normalized_query = normalize_query question;
    topic_tokens = topic_tokens question;
    guard_tokens = guard_tokens question;
    modes = detect_answer_modes question;
    embedding = search.query_embedding;
    embedding_profile = search.embedding_profile;
  }

module _ (f : Floats) where
  -- The sums of the loop, with none where it returns; the vectors have one length.
  unfoldable pub add_products : List ℕ → List ℕ → ℕ × ℕ × ℕ → Option (ℕ × ℕ × ℕ)
  add_products (a ∷ left) (b ∷ right) (dot, left_norm, right_norm) =
      let x = f.widen a in
      let y = f.widen b in
      let rest = add_products left right (
        f.plus dot (f.times x y),
        f.plus left_norm (f.times x x),
        f.plus right_norm (f.times y y),
      ) in
      if not (f.is_finite x) || not (f.is_finite y) then none else rest
  add_products _ _ sums = some sums

  unfoldable pub cosine_of : Option (ℕ × ℕ × ℕ) → ℕ
  cosine_of none = f.minus_one
  cosine_of (some (dot, left_norm, right_norm)) =
      if f.same left_norm f.float_zero || f.same right_norm f.float_zero
      then f.minus_one
      else f.divide dot (f.square_root (f.times left_norm right_norm))

  unfoldable pub cosine_similarity : List ℕ → List ℕ → ℕ
  cosine_similarity left right =
      if is_empty left || not (length left == length right)
      then f.minus_one
      else cosine_of (add_products left right (f.float_zero, f.float_zero, f.float_zero))

  unfoldable pub valid_embedding : List ℕ → Bool
  valid_embedding value = f.less f.float_zero (cosine_similarity value value)

  unfoldable pub cacheable_search : SearchMetadata → Bool
  cacheable_search search =
      not (is_blank search.embedding_profile)
      && not (is_blank search.retrieval_profile)
      && valid_embedding search.query_embedding

  -- `minimum` is the field MinimumCosine of the policy.
  unfoldable pub queries_match : QueryMatch → QueryMatch → ℕ → CacheOutcome
  queries_match current cached minimum =
      if not (text_eq current.embedding_profile cached.embedding_profile)
      then semantic_mismatch
      else if not (same_tokens current.guard_tokens cached.guard_tokens)
      then guard_mismatch
      else if text_eq current.normalized_query cached.normalized_query
      then hit
      else if not (same_answer_modes current.modes cached.modes)
      then mode_mismatch
      else if not (same_tokens current.topic_tokens cached.topic_tokens)
      then topic_mismatch
      else if f.less (cosine_similarity current.embedding cached.embedding) minimum
      then semantic_mismatch
      else hit
