-- ===== src/Answer/Cache/Query.antt =====
-- The match of queries of services/answer-service/internal/application/cache.go. What the package
-- unicode tells of a rune, strings.ToLower and the arithmetic of float64 are parameters; a float is
-- the number that its bits spell. Strings are sorted by code point, as their bytes are for valid UTF-8.
use raglibrarian.Base.{
  ℕ, Bool, true, false, ◌&&◌, ◌||◌, List, [], ◌∷◌, map, ltb, ◌==◌, if◌then◌else◌, is_empty, Text,
  literal, text_eq, member, fields, join,
}

-- `unicode.IsLetter`, `unicode.IsNumber`, `unicode.IsDigit` and `strings.ToLower`.
pub record Unicode : Type 0 where
  pub is_letter : ℕ → Bool
  pub is_number : ℕ → Bool
  pub is_digit : ℕ → Bool
  pub to_lower : Text → Text

-- The arithmetic of float64, its comparison, and a float32 as a float64.
pub record Floats : Type 0 where
  pub widen : ℕ → ℕ
  pub is_finite : ℕ → Bool
  pub plus : ℕ → ℕ → ℕ
  pub times : ℕ → ℕ → ℕ
  pub divide : ℕ → ℕ → ℕ
  pub square_root : ℕ → ℕ
  pub less : ℕ → ℕ → Bool
  pub same : ℕ → ℕ → Bool
  pub float_zero : ℕ
  pub float_one : ℕ
  pub minus_one : ℕ

pub data AnswerMode : Type 0 where
  overview examples steps comparison troubleshooting risks : AnswerMode

unfoldable pub mode_text : AnswerMode → Text
mode_text overview = literal "overview"
mode_text examples = literal "examples"
mode_text steps = literal "steps"
mode_text comparison = literal "comparison"
mode_text troubleshooting = literal "troubleshooting"
mode_text risks = literal "risks"

pub record QueryMatch : Type 0 where
  pub normalized_query : Text
  pub topic_tokens : List Text
  pub guard_tokens : List Text
  pub modes : List AnswerMode
  pub embedding : List ℕ
  pub embedding_profile : Text

-- What the cache reads of a search result.
pub record SearchMetadata : Type 0 where
  pub embedding_profile : Text
  pub retrieval_profile : Text
  pub query_embedding : List ℕ

pub data CacheOutcome : Type 0 where
  bypass hit miss stale mode_mismatch topic_mismatch semantic_mismatch guard_mismatch : CacheOutcome
  hard_mismatch evidence_mismatch generation_coalesced validation_mismatch : CacheOutcome

-- The order of strings.
unfoldable pub text_less : Text → Text → Bool
text_less [] [] = false
text_less [] (b ∷ t) = true
text_less (a ∷ s) [] = false
text_less (a ∷ s) (b ∷ t) = let rest = text_less s t in if a == b then rest else ltb a b

-- A word into a sorted list, behind its equals.
unfoldable pub insert_text : Text → List Text → List Text
insert_text t [] = t ∷ []
insert_text t (s ∷ ss) =
    let rest = insert_text t ss in if text_less t s then t ∷ s ∷ ss else s ∷ rest

-- `sort.Strings`
unfoldable pub sort_texts : List Text → List Text
sort_texts [] = []
sort_texts (t ∷ ts) = insert_text t (sort_texts ts)

-- The keys of a map to which the words are added, sorted.
unfoldable pub sorted_set : List Text → List Text
sorted_set [] = []
sorted_set (t ∷ ts) = let rest = sorted_set ts in if member t rest then rest else insert_text t rest

unfoldable pub insert_mode : AnswerMode → List AnswerMode → List AnswerMode
insert_mode m [] = m ∷ []
insert_mode m (n ∷ ns) =
    let rest = insert_mode m ns in
    if text_less (mode_text m) (mode_text n) then m ∷ n ∷ ns else n ∷ rest

unfoldable pub sort_modes : List AnswerMode → List AnswerMode
sort_modes [] = []
sort_modes (m ∷ ms) = insert_mode m (sort_modes ms)

abbrev pub topic_mode_words : List Text
topic_mode_words = fields (
    literal
      "example examples sample samples code step steps guide tutorial compare comparison versus vs difference tradeoff tradeoffs pros cons troubleshoot troubleshooting debug diagnose diagnosis fix error issue problem risk risks danger security pitfall pitfalls")

abbrev pub intent_words : List Text
intent_words = fields (
    literal
      "a an about and can could explain for give handling how i in is me of on please show tell the to what")

unfoldable pub drop_words : List Text → List Text
drop_words [] = []
drop_words (word ∷ words) =
    let rest = drop_words words in
    if member word intent_words || member word topic_mode_words then rest else word ∷ rest

-- `has(values...)`
unfoldable pub has : List Text → List Text → Bool
has words [] = false
has words (value ∷ values) = member value words || has words values

unfoldable pub has_phrase : List Text → Text → Text → Bool
has_phrase [] first second = false
has_phrase (a ∷ []) first second = false
has_phrase (a ∷ b ∷ words) first second =
    (text_eq a first && text_eq b second) || has_phrase (b ∷ words) first second

abbrev pub add_if : Bool → AnswerMode → List AnswerMode
add_if b m = if b then m ∷ [] else []

unfoldable pub same_tokens : List Text → List Text → Bool
same_tokens [] [] = true
same_tokens (a ∷ s) (b ∷ t) = text_eq a b && same_tokens s t
same_tokens _ _ = false

unfoldable pub same_answer_modes : List AnswerMode → List AnswerMode → Bool
same_answer_modes [] [] = true
same_answer_modes (a ∷ s) (b ∷ t) = text_eq (mode_text a) (mode_text b) && same_answer_modes s t
same_answer_modes _ _ = false

unfoldable pub canonical_answer_modes : List AnswerMode → Text
canonical_answer_modes modes = join (map mode_text modes) (0 ∷ [])

abbrev pub trimmed_rune : ℕ → Bool
trimmed_rune c = c == b'_' || c == b'-' || c == b'/' || c == b'.' || c == b':'

unfoldable pub trim_start : Text → Text
trim_start [] = []
trim_start (c ∷ s) = if trimmed_rune c then trim_start s else c ∷ s

unfoldable pub trim_end : Text → Text
trim_end [] = []
trim_end (c ∷ s) = let rest = trim_end s in if is_empty rest && trimmed_rune c then [] else c ∷ rest

-- `strings.Trim(raw, "_-/.:")`
unfoldable pub trim_guard : Text → Text
trim_guard raw = trim_end (trim_start raw)

abbrev pub joining_rune : ℕ → Bool
joining_rune c = trimmed_rune c || c == b'+' || c == b'#'

unfoldable pub add_guard_word : Text → List Text → List Text
add_guard_word [] words = words
add_guard_word (c ∷ word) words = (c ∷ word) ∷ words
