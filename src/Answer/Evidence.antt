-- ===== src/Answer/Evidence.antt =====
-- services/answer-service/internal/application/evidence.go, and the types that it takes from
-- services/answer-service/internal/domain/model.go. A float64 score is the number that its bits
-- spell; the comparison of scores is a parameter. The sets of the code are lists.
pub mod Bounds
pub mod Maximal
mod Tests
use raglibrarian.Base.{
  ℕ, zero, suc, ◌+◌, Bool, true, false, not, ◌&&◌, ◌||◌, List, [], ◌∷◌, ◌++◌, map, leb, ltb, ◌==◌,
  if◌then◌else◌, length, keep, is_empty, Text, byte_len, trim_space, valid_string, member, fields,
  join,
}

-- What the code reads of the metadata of a book.
pub record BookMetadata : Type 0 where
  pub book_id : Text
  pub title : Text
  pub author : Text

-- What the code reads of a piece of evidence.
pub record Evidence : Type 0 where
  pub evidence_id : Text
  pub book : BookMetadata
  pub chapter : Text
  pub section : Text
  pub page_start : ℕ
  pub page_end : ℕ
  pub passage : Text
  pub score : ℕ

pub record SearchResult : Type 0 where
  pub results : List Evidence
  pub documents : List (List Evidence)

pub record ContextEvidence : Type 0 where
  pub evidence_id : Text
  pub passage : Text
  pub title : Text
  pub author : Text
  pub chapter : Text
  pub section : Text
  pub page_start : ℕ
  pub page_end : ℕ

-- The limits that the code of the model reads. They are not negative.
pub record Limits : Type 0 where
  pub maximum_evidence : ℕ
  pub maximum_context_bytes : ℕ
  pub maximum_evidence_bytes : ℕ
  pub maximum_segments : ℕ
  pub maximum_answer_bytes : ℕ
  pub maximum_summary_runes : ℕ
  pub maximum_citations : ℕ

pub record EvidenceCandidate : Type 0 where
  pub evidence : Evidence
  pub group : Text

-- `filterSearchByMinimumEvidenceScore`: is the minimum a positive number, and which scores reach it?
unfoldable pub filter_search : Bool → (ℕ → Bool) → SearchResult → SearchResult
filter_search positive reaches search =
    let good : Evidence → Bool = λ value. reaches value.score in
    if positive
    then record {
      results = keep good search.results;
      documents = keep (λ d. not (is_empty d)) (map (keep good) search.documents);
    }
    else search

unfoldable pub evidence_diversity_group : Evidence → Text
unfolding trim_space join
evidence_diversity_group value =
    let id = trim_space value.book.book_id in
    join
      ((if is_empty id then trim_space value.book.title else id)
        ∷ trim_space value.chapter
        ∷ trim_space value.section
        ∷ [])
      (0 ∷ [])

unfoldable pub candidate_of : Evidence → EvidenceCandidate
unfolding evidence_diversity_group
candidate_of value = record { evidence = value; group = evidence_diversity_group value }

unfoldable pub concat : List (List Evidence) → List Evidence
concat [] = []
concat (d ∷ ds) = d ++ concat ds

unfoldable pub evidence_candidates : SearchResult → List EvidenceCandidate
unfolding candidate_of concat
evidence_candidates search = map candidate_of (search.results ++ concat search.documents)

unfoldable pub context_evidence : Evidence → ContextEvidence
context_evidence value = record {
  evidence_id = value.evidence_id;
  passage = value.passage;
  title = value.book.title;
  author = value.book.author;
  chapter = value.chapter;
  section = value.section;
  page_start = value.page_start;
  page_end = value.page_end;
}

unfoldable pub valid_context_evidence : ContextEvidence → Bool
unfolding valid_string
valid_context_evidence value =
    valid_string value.evidence_id
    && valid_string value.passage
    && valid_string value.title
    && valid_string value.author
    && valid_string value.chapter
    && valid_string value.section

unfoldable pub context_evidence_bytes : ContextEvidence → ℕ
unfolding byte_len
context_evidence_bytes value =
    byte_len value.evidence_id
    + byte_len value.passage
    + byte_len value.title
    + byte_len value.author
    + byte_len value.chapter
    + byte_len value.section

unfoldable pub normalized_passage : ContextEvidence → Text
unfolding fields join
normalized_passage value = join (fields value.passage) (0x20 ∷ [])

-- The variables of `selectEvidence`.
pub record Picked : Type 0 where
  pub selected : List ContextEvidence
  pub seen : List Text
  pub seen_passages : List Text
  pub seen_groups : List Text
  pub total : ℕ

abbrev pub nothing : Picked
nothing = record { selected = []; seen = []; seen_passages = []; seen_groups = []; total = 0 }

-- The conditions on a piece of evidence alone.
unfoldable pub usable : Limits → ContextEvidence → Bool
unfolding valid_context_evidence normalized_passage byte_len
usable limits value = not (
    is_empty value.evidence_id
    || byte_len value.passage == 0
    || ltb limits.maximum_evidence_bytes (byte_len value.passage)
    || not (valid_context_evidence value)
    || is_empty (normalized_passage value))

unfoldable pub put_evidence : Picked → ContextEvidence → Text → Picked
unfolding context_evidence_bytes normalized_passage
put_evidence p value group = record {
  selected = p.selected ++ (value ∷ []);
  seen = p.seen ++ (value.evidence_id ∷ []);
  seen_passages = p.seen_passages ++ (normalized_passage value ∷ []);
  seen_groups = if is_empty group then p.seen_groups else p.seen_groups ++ (group ∷ []);
  total = p.total + context_evidence_bytes value;
}

-- The function `add`. No caller reads whether it added.
unfoldable pub add : Limits → Bool → EvidenceCandidate → Picked → Picked
unfolding usable put_evidence context_evidence context_evidence_bytes normalized_passage member
add limits require_new_group candidate p =
    let value = context_evidence candidate.evidence in
    if leb limits.maximum_evidence (length p.selected) || not (usable limits value)
    then p
    else if not (is_empty candidate.group)
        && member candidate.group p.seen_groups
        && require_new_group
    then p
    else if member value.evidence_id p.seen
        || ltb limits.maximum_context_bytes (p.total + context_evidence_bytes value)
    then p
    else if member (normalized_passage value) p.seen_passages
    then p
    else put_evidence p value candidate.group

-- A loop over the candidates, which ends when enough are selected.
unfoldable pub add_all : Limits → Bool → List EvidenceCandidate → Picked → Picked
unfolding add
add_all limits require_new_group [] p = p
add_all limits require_new_group (c ∷ cs) p =
    let rest = add_all limits require_new_group cs (add limits require_new_group c p) in
    if leb limits.maximum_evidence (length p.selected) then p else rest

unfoldable pub pick : SearchResult → Limits → Picked
unfolding add_all evidence_candidates
pick search limits =
    let candidates = evidence_candidates search in
    let diverse = add_all limits true candidates nothing in
    if leb limits.maximum_evidence (length diverse.selected)
    then diverse
    else add_all limits false candidates diverse

unfoldable pub select_evidence : SearchResult → Limits → List ContextEvidence
unfolding pick
select_evidence search limits = (pick search limits).selected
