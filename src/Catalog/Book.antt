-- ===== src/Catalog/Book.antt =====
-- services/catalog-service/internal/catalog/domain.go, and the change of state that a lifecycle
-- command makes in repository/postgres_book_repository.go. A method on `*Book` that returns an
-- error gives the book as it then stands beside the error.
pub mod Facts
pub mod Lifecycle
pub mod Metadata
mod Tests
use raglibrarian.Base.{
  ℕ, ◌+◌, Bool, true, false, not, ◌&&◌, ◌||◌, List, [], ◌∷◌, leb, ltb, ◌==◌, if◌then◌else◌, all,
  is_empty, length, ℤ, pos, ltb_ℤ, Text, literal, text_eq, byte_len, is_blank, Result, ok, err,
}
use raglibrarian.Catalog.Status.{
  Book, BookError, BookMetadata, BookStage, BookStatus, FactKind, FailureCategory, ProcessingFact,
  can_reindex, category_eq, chunks_ready, conflicting_processing_fact, deleted, deleting,
  dependency_unavailable, detail_rune, embedding_unavailable, encrypted_document, extracting,
  extraction_not_permitted, failed, incompatible_profile, indexed, indexing_failed,
  indexing_timeout, internal_indexing_error, internal_processing_error, invalid_command,
  invalid_metadata, invalid_transition, malformed_document, manifest_integrity, no_extractable_text,
  not_found, other, pending, processing, processing_timeout, queued, reindexable_failure_category,
  reindexing, resource_limit_exceeded, source_integrity_mismatch, stage_eq, started, status_eq,
  transition_to, unknown, unlisted, unsupported_document, valid_failure_category,
  valid_failure_detail, valid_indexing_failure_category, valid_transition, vector_store_unavailable,
}

-- A change of the book and what the call returns: `ok true` where the source leaves the switch.
abbrev pub Outcome : Type 0
Outcome = Book × Result BookError Bool

-- `if err := b.TransitionTo(next); err != nil { return false, err }`, then the rest.
abbrev pub advance : Book → BookStatus → (Book → Outcome) → Outcome
advance b next rest = elim (transition_to b next) [ ok c ↦ rest c | err e ↦ (b, err e) ]

abbrev pub advance_if : Bool → Book → BookStatus → (Book → Outcome) → Outcome
advance_if test b next rest = if test then advance b next rest else rest b

abbrev pub no_category : FailureCategory
no_category = other []

-- The cases of the switch in `ApplyProcessingFact`, in the source's order.
unfoldable pub apply_started : Book → ProcessingFact → Outcome
unfolding transition_to
apply_started b fact =
    if stage_eq b.stage extracting
    then (b, ok false)
    else if stage_eq b.stage BookStage.chunks_ready
        || stage_eq b.stage BookStage.indexed
        || stage_eq b.stage BookStage.failed
    then (b, ok false)
    else if not (status_eq b.status pending) || not (stage_eq b.stage queued)
    then (b, err conflicting_processing_fact)
    else advance b processing (λ c. (record c { stage = extracting }, ok true))

unfoldable pub apply_chunks_ready : Book → ProcessingFact → Outcome
unfolding transition_to
apply_chunks_ready b fact =
    if stage_eq b.stage BookStage.chunks_ready
      || stage_eq b.stage BookStage.indexed
      || (stage_eq b.stage BookStage.failed && valid_indexing_failure_category b.failure_category)
    then (b, ok false)
    else if stage_eq b.stage BookStage.failed
    then (b, err conflicting_processing_fact)
    else if status_eq b.status pending
    then advance b processing ready
    else if not (status_eq b.status processing)
    then (b, err conflicting_processing_fact)
    else ready b
  where
    ready : Book → Outcome
    ready c = (
      record c {
        stage = BookStage.chunks_ready;
        failure_category = no_category;
        failure_detail = [];
      },
      ok true,
    )

abbrev pub mark_failed : ProcessingFact → Book → Outcome
mark_failed fact c = (
  record c {
    stage = BookStage.failed;
    failure_category = fact.failure_category;
    failure_detail = fact.failure_detail;
  },
  ok true,
)

abbrev pub mark_indexed : Book → Outcome
mark_indexed c = (
  record c { stage = BookStage.indexed; failure_category = no_category; failure_detail = [] },
  ok true,
)

unfoldable pub apply_failed : Book → ProcessingFact → Outcome
unfolding transition_to
apply_failed b fact =
    if not (valid_failure_category fact.failure_category)
      || not (valid_failure_detail fact.failure_detail)
    then (b, err conflicting_processing_fact)
    else if stage_eq b.stage BookStage.indexed
        || (stage_eq b.stage BookStage.failed && valid_indexing_failure_category b.failure_category)
    then (b, ok false)
    else if stage_eq b.stage BookStage.failed
        && category_eq b.failure_category fact.failure_category
        && text_eq b.failure_detail fact.failure_detail
    then (b, ok false)
    else if stage_eq b.stage BookStage.chunks_ready || status_eq b.status BookStatus.failed
    then (b, err conflicting_processing_fact)
    else advance_if (status_eq b.status pending) b processing
        (λ c. advance c BookStatus.failed (mark_failed fact))

-- What the last two cases do alike when they do not return early: `next` is the status that the
-- book ends in and `mark` the change of the stage.
unfoldable pub conclude : Book → BookStatus → (Book → Outcome) → Outcome
unfolding transition_to
conclude b next mark =
    if status_eq b.status reindexing && stage_eq b.stage BookStage.chunks_ready
    then advance b next mark
    else advance_if (status_eq b.status pending && stage_eq b.stage queued) b processing (λ c.
      if (not (stage_eq c.stage queued)
          && not (stage_eq c.stage extracting)
          && not (stage_eq c.stage BookStage.chunks_ready))
        || not (status_eq c.status processing)
      then (c, err conflicting_processing_fact)
      else advance c next mark)

unfoldable pub apply_indexed : Book → ProcessingFact → Outcome
apply_indexed b fact =
    if stage_eq b.stage BookStage.indexed && status_eq b.status BookStatus.indexed
    then (b, ok false)
    else conclude b BookStatus.indexed mark_indexed

unfoldable pub apply_indexing_failed : Book → ProcessingFact → Outcome
apply_indexing_failed b fact =
    if not (valid_indexing_failure_category fact.failure_category)
      || not (valid_failure_detail fact.failure_detail)
    then (b, err conflicting_processing_fact)
    else if stage_eq b.stage BookStage.failed
        && status_eq b.status BookStatus.failed
        && category_eq b.failure_category fact.failure_category
        && text_eq b.failure_detail fact.failure_detail
    then (b, ok false)
    else conclude b BookStatus.failed (mark_failed fact)

unfoldable pub apply_case : FactKind → Book → ProcessingFact → Outcome
unfolding apply_started apply_chunks_ready apply_failed apply_indexed apply_indexing_failed
apply_case started b fact = apply_started b fact
apply_case FactKind.chunks_ready b fact = apply_chunks_ready b fact
apply_case FactKind.failed b fact = apply_failed b fact
apply_case FactKind.indexed b fact = apply_indexed b fact
apply_case indexing_failed b fact = apply_indexing_failed b fact
apply_case (unknown _) b fact = (b, err conflicting_processing_fact)

-- The lines behind the switch.
abbrev pub settle : ProcessingFact → Outcome → Outcome
settle fact (c, ok true) =
    (record c { version = c.version + 1; updated_at = fact.occurred_at }, ok true)
settle fact (c, ok false) = (c, ok false)
settle fact (c, err e) = (c, err e)

unfoldable pub apply_processing_fact : Book → ProcessingFact → Outcome
unfolding apply_case
apply_processing_fact b fact =
    if fact.occurred_at == 0
    then (b, err conflicting_processing_fact)
    else settle fact (apply_case fact.kind b fact)
