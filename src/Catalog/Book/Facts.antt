-- ===== src/Catalog/Book/Facts.antt =====
-- What the facts reported by Ingestion and Retrieval do to a book.
use raglibrarian.Base.{
  ℕ, ◌+◌, ◌≤◌, ◌≡◌, ◌⊎◌, refl, Bool, true, false, ◌&&◌, [], arith, ok, err, text_eq_refl,
}
use raglibrarian.Catalog.Book.{
  apply_case, apply_processing_fact, Outcome, conclude, mark_failed, mark_indexed,
}
use raglibrarian.Catalog.Status.{
  Book, BookStatus, BookStage, FactKind, FailureCategory, ProcessingFact, category_eq,
  valid_indexing_failure_category, valid_failure_category, valid_failure_detail, started,
  indexing_failed, unknown, other, processing, extracting, conflicting_processing_fact,
  invalid_transition, encrypted_document,
}

category_eq_refl : (c : FailureCategory) → category_eq c c ≡ true
unfolding category_eq
category_eq_refl (other s) = text_eq_refl s
category_eq_refl encrypted_document = refl
category_eq_refl _ = refl

-- The fields of a fact that say how the processing failed are those that its kind wants.
unfoldable pub well_formed : ProcessingFact → Bool
well_formed fact = elim fact.kind [
  | FactKind.failed ↦
      valid_failure_category fact.failure_category && valid_failure_detail fact.failure_detail
  | indexing_failed ↦
      valid_indexing_failure_category fact.failure_category
      && valid_failure_detail fact.failure_detail
  | unknown _ ↦ false
  | _ ↦ true
]

-- The book after an accepted fact, but for its version and time.
unfoldable pub after_fact : FactKind → Book → ProcessingFact → Book
after_fact started b fact = record b { status = processing; stage = extracting }
after_fact FactKind.chunks_ready b fact = record b {
  status = processing;
  stage = BookStage.chunks_ready;
  failure_category = other [];
  failure_detail = [];
}
after_fact FactKind.indexed b fact = record b {
  status = BookStatus.indexed;
  stage = BookStage.indexed;
  failure_category = other [];
  failure_detail = [];
}
after_fact _ b fact = record b {
  status = BookStatus.failed;
  stage = BookStage.failed;
  failure_category = fact.failure_category;
  failure_detail = fact.failure_detail;
}

abbrev Shape : (b d : Book) → Outcome → Type 0
Shape b d o =
    (o ≡ (b, ok false))
    ⊎ (o ≡ (b, err conflicting_processing_fact))
    ⊎ (o ≡ (b, err invalid_transition))
    ⊎ (o ≡ (d, ok true))

conclude-failed :
    (b d : Book) (mark : Book → Outcome)
    → mark (record b { status = BookStatus.failed }) ≡ (d, ok true)
    → Shape b d (conclude b BookStatus.failed mark)
unfolding conclude
conclude-failed b d mark h = ground arith

conclude-indexed :
    (b d : Book) (mark : Book → Outcome)
    → mark (record b { status = BookStatus.indexed }) ≡ (d, ok true)
    → Shape b d (conclude b BookStatus.indexed mark)
unfolding conclude
conclude-indexed b d mark h = ground arith

module _ (b : Book) (fact : ProcessingFact) where
  conclude-mark_failed :
      Shape b (after_fact indexing_failed b fact) (conclude b BookStatus.failed (mark_failed fact))
  unfolding after_fact
  conclude-mark_failed = conclude-failed b _ (mark_failed fact) refl

  conclude-mark_indexed :
      Shape b (after_fact FactKind.indexed b fact) (conclude b BookStatus.indexed mark_indexed)
  unfolding after_fact
  conclude-mark_indexed = conclude-indexed b _ mark_indexed refl

  case-Shape : (k : FactKind) → Shape b (after_fact k b fact) (apply_case k b fact)
  unfolding apply_case after_fact
  case-Shape FactKind.indexed = ground (arith, conclude-mark_indexed)
  case-Shape indexing_failed = ground (arith, conclude-mark_failed)
  case-Shape (unknown n) = ground arith
  case-Shape _ = ground arith

  case-well_formed :
      (k : FactKind) (c : Book)
      → fact.kind ≡ k
      → apply_case k b fact ≡ (c, ok true)
      → well_formed fact ≡ true
  unfolding apply_case well_formed
  case-well_formed started c e h = ground arith
  case-well_formed _ c e h = ground arith

  after_fact-version : (k : FactKind) → (after_fact k b fact).version ≡ b.version
  unfolding after_fact
  after_fact-version started = refl
  after_fact-version _ = refl

-- A fact that is refused or reported as no change leaves the book exactly as it was, although the
-- code moves the status before the last of its checks.
pub apply-unchanged :
    (b : Book) (fact : ProcessingFact)
    → ((apply_processing_fact b fact).1 ≡ ok true) ⊎ ((apply_processing_fact b fact).0 ≡ b)
unfolding apply_processing_fact
apply-unchanged b fact = ground (arith, case-Shape b fact fact.kind)

-- The same fact on the book that it led to.
case-again :
    (k : FactKind) (b : Book) (fact : ProcessingFact) (v t : ℕ)
    → fact.kind ≡ k
    → well_formed fact ≡ true
    → let c = record (after_fact k b fact) { version = v; updated_at = t } in
      apply_case k c fact ≡ (c, ok false)
unfolding apply_case after_fact well_formed
case-again started b fact v t e w = ground arith
case-again _ b fact v t e w =
    ground (arith, category_eq_refl fact.failure_category, text_eq_refl fact.failure_detail)

-- What an accepted fact makes of the book.
pub apply_lem :
    (b c : Book) (fact : ProcessingFact)
    → apply_processing_fact b fact ≡ (c, ok true)
    → (well_formed fact ≡ true)
      × (1 ≤ fact.occurred_at)
      × (apply_case fact.kind b fact ≡ (after_fact fact.kind b fact, ok true))
      × (c ≡ record (after_fact fact.kind b fact) {
        version = b.version + 1;
        updated_at = fact.occurred_at;
      })
unfolding apply_processing_fact
apply_lem b c fact h = ground (
  arith,
  case-Shape b fact fact.kind,
  case-well_formed b fact fact.kind (after_fact fact.kind b fact) refl,
  after_fact-version b fact fact.kind,
)

-- An accepted fact that is delivered again changes nothing and reports no error.
pub apply-redelivered :
    (b c : Book) (fact : ProcessingFact)
    → apply_processing_fact b fact ≡ (c, ok true)
    → apply_processing_fact c fact ≡ (c, ok false)
unfolding apply_processing_fact
apply-redelivered b c fact h =
    let (w, t, _, e) = apply_lem b c fact h in
    rw e (ground (arith, case-again fact.kind b fact (b.version + 1) fact.occurred_at refl w))
