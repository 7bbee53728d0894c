-- ===== src/Catalog/Book/Tests.antt =====
-- Lives of a book.
use raglibrarian.Base.{
  ℕ, ◌≤◌, ◌≡◌, ◌↔◌, refl, true, false, not, ◌&&◌, ◌==◌, [], ◌∷◌, pos, literal, text_eq, is_blank,
  byte_len, ok, err,
}
use raglibrarian.Catalog.Book.{apply_processing_fact, conclude}
use raglibrarian.Catalog.Commands.{
  Actor, reindex, delete, apply_lifecycle_command, validate_metadata_at, can_manage, can_read,
  can_upload,
}
use raglibrarian.Catalog.Status.{
  Book, BookStatus, FactKind, ProcessingFact, started, indexing_failed, other, pending, processing,
  reindexing, deleting, queued, extracting, embedding_unavailable, invalid_metadata, category_eq,
  valid_failure_detail, valid_indexing_failure_category,
}
use raglibrarian.Catalog.Book.Facts.{well_formed}
use raglibrarian.Catalog.Book.Lifecycle.{
  coherent, accepts, is_accepted, apply_all, fact_event, command_event, handle_all, apply-accepts,
  apply_all_bounded, handle_all_gone, handle_all-coherent,
}
use raglibrarian.Catalog.Book.Metadata.{
  IsPublishable, validate_metadata_at_iff, can_manage-can_read,
}

program : Unit {0}
unfolding apply_processing_fact conclude apply_lifecycle_command validate_metadata_at can_manage
    can_read can_upload category_eq valid_failure_detail text_eq is_blank byte_len
    valid_indexing_failure_category
program = tt

abbrev uploaded : Book
uploaded = record {
  id = literal "b1";
  metadata = record {
    title = literal "T";
    author = literal "A";
    year = pos 2020;
    tags = literal "go" ∷ [];
  };
  status = pending;
  created_at = 10;
  object_reference = literal "o";
  checksum = 5;
  byte_size = 100;
  media_type = literal "application/pdf";
  preview = [];
  actor_id = literal "u";
  stage = queued;
  failure_category = other [];
  failure_detail = [];
  updated_at = 10;
  version = 1;
  lifecycle_version = 1;
  manifest_reference = [];
  manifest_checksum = 0;
  delete_command_id = [];
  artifacts_deleted = true;
  index_deleted = true;
  original_deleted = true;
}

abbrev fact : FactKind → ℕ → ProcessingFact
fact kind at = record {
  kind = kind;
  failure_category = other [];
  failure_detail = [];
  occurred_at = at;
}

abbrev lost : ProcessingFact
lost = record {
  kind = indexing_failed;
  failure_category = embedding_unavailable;
  failure_detail = literal "tei-503";
  occurred_at = 40;
}

abbrev running : Book
running = record uploaded { status = processing; stage = extracting; version = 2; updated_at = 20 }

abbrev removed : Book
removed = record uploaded {
  status = deleting;
  version = 2;
  lifecycle_version = 2;
  updated_at = 50;
  delete_command_id = literal "c1";
  artifacts_deleted = false;
  index_deleted = false;
  original_deleted = false;
}

started_runs : apply_processing_fact uploaded (fact started 20) ≡ (running, ok true)
unfolding program
started_runs = refl

indexed_twice_runs :
    (apply_all uploaded (fact FactKind.indexed 30 ∷ fact FactKind.indexed 30 ∷ lost ∷ [])).1 ≡ 1
unfolding program apply_all
indexed_twice_runs = refl

lost_runs : (apply_processing_fact running lost).0.status ≡ BookStatus.failed
unfolding program
lost_runs = refl

delete_runs : apply_lifecycle_command uploaded delete (literal "c1") 50 ≡ ok removed
unfolding program
delete_runs = refl

apply-accepts_example :
    is_accepted (apply_processing_fact running lost).1
    ≡ (not (40 == 0) && (well_formed lost && accepts indexing_failed processing extracting))
apply-accepts_example = apply-accepts running lost refl

apply_all_bounded_example :
    ((apply_all running (lost ∷ lost ∷ [])).1 ≤ 3)
    × (processing ≡ reindexing → (apply_all running (lost ∷ lost ∷ [])).1 ≤ 1)
apply_all_bounded_example = apply_all_bounded running (lost ∷ lost ∷ []) refl

handle_all_gone_example :
    handle_all removed (fact_event lost ∷ command_event reindex (literal "c2") 60 ∷ []) ≡ removed
handle_all_gone_example =
    handle_all_gone removed (fact_event lost ∷ command_event reindex (literal "c2") 60 ∷ []) refl

handle_all-coherent_example :
    coherent (handle_all uploaded (fact_event lost ∷ command_event delete (literal "c1") 50 ∷ []))
    ≡ true
handle_all-coherent_example =
    handle_all-coherent uploaded (fact_event lost ∷ command_event delete (literal "c1") 50 ∷ [])
      refl

validate_metadata_at_iff_example :
    (validate_metadata_at uploaded.metadata 2026 ≡ ok tt) ↔ IsPublishable uploaded.metadata 2026
validate_metadata_at_iff_example = validate_metadata_at_iff uploaded.metadata 2026

future_refused : validate_metadata_at uploaded.metadata 2018 ≡ err invalid_metadata
unfolding program
future_refused = refl

abbrev librarian : Actor
librarian = record {
  user_id = literal "u";
  role = literal "librarian";
  status = literal "active";
  masked_email = [];
}

can_manage-can_read_example : can_read librarian ≡ true
unfolding program
can_manage-can_read_example = can_manage-can_read librarian refl
