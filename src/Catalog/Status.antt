-- ===== src/Catalog/Status.antt =====
-- The states of a book in services/catalog-service/internal/catalog/domain.go, and its data.
use raglibrarian.Base.{
  ℕ, Bool, true, false, not, ◌&&◌, ◌||◌, List, leb, ltb, ◌==◌, if◌then◌else◌, all, is_empty, ℤ,
  Text, text_eq, byte_len, Result, ok, err,
}

pub data BookError : Type 0 where
  invalid_metadata invalid_transition invalid_command conflicting_processing_fact : BookError
  not_found : BookError

pub data BookStatus : Type 0 where
  pending processing indexed failed reindexing deleting deleted : BookStatus
  unlisted : Text → BookStatus

pub data BookStage : Type 0 where
  queued extracting chunks_ready indexed failed : BookStage
  unlisted : Text → BookStage

-- `other` holds the strings that are none of the constants, such as "" for no failure.
pub data FailureCategory : Type 0 where
  encrypted_document extraction_not_permitted malformed_document : FailureCategory
  unsupported_document no_extractable_text resource_limit_exceeded : FailureCategory
  source_integrity_mismatch processing_timeout dependency_unavailable : FailureCategory
  internal_processing_error manifest_integrity incompatible_profile : FailureCategory
  embedding_unavailable vector_store_unavailable indexing_timeout : FailureCategory
  internal_indexing_error : FailureCategory
  other : Text → FailureCategory

pub data FactKind : Type 0 where
  started chunks_ready failed indexed indexing_failed : FactKind
  unknown : ℕ → FactKind

pub record ProcessingFact : Type 0 where
  pub kind : FactKind
  pub failure_category : FailureCategory
  pub failure_detail : Text
  pub occurred_at : ℕ

pub record BookMetadata : Type 0 where
  pub title : Text
  pub author : Text
  pub year : ℤ
  pub tags : List Text

pub record Book : Type 0 where
  pub id : Text
  pub metadata : BookMetadata
  pub status : BookStatus
  pub created_at : ℕ
  pub object_reference : Text
  pub checksum : ℕ
  pub byte_size : ℕ
  pub media_type : Text
  pub preview : Text
  pub actor_id : Text
  pub stage : BookStage
  pub failure_category : FailureCategory
  pub failure_detail : Text
  pub updated_at : ℕ
  pub version : ℕ
  pub lifecycle_version : ℕ
  pub manifest_reference : Text
  pub manifest_checksum : ℕ
  pub delete_command_id : Text
  pub artifacts_deleted : Bool
  pub index_deleted : Bool
  pub original_deleted : Bool

abbrev pub status_eq : BookStatus → BookStatus → Bool
status_eq pending pending = true
status_eq processing processing = true
status_eq BookStatus.indexed BookStatus.indexed = true
status_eq BookStatus.failed BookStatus.failed = true
status_eq reindexing reindexing = true
status_eq deleting deleting = true
status_eq deleted deleted = true
status_eq (BookStatus.unlisted s) (BookStatus.unlisted t) = text_eq s t
status_eq _ _ = false

abbrev pub stage_eq : BookStage → BookStage → Bool
stage_eq queued queued = true
stage_eq extracting extracting = true
stage_eq BookStage.chunks_ready BookStage.chunks_ready = true
stage_eq BookStage.indexed BookStage.indexed = true
stage_eq BookStage.failed BookStage.failed = true
stage_eq (BookStage.unlisted s) (BookStage.unlisted t) = text_eq s t
stage_eq _ _ = false

unfoldable pub category_eq : FailureCategory → FailureCategory → Bool
category_eq encrypted_document encrypted_document = true
category_eq extraction_not_permitted extraction_not_permitted = true
category_eq malformed_document malformed_document = true
category_eq unsupported_document unsupported_document = true
category_eq no_extractable_text no_extractable_text = true
category_eq resource_limit_exceeded resource_limit_exceeded = true
category_eq source_integrity_mismatch source_integrity_mismatch = true
category_eq processing_timeout processing_timeout = true
category_eq dependency_unavailable dependency_unavailable = true
category_eq internal_processing_error internal_processing_error = true
category_eq manifest_integrity manifest_integrity = true
category_eq incompatible_profile incompatible_profile = true
category_eq embedding_unavailable embedding_unavailable = true
category_eq vector_store_unavailable vector_store_unavailable = true
category_eq indexing_timeout indexing_timeout = true
category_eq internal_indexing_error internal_indexing_error = true
category_eq (other s) (other t) = text_eq s t
category_eq _ _ = false

unfoldable pub valid_indexing_failure_category : FailureCategory → Bool
valid_indexing_failure_category manifest_integrity = true
valid_indexing_failure_category incompatible_profile = true
valid_indexing_failure_category embedding_unavailable = true
valid_indexing_failure_category vector_store_unavailable = true
valid_indexing_failure_category resource_limit_exceeded = true
valid_indexing_failure_category indexing_timeout = true
valid_indexing_failure_category internal_indexing_error = true
valid_indexing_failure_category _ = false

unfoldable pub reindexable_failure_category : FailureCategory → Bool
reindexable_failure_category dependency_unavailable = true
reindexable_failure_category processing_timeout = true
reindexable_failure_category resource_limit_exceeded = true
reindexable_failure_category internal_processing_error = true
reindexable_failure_category embedding_unavailable = true
reindexable_failure_category vector_store_unavailable = true
reindexable_failure_category indexing_timeout = true
reindexable_failure_category internal_indexing_error = true
reindexable_failure_category _ = false

unfoldable pub valid_failure_category : FailureCategory → Bool
valid_failure_category encrypted_document = true
valid_failure_category extraction_not_permitted = true
valid_failure_category malformed_document = true
valid_failure_category unsupported_document = true
valid_failure_category no_extractable_text = true
valid_failure_category resource_limit_exceeded = true
valid_failure_category source_integrity_mismatch = true
valid_failure_category processing_timeout = true
valid_failure_category dependency_unavailable = true
valid_failure_category internal_processing_error = true
valid_failure_category _ = false

unfoldable pub detail_rune : ℕ → Bool
detail_rune c =
    (leb b'a' c && leb c b'z') || (leb b'0' c && leb c b'9') || (c == b'_') || (c == b'-')

unfoldable pub valid_failure_detail : Text → Bool
unfolding detail_rune byte_len
valid_failure_detail detail =
    if is_empty detail
    then true
    else if ltb 128 (byte_len detail)
    then false
    else all detail_rune detail

unfoldable pub can_reindex : Book → Bool
can_reindex b =
    if is_empty b.manifest_reference || b.manifest_checksum == 0
    then false
    else if status_eq b.status BookStatus.indexed
    then true
    else status_eq b.status BookStatus.failed && reindexable_failure_category b.failure_category

unfoldable pub valid_transition : BookStatus → BookStatus → Bool
valid_transition current next =
    if status_eq current next
    then false
    else if status_eq next deleting
    then elim current [
      | pending ↦ true
      | processing ↦ true
      | BookStatus.indexed ↦ true
      | BookStatus.failed ↦ true
      | reindexing ↦ true
      | _ ↦ false
    ]
    else elim current [
      | pending ↦ status_eq next processing
      | processing ↦ status_eq next BookStatus.indexed || status_eq next BookStatus.failed
      | BookStatus.indexed ↦ status_eq next reindexing
      | reindexing ↦ status_eq next BookStatus.indexed || status_eq next BookStatus.failed
      | deleting ↦ status_eq next deleted
      | _ ↦ false
    ]

unfoldable pub transition_to : Book → BookStatus → Result BookError Book
unfolding valid_transition
transition_to b next =
    if not (valid_transition b.status next)
    then err invalid_transition
    else ok (record b { status = next })
