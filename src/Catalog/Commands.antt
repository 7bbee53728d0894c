-- ===== src/Catalog/Commands.antt =====
-- The lifecycle commands of services/catalog-service/repository/postgres_book_repository.go, and the
-- checks of metadata and of actors in services/catalog-service/internal/catalog/domain.go.
use raglibrarian.Base.{
  ℕ, ◌+◌, Bool, false, not, ◌&&◌, ◌||◌, List, [], ◌∷◌, ltb, if◌then◌else◌, is_empty, length, pos,
  ltb_ℤ, Text, literal, text_eq, byte_len, is_blank, Result, ok, err,
}
use raglibrarian.Catalog.Status.{
  Book, BookError, BookMetadata, BookStage, can_reindex, deleted, deleting, invalid_command,
  invalid_metadata, invalid_transition, not_found, reindexing, status_eq, transition_to,
}
use raglibrarian.Catalog.Book.{no_category}

pub data CommandKind : Type 0 where
  reindex delete : CommandKind
  unknown_command : Text → CommandKind

-- The switch on the kind of the command.
unfoldable pub change_status : CommandKind → Book → Result BookError Book
unfolding transition_to can_reindex
change_status reindex b =
    if not (can_reindex b)
    then err invalid_transition
    else ok (record b {
      status = reindexing;
      stage = BookStage.chunks_ready;
      failure_category = no_category;
    })
change_status delete b = elim (transition_to b deleting) [
  | ok c ↦
      ok (record c { original_deleted = false; artifacts_deleted = false; index_deleted = false })
  | err e ↦ err e
]
change_status (unknown_command _) b = err invalid_command

-- What a lifecycle command that was not seen before does to the book that it names.
unfoldable pub apply_lifecycle_command : Book → CommandKind → Text → ℕ → Result BookError Book
unfolding change_status
apply_lifecycle_command b kind command_id occurred_at =
    if status_eq b.status deleted then err not_found else elim (change_status kind b) [
      | err e ↦ err e
      | ok c ↦ ok (record c {
        lifecycle_version = c.lifecycle_version + 1;
        version = c.version + 1;
        updated_at = occurred_at;
        delete_command_id = command_id;
      })
    ]

abbrev pub max_title_length : ℕ
max_title_length = 256

abbrev pub max_author_length : ℕ
max_author_length = 256

abbrev pub max_tags : ℕ
max_tags = 20

abbrev pub max_tag_length : ℕ
max_tag_length = 64

-- The loop over the tags.
unfoldable pub validate_tags : List Text → Result BookError (Unit {0})
validate_tags [] = ok tt
validate_tags (tag ∷ tags) =
    let rest = validate_tags tags in
    if is_blank tag || ltb max_tag_length (byte_len tag) then err invalid_metadata else rest

-- `validateMetadataAt`, where `year` is the year of `now`.
unfoldable pub validate_metadata_at : BookMetadata → ℕ → Result BookError (Unit {0})
unfolding validate_tags
validate_metadata_at m year =
    if is_blank m.title
      || ltb max_title_length (byte_len m.title)
      || is_blank m.author
      || ltb max_author_length (byte_len m.author)
      || ltb_ℤ m.year (pos 0)
      || ltb_ℤ (pos (year + 1)) m.year
      || ltb max_tags (length m.tags)
    then err invalid_metadata
    else validate_tags m.tags

pub record Actor : Type 0 where
  pub user_id : Text
  pub role : Text
  pub status : Text
  pub masked_email : Text

unfoldable pub can_read : Actor → Bool
can_read a =
    if not (text_eq a.status (literal "active")) || is_empty a.user_id
    then false
    else text_eq a.role (literal "reader")
      || text_eq a.role (literal "librarian")
      || text_eq a.role (literal "admin")

unfoldable pub can_upload : Actor → Bool
can_upload a =
    text_eq a.status (literal "active")
    && not (is_empty a.user_id)
    && (text_eq a.role (literal "librarian") || text_eq a.role (literal "admin"))

unfoldable pub can_manage : Actor → Bool
can_manage a = can_upload a
