-- ===== src/Ingestion/Chunk.antt =====
-- services/ingestion-service/internal/domain/chunk.go. SHA-256 is a parameter.
use raglibrarian.Base.{
  ℕ, not, ◌||◌, leb, ltb, ◌==◌, if◌then◌else◌, is_empty, Text, byte_len, trim_space, Result, ok,
  err,
}
use raglibrarian.Ingestion.JobStates.{valid_identifier}

pub record Chunk : Type 0 where
  pub id : Text
  pub book_id : Text
  pub order : ℕ
  pub text : Text
  pub content_sha256 : ℕ
  pub chapter : Text
  pub section : Text
  pub page_start : ℕ
  pub page_end : ℕ
  pub token_start : ℕ
  pub token_end : ℕ

pub record ChunkInput : Type 0 where
  pub id : Text
  pub book_id : Text
  pub text : Text
  pub chapter : Text
  pub section : Text
  pub order : ℕ
  pub token_start : ℕ
  pub token_end : ℕ
  pub page_start : ℕ
  pub page_end : ℕ

pub data ChunkError : Type 0 where
  invalid_policy invalid_page already_finished invalid_boundary invalid_window : ChunkError
  empty_chunk chunk_limit invalid_chunk : ChunkError
  -- An index out of range, and a loop that runs out of fuel.
  panics out_of_fuel : ChunkError

unfoldable pub new_chunk : (Text → ℕ) → ChunkInput → Result ChunkError Chunk
new_chunk sha256 input =
    let text = trim_space input.text in
    if not (valid_identifier input.id)
      || not (valid_identifier input.book_id)
      || is_empty text
      || input.page_start == 0
      || ltb input.page_end input.page_start
      || leb input.token_end input.token_start
      || ltb 512 (byte_len input.chapter)
      || ltb 512 (byte_len input.section)
    then err invalid_chunk
    else ok (record {
      id = input.id;
      book_id = input.book_id;
      order = input.order;
      text = text;
      content_sha256 = sha256 text;
      chapter = input.chapter;
      section = input.section;
      page_start = input.page_start;
      page_end = input.page_end;
      token_start = input.token_start;
      token_end = input.token_end;
    })
