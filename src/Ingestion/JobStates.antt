-- ===== src/Ingestion/JobStates.antt =====
-- The states of a job in services/ingestion-service/internal/domain/job.go, and how a job is made and
-- read back.
use raglibrarian.Base.{
  ℕ, Bool, true, false, not, ◌&&◌, ◌||◌, [], leb, ltb, ◌==◌, bool_ne, all, is_empty, ℤ, pos, ltb_ℤ,
  leb_ℤ, Text, byte_len, trim_space, is_blank, Result, ok, ◌>>◌, refuse_if,
}

pub data JobError : Type 0 where
  invalid_job lease_not_owned terminal_job : JobError

pub data JobState : Type 0 where
  queued awaiting_selection processing retrying completed failed : JobState
  unlisted : Text → JobState

pub data FailureCategory : Type 0 where
  encrypted_document extraction_not_permitted malformed_document : FailureCategory
  unsupported_document no_extractable_text resource_limit_exceeded : FailureCategory
  source_integrity_mismatch processing_timeout dependency_unavailable : FailureCategory
  internal_processing_error : FailureCategory
  other_category : Text → FailureCategory

-- `FailureCategory.Valid`
unfoldable pub valid_category : FailureCategory → Bool
valid_category encrypted_document = true
valid_category (other_category _) = false
valid_category _ = true

-- `JobState.Valid`
unfoldable pub valid_state : JobState → Bool
valid_state queued = true
valid_state (unlisted _) = false
valid_state _ = true

abbrev pub is_processing : JobState → Bool
is_processing processing = true
is_processing _ = false

abbrev pub is_retrying : JobState → Bool
is_retrying retrying = true
is_retrying _ = false

abbrev pub is_failed : JobState → Bool
is_failed failed = true
is_failed _ = false

abbrev pub is_awaiting : JobState → Bool
is_awaiting awaiting_selection = true
is_awaiting _ = false

abbrev pub is_completed : JobState → Bool
is_completed completed = true
is_completed _ = false

pub record ProcessingJob : Type 0 where
  pub id : Text
  pub book_id : Text
  pub source_sha256 : ℕ
  pub config_digest : Text
  pub state : JobState
  pub attempts : ℤ
  pub lease_owner : Text
  pub lease_expires_at : ℕ
  pub next_attempt_at : ℕ
  pub failure : FailureCategory
  pub manifest_ref : Text
  pub manifest_sha256 : ℕ
  pub manifest_size : ℤ
  pub created_at : ℕ
  pub updated_at : ℕ

-- '/' and '\' are 0x2f and 0x5c.
unfoldable pub identifier_rune : ℕ → Bool
identifier_rune char = not (leb char 0x20 || char == 0x2f || char == 0x5c)

unfoldable pub valid_identifier : Text → Bool
unfolding trim_space byte_len identifier_rune
valid_identifier value =
    let trimmed = trim_space value in
    not (is_empty trimmed) && leb (byte_len trimmed) 128 && all identifier_rune trimmed

unfoldable pub new_processing_job : Text → Text → ℕ → Text → ℕ → Result JobError ProcessingJob
new_processing_job id book_id source_sha256 config_digest now = do
  refuse_if
      (not (valid_identifier id)
        || not (valid_identifier book_id)
        || is_blank config_digest
        || ltb 128 (byte_len config_digest)
        || now == 0)
      invalid_job
  ok (record {
    id = id;
    book_id = book_id;
    source_sha256 = source_sha256;
    config_digest = config_digest;
    state = queued;
    attempts = pos 0;
    lease_owner = [];
    lease_expires_at = 0;
    next_attempt_at = 0;
    failure = other_category [];
    manifest_ref = [];
    manifest_sha256 = 0;
    manifest_size = pos 0;
    created_at = now;
    updated_at = now;
  })

-- `RestoreProcessingJob`; its parameters are the fields of `job`.
unfoldable pub restore_processing_job : ProcessingJob → Result JobError ProcessingJob
restore_processing_job job = do
  refuse_if
      (not (valid_identifier job.id)
        || not (valid_identifier job.book_id)
        || is_blank job.config_digest
        || ltb 128 (byte_len job.config_digest)
        || ltb_ℤ job.attempts (pos 0)
        || job.created_at == 0
        || job.updated_at == 0
        || ltb job.updated_at job.created_at
        || not (valid_state job.state))
      invalid_job
  refuse_if
      (bool_ne (is_processing job.state)
          (valid_identifier job.lease_owner && not (job.lease_expires_at == 0))
        || bool_ne (is_retrying job.state) (not (job.next_attempt_at == 0))
        || bool_ne (is_failed job.state) (valid_category job.failure))
      invalid_job
  refuse_if (is_awaiting job.state && ltb_ℤ job.attempts (pos 1)) invalid_job
  refuse_if
      (is_completed job.state && (is_blank job.manifest_ref || ltb_ℤ job.manifest_size (pos 1)))
      invalid_job
  refuse_if
      (not (is_completed job.state)
        && (not (is_empty job.manifest_ref)
            || not (is_zero job.manifest_size)
            || not (job.manifest_sha256 == 0)))
      invalid_job
  ok job
  where
    is_zero : ℤ → Bool
    is_zero n = leb_ℤ n (pos 0) && leb_ℤ (pos 0) n
