-- ===== src/Ingestion/Job/Invariant.antt =====
-- What holds of a processing job between two calls.
use raglibrarian.Base.{
  ℕ, ◌≤◌, ◌≡◌, ◌&&◌, refl, true, false, not, [], arith, ◌==◌, pos, ◌≤ℤ◌, byte_len, is_blank, Text,
  ok,
}
use raglibrarian.Ingestion.Job.{Command, claims, renews, step}
use raglibrarian.Ingestion.JobStates.{
  ProcessingJob, is_processing, is_retrying, is_failed, is_awaiting, is_completed, valid_identifier,
  valid_state, valid_category, new_processing_job,
}

pub valid_identifier-nil : valid_identifier [] ≡ false
unfolding valid_identifier
valid_identifier-nil = refl

pub record WellFormed (j : ProcessingJob) : Type 0 where
  pub named : (valid_identifier j.id ≡ true) × (valid_identifier j.book_id ≡ true)
  pub configured : (is_blank j.config_digest ≡ false) × (byte_len j.config_digest ≤ 128)
  pub listed : valid_state j.state ≡ true
  pub dated : (1 ≤ j.created_at) × (j.created_at ≤ j.updated_at)
  pub counted : pos 0 ≤ℤ j.attempts
  pub started : (is_processing j.state ≡ true) → pos 1 ≤ℤ j.attempts
  pub parked : (is_awaiting j.state ≡ true) → pos 1 ≤ℤ j.attempts
  pub leased :
      (valid_identifier j.lease_owner && not (j.lease_expires_at == 0)) ≡ is_processing j.state
  pub scheduled : (is_retrying j.state ≡ true) → 1 ≤ j.next_attempt_at
  pub explained : valid_category j.failure ≡ is_failed j.state
  pub delivered :
      (is_completed j.state ≡ true) → (is_blank j.manifest_ref ≡ false) × (pos 1 ≤ℤ j.manifest_size)
  pub undelivered :
      (is_completed j.state ≡ false)
      → (j.manifest_ref ≡ []) × (j.manifest_size ≡ pos 0) × (j.manifest_sha256 ≡ 0)

-- A job that the constructor accepts is well formed.
pub new-WellFormed :
    (id book_id : Text) (sum : ℕ) (digest : Text) (now : ℕ) (j : ProcessingJob)
    → new_processing_job id book_id sum digest now ≡ ok j
    → WellFormed j
unfolding new_processing_job valid_state valid_category
new-WellFormed id book_id sum digest now j h = ground (arith, valid_identifier-nil)

-- A renewal is by a positive duration.
abbrev pub Renews : Command → Type 0
Renews (renews owner lease) = pos 1 ≤ℤ lease
Renews _ = Unit

-- An accepted call at an instant not before the job's creation, which is not a renewal by a duration
-- of zero or less, keeps a job well formed.
pub step-WellFormed :
    (j k : ProcessingJob) (now : ℕ) (c : Command)
    → WellFormed j
    → j.created_at ≤ now
    → Renews c
    → step j now c ≡ ok k
    → WellFormed k
unfolding step valid_state valid_category
step-WellFormed j k now (claims owner lease) v t p h = ground (arith, valid_identifier-nil)
step-WellFormed j k now c v t p h = ground (arith, valid_identifier-nil)
