-- ===== src/Ingestion/Job.antt =====
-- services/ingestion-service/internal/domain/job.go. An instant is the number of nanoseconds since
-- the zero time, a [32]byte digest is the number that its bytes spell (0 for the zero array), and
-- a method that returns an error returns it before it writes a field.
pub mod Lease
pub mod Invariant
pub mod Storage
mod Tests
use raglibrarian.Base.{
  ℕ, ◌+◌, Bool, true, false, not, ◌&&◌, ◌||◌, List, [], ◌∷◌, leb, ltb, ◌==◌, bool_ne, if◌then◌else◌,
  all, is_empty, ℤ, pos, ltb_ℤ, leb_ℤ, increment, add_time, Text, text_eq, byte_len, trim_space,
  is_blank, Result, ok, err, ◌>>=◌, ◌>>◌, refuse_if, after,
}
use raglibrarian.Ingestion.JobStates.{
  FailureCategory, JobError, ProcessingJob, awaiting_selection, completed, failed, invalid_job,
  is_awaiting, is_completed, is_failed, is_processing, lease_not_owned, processing, retrying,
  terminal_job, valid_category, valid_identifier,
}

abbrev pub terminal : ProcessingJob → Bool
terminal j = is_completed j.state || is_failed j.state

unfoldable pub require_owner : ProcessingJob → Text → ℕ → Result JobError (Unit {0})
require_owner j owner now = do
  refuse_if (terminal j) terminal_job
  refuse_if
      (not (is_processing j.state)
        || not (text_eq owner j.lease_owner)
        || not (ltb now j.lease_expires_at))
      lease_not_owned
  ok tt

-- The fields that `clearLease` resets.
unfoldable pub clear_lease : ProcessingJob → ProcessingJob
clear_lease j = record j { lease_owner = []; lease_expires_at = 0 }

unfoldable pub claim : ProcessingJob → Text → ℕ → ℤ → Result JobError ProcessingJob
claim j owner now lease = do
  refuse_if (terminal j) terminal_job
  refuse_if (is_awaiting j.state) invalid_job
  refuse_if (not (valid_identifier owner) || now == 0 || leb_ℤ lease (pos 0)) invalid_job
  refuse_if
      (is_processing j.state && ltb now j.lease_expires_at && not (text_eq owner j.lease_owner))
      lease_not_owned
  ok (record j {
    state = processing;
    attempts = increment j.attempts;
    lease_owner = owner;
    lease_expires_at = add_time now lease;
    updated_at = now;
  })

unfoldable pub await_content_selection : ProcessingJob → Text → ℕ → Result JobError ProcessingJob
unfolding require_owner clear_lease
await_content_selection j owner now = do
  require_owner j owner now
  let k = clear_lease (record j { state = awaiting_selection })
  ok (record k { updated_at = now })

unfoldable pub resume_after_content_selection :
    ProcessingJob → Text → ℕ → ℤ → Result JobError ProcessingJob
resume_after_content_selection j owner now lease = do
  refuse_if
      (not (is_awaiting j.state) || not (valid_identifier owner) || now == 0 || leb_ℤ lease (pos 0))
      invalid_job
  ok (record j {
    state = processing;
    lease_owner = owner;
    lease_expires_at = add_time now lease;
    updated_at = now;
  })

unfoldable pub reclaim_after_content_selection_timeout :
    ProcessingJob → Text → ℕ → ℤ → Result JobError ProcessingJob
reclaim_after_content_selection_timeout j owner now lease = do
  refuse_if
      (not (is_awaiting j.state) || not (valid_identifier owner) || now == 0 || leb_ℤ lease (pos 0))
      invalid_job
  ok (record j {
    state = processing;
    attempts = increment j.attempts;
    lease_owner = owner;
    lease_expires_at = add_time now lease;
    updated_at = now;
  })

unfoldable pub renew_lease : ProcessingJob → Text → ℕ → ℤ → Result JobError ProcessingJob
renew_lease j owner now lease = do
  refuse_if
      (not (is_processing j.state)
        || not (text_eq j.lease_owner owner)
        || not (ltb now j.lease_expires_at))
      lease_not_owned
  ok (record j { lease_expires_at = add_time now lease; updated_at = now })

unfoldable pub schedule_retry : ProcessingJob → Text → ℕ → ℕ → Result JobError ProcessingJob
unfolding require_owner clear_lease
schedule_retry j owner next_attempt_at now = do
  require_owner j owner now
  refuse_if (not (ltb now next_attempt_at)) invalid_job
  let k = clear_lease (record j { state = retrying; next_attempt_at = next_attempt_at })
  ok (record k { updated_at = now })

unfoldable pub complete : ProcessingJob → Text → Text → ℕ → ℤ → ℕ → Result JobError ProcessingJob
unfolding require_owner clear_lease
complete j owner manifest_ref manifest_sha256 manifest_size now = do
  require_owner j owner now
  refuse_if
      (is_blank manifest_ref || ltb 1024 (byte_len manifest_ref) || ltb_ℤ manifest_size (pos 1))
      invalid_job
  let k = record j {
    state = completed;
    manifest_ref = manifest_ref;
    manifest_sha256 = manifest_sha256;
    manifest_size = manifest_size;
  }
  let l = clear_lease k
  ok (record l { updated_at = now })

unfoldable pub fail : ProcessingJob → Text → FailureCategory → ℕ → Result JobError ProcessingJob
unfolding require_owner clear_lease valid_category
fail j owner category now = do
  require_owner j owner now
  refuse_if (not (valid_category category)) invalid_job
  let k = clear_lease (record j { state = failed; failure = category })
  ok (record k { updated_at = now })

-- The calls that change a job.
pub data Command : Type 0 where
  claims : Text → ℤ → Command
  awaits : Text → Command
  resumes : Text → ℤ → Command
  reclaims : Text → ℤ → Command
  renews : Text → ℤ → Command
  retries : Text → ℕ → Command
  completes : Text → Text → ℕ → ℤ → Command
  fails : Text → FailureCategory → Command

-- One call at the instant `now`.
unfoldable pub step : ProcessingJob → ℕ → Command → Result JobError ProcessingJob
unfolding claim await_content_selection resume_after_content_selection
    reclaim_after_content_selection_timeout renew_lease schedule_retry complete fail
step j now (claims owner lease) = claim j owner now lease
step j now (awaits owner) = await_content_selection j owner now
step j now (resumes owner lease) = resume_after_content_selection j owner now lease
step j now (reclaims owner lease) = reclaim_after_content_selection_timeout j owner now lease
step j now (renews owner lease) = renew_lease j owner now lease
step j now (retries owner next) = schedule_retry j owner next now
step j now (completes owner ref sum size) = complete j owner ref sum size now
step j now (fails owner category) = fail j owner category now

-- Who calls.
unfoldable pub caller : Command → Text
caller (claims owner _) = owner
caller (awaits owner) = owner
caller (resumes owner _) = owner
caller (reclaims owner _) = owner
caller (renews owner _) = owner
caller (retries owner _) = owner
caller (completes owner _ _ _) = owner
caller (fails owner _) = owner

-- A history of calls; a call that fails leaves the job as it was.
unfoldable pub run : ProcessingJob → List (ℕ × Command) → ProcessingJob
run j [] = j
run j ((now, c) ∷ cs) = run (after j (step j now c)) cs
