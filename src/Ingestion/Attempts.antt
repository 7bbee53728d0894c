-- ===== src/Ingestion/Attempts.antt =====
-- What becomes of a job after one attempt: `processAccepted` of
-- services/ingestion-service/internal/application/processor.go, behind the work on the source. The
-- clock, the event factory and the repository are arguments.
pub mod Bounded
mod Tests
use raglibrarian.Base.{
  ℕ, Bool, true, false, not, ◌&&◌, List, [], ◌∷◌, ◌==◌, if◌then◌else◌, ℤ, pos, ltb_ℤ, leb_ℤ,
  add_time, Text, Result, ok, err, after,
}
use raglibrarian.Ingestion.Job.{claim, schedule_retry, complete, fail}
use raglibrarian.Ingestion.JobStates.{
  JobError, ProcessingJob, FailureCategory, processing_timeout, resource_limit_exceeded,
  internal_processing_error, dependency_unavailable,
}

-- The errors that `classify` tells apart.
pub data ProcessError : Type 0 where
  chunk_limit_error artifact_limit_error other_error : ProcessError
  extractor_error categorized : FailureCategory → ProcessError

pub record AttemptConfig : Type 0 where
  pub worker_id : Text
  pub maximum_attempts : ℤ
  pub job_lease : ℤ
  pub first_retry_delay : ℤ
  pub second_retry_delay : ℤ
  pub subsequent_retry_delay : ℤ

unfoldable pub permanent_processing_failure : FailureCategory → Bool
permanent_processing_failure dependency_unavailable = false
permanent_processing_failure processing_timeout = false
permanent_processing_failure internal_processing_error = false
permanent_processing_failure _ = true

-- `classify`; the flag says that the deadline has passed.
unfoldable pub classify : Bool → ProcessError → FailureCategory × Bool
classify true e = (processing_timeout, false)
classify false chunk_limit_error = (resource_limit_exceeded, true)
classify false artifact_limit_error = (resource_limit_exceeded, true)
classify false (extractor_error category) = (category, permanent_processing_failure category)
classify false (categorized category) = (category, permanent_processing_failure category)
classify false other_error = (internal_processing_error, false)

abbrev pub equals_ℤ : ℤ → ℤ → Bool
equals_ℤ a b = leb_ℤ a b && leb_ℤ b a

unfoldable pub retry_delay : AttemptConfig → ℤ → ℤ
retry_delay config attempt =
    if equals_ℤ attempt (pos 1)
    then config.first_retry_delay
    else if equals_ℤ attempt (pos 2)
    then config.second_retry_delay
    else config.subsequent_retry_delay

-- What `processClaimed` gives.
pub data Processed : Type 0 where
  produced : Text → ℕ → ℤ → Processed
  process_failed : Bool → ProcessError → Processed

-- The world of one attempt: whether the events can be made and the job can be stored, and the clock
-- as it is read for the time of a retry, and then for the job.
pub record Attempt : Type 0 where
  pub result : Processed
  pub ready_event : Bool
  pub failed_event : Bool
  pub stored : Bool
  pub read_at : ℕ
  pub settled_at : ℕ

pub data AttemptError : Type 0 where
  event_error store_error : AttemptError
  job_error : JobError → AttemptError

-- A changed job is stored.
unfoldable pub store_job : Bool → Result JobError ProcessingJob → Result AttemptError ProcessingJob
store_job stored (err e) = err (job_error e)
store_job stored (ok j) = if stored then ok j else err store_error

unfoldable pub persist_failure :
    AttemptConfig → ProcessingJob → Attempt → FailureCategory → Result AttemptError ProcessingJob
persist_failure config j a category =
    if not a.failed_event
    then err event_error
    else store_job a.stored (fail j config.worker_id category a.settled_at)

unfoldable pub process_accepted :
    AttemptConfig → ProcessingJob → Attempt → Result AttemptError ProcessingJob
process_accepted config j a = elim a.result [
  | produced reference digest size ↦
      if not a.ready_event
      then persist_failure config j a internal_processing_error
      else store_job a.stored (complete j config.worker_id reference digest size a.settled_at)
  | process_failed expired e ↦
      let (category, permanent) = classify expired e in
      if not permanent && ltb_ℤ j.attempts config.maximum_attempts
      then store_job a.stored (
          schedule_retry j config.worker_id (add_time a.read_at (retry_delay config j.attempts))
            a.settled_at)
      else persist_failure config j a category
]

-- An attempt: the claim of the job at an instant, and what follows. An error leaves the stored job as
-- the claim left it.
unfoldable pub attempt_job : AttemptConfig → ProcessingJob → ℕ → Attempt → ProcessingJob
attempt_job config j at a = elim (claim j config.worker_id at config.job_lease) [
  | err e ↦ j
  | ok claimed ↦ after claimed (process_accepted config claimed a)
]

unfoldable pub attempt_all : AttemptConfig → ProcessingJob → List (ℕ × Attempt) → ProcessingJob
attempt_all config j [] = j
attempt_all config j ((at, a) ∷ rest) = attempt_all config (attempt_job config j at a) rest
