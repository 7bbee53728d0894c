-- ===== src/Ingestion/Job/Storage.antt =====
-- Jobs that are written to the repository and read back by `RestoreProcessingJob`. The repository
-- (internal/repository/postgres.go) writes NULL for the next attempt when it claims a job.
use raglibrarian.Base.{
  ℕ, ◌≤◌, ◌≡◌, List, [], ◌∷◌, arith, if◌then◌else◌, inl, inr, ok, err, after, Result-cases, All,
  Text, ℤ,
}
use raglibrarian.Ingestion.Job.{Command, claims, claim, step, run}
use raglibrarian.Ingestion.JobStates.{
  ProcessingJob, retrying, is_retrying, restore_processing_job, invalid_job,
}
use raglibrarian.Ingestion.Job.Invariant.{WellFormed, Renews, step-WellFormed}

-- What the repository keeps of a job.
pub row : ProcessingJob → ProcessingJob
row j = record j { next_attempt_at = if is_retrying j.state then j.next_attempt_at else 0 }

-- A well-formed job is read back from its row unchanged.
pub restore-row : (j : ProcessingJob) → WellFormed j → restore_processing_job (row j) ≡ ok (row j)
unfolding restore_processing_job row
restore-row j v = ground arith

step_created :
    (j : ProcessingJob) (now : ℕ) (c : Command) → (after j (step j now c)).created_at ≡ j.created_at
unfolding step
step_created j now (claims owner lease) = ground arith
step_created j now c = ground arith

-- Calls at instants that are not before the job's creation.
abbrev pub Timely : ℕ → List (ℕ × Command) → Type 0
Timely created = All (λ e. (created ≤ e.0) × Renews e.1)

after-WellFormed :
    (j : ProcessingJob) (now : ℕ) (c : Command)
    → WellFormed j
    → j.created_at ≤ now
    → Renews c
    → WellFormed (after j (step j now c))
after-WellFormed j now c v t p = elim (Result-cases (step j now c)) [
  | inl (k, e) ↦ rw e (step-WellFormed j k now c v t p e)
  | inr (x, e) ↦ rw e v
]

pub run-WellFormed :
    (j : ProcessingJob) (cs : List (ℕ × Command))
    → WellFormed j
    → Timely j.created_at cs
    → WellFormed (run j cs)
unfolding run
run-WellFormed j [] v t = v
run-WellFormed j ((now, c) ∷ cs) v t =
    run-WellFormed (after j (step j now c)) cs (after-WellFormed j now c v t.0.0 t.0.1)
      (rw (step_created j now c) t.1)

-- After any history of calls the job's row is read back unchanged.
pub restore-run :
    (j : ProcessingJob) (cs : List (ℕ × Command))
    → WellFormed j
    → Timely j.created_at cs
    → restore_processing_job (row (run j cs)) ≡ ok (row (run j cs))
restore-run j cs v t = restore-row (run j cs) (run-WellFormed j cs v t)

-- A retrying job that is claimed keeps the time of its next attempt, and the restore function
-- refuses the claimed job as it stands.
pub claim-restore_refused :
    (j k : ProcessingJob) (owner : Text) (now : ℕ) (lease : ℤ)
    → WellFormed j
    → j.state ≡ retrying
    → claim j owner now lease ≡ ok k
    → restore_processing_job k ≡ err invalid_job
unfolding claim restore_processing_job
claim-restore_refused j k owner now lease v s h = ground arith
