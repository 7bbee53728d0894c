-- ===== src/Ingestion/Job/Lease.antt =====
-- Who may change a job, and which jobs may be changed.
use raglibrarian.Base.{
  ℕ, ◌<◌, ◌≡◌, ◌≢◌, true, List, [], ◌∷◌, refl, arith, ℤ, increment, text_eq-false, text_eq_comm, ok,
  after, Text,
}
use raglibrarian.Ingestion.Job.{
  Command, claims, awaits, resumes, reclaims, renews, retries, completes, fails, terminal, caller,
  step, run,
}
use raglibrarian.Ingestion.JobStates.{
  ProcessingJob, JobState, queued, awaiting_selection, processing, retrying, completed, failed,
  valid_state, FailureCategory,
}

-- While a lease runs, a call by anybody but its owner fails, and so leaves the job as it was.
pub step-lease_exclusive :
    (j : ProcessingJob) (now : ℕ) (c : Command)
    → j.state ≡ processing
    → now < j.lease_expires_at
    → caller c ≢ j.lease_owner
    → after j (step j now c) ≡ j
unfolding step caller
step-lease_exclusive j now (claims owner lease) s t o =
    ground (arith, text_eq-false owner j.lease_owner)
step-lease_exclusive j now (renews owner lease) s t o =
    ground (arith, text_eq-false owner j.lease_owner, text_eq_comm owner j.lease_owner)
step-lease_exclusive j now c s t o = ground (arith, text_eq-false (caller c) j.lease_owner)

step-terminal :
    (j : ProcessingJob) (now : ℕ) (c : Command) → terminal j ≡ true → after j (step j now c) ≡ j
unfolding step
step-terminal j now (claims owner lease) t = ground arith
step-terminal j now c t = ground arith

-- A completed or failed job stays as it is through any history of calls.
pub run-terminal : (j : ProcessingJob) (cs : List (ℕ × Command)) → terminal j ≡ true → run j cs ≡ j
unfolding run
run-terminal j [] t = refl
run-terminal j ((now, c) ∷ cs) t = ground (arith, step-terminal j now c t, run-terminal j cs t)

-- The diagram of the states: how each call, once accepted, may move a job, and what it does to the
-- number of attempts.
pub data Moves : Command → JobState → ℤ → JobState → ℤ → Type 0 where
  starts : {o : Text} {l n : ℤ} → Moves (claims o l) queued n processing (increment n)
  restarts : {o : Text} {l n : ℤ} → Moves (claims o l) retrying n processing (increment n)
  takes_over : {o : Text} {l n : ℤ} → Moves (claims o l) processing n processing (increment n)
  keeps : {o : Text} {l n : ℤ} → Moves (renews o l) processing n processing n
  parks : {o : Text} {n : ℤ} → Moves (awaits o) processing n awaiting_selection n
  continues : {o : Text} {l n : ℤ} → Moves (resumes o l) awaiting_selection n processing n
  gives_up_wait :
      {o : Text} {l n : ℤ} → Moves (reclaims o l) awaiting_selection n processing (increment n)
  backs_off : {o : Text} {t : ℕ} {n : ℤ} → Moves (retries o t) processing n retrying n
  finishes :
      {o r : Text} {h : ℕ} {size n : ℤ} → Moves (completes o r h size) processing n completed n
  breaks : {o : Text} {c : FailureCategory} {n : ℤ} → Moves (fails o c) processing n failed n

ruleset moves = (
  starts, restarts, takes_over, keeps, parks, continues, gives_up_wait, backs_off, finishes, breaks,
)

-- An accepted call on a job in a listed state follows an arrow of the diagram that is its own: a claim
-- and the end of a wait count one attempt more, every other call leaves their number.
pub step-Moves :
    (j k : ProcessingJob) (now : ℕ) (c : Command)
    → valid_state j.state ≡ true
    → step j now c ≡ ok k
    → Moves c j.state j.attempts k.state k.attempts
unfolding step valid_state
step-Moves j k now (claims owner lease) v h = grind (arith, moves)
step-Moves j k now c v h = grind (arith, moves)
