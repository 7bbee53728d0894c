-- ===== src/Ingestion/Job/Tests.antt =====
-- Lives of a processing job.
use raglibrarian.Base.{
  ◌≡◌, refl, List, [], ◌∷◌, arith, ℕ, pos, literal, ok, err, after, increment, text_eq, is_blank,
  byte_len,
}
use raglibrarian.Ingestion.Job.{Command, claims, retries, completes, claim, step, run, caller}
use raglibrarian.Ingestion.JobStates.{
  ProcessingJob, queued, processing, retrying, completed, other_category, invalid_job,
  lease_not_owned, new_processing_job, restore_processing_job, valid_identifier, valid_state,
  valid_category,
}
use raglibrarian.Ingestion.Job.Lease.{Moves, step-lease_exclusive, step-Moves}
use raglibrarian.Ingestion.Job.Invariant.{WellFormed, new-WellFormed, step-WellFormed}
use raglibrarian.Ingestion.Job.Storage.{row, restore-run, claim-restore_refused}

program : Unit {0}
unfolding new_processing_job step claim valid_identifier text_eq is_blank byte_len
program = tt

abbrev fresh : ProcessingJob
fresh = record {
  id = literal "job-1";
  book_id = literal "book-1";
  source_sha256 = 7;
  config_digest = literal "d1";
  state = queued;
  attempts = pos 0;
  lease_owner = [];
  lease_expires_at = 0;
  next_attempt_at = 0;
  failure = other_category [];
  manifest_ref = [];
  manifest_sha256 = 0;
  manifest_size = pos 0;
  created_at = 100;
  updated_at = 100;
}

abbrev claimed : ProcessingJob
claimed = record fresh {
  state = processing;
  attempts = pos 1;
  lease_owner = literal "w1";
  lease_expires_at = 160;
  updated_at = 110;
}

abbrev done : ProcessingJob
done = record claimed {
  state = completed;
  lease_owner = [];
  lease_expires_at = 0;
  manifest_ref = literal "m";
  manifest_sha256 = 9;
  manifest_size = pos 5;
  updated_at = 120;
}

new_runs : new_processing_job (literal "job-1") (literal "book-1") 7 (literal "d1") 100 ≡ ok fresh
unfolding program
new_runs = refl

slash_refused :
    new_processing_job (literal "a/b") (literal "book-1") 7 (literal "d1") 100 ≡ err invalid_job
unfolding program
slash_refused = refl

claim_runs : step fresh 110 (claims (literal "w1") (pos 50)) ≡ ok claimed
unfolding program
claim_runs = refl

complete_runs : step claimed 120 (completes (literal "w1") (literal "m") 9 (pos 5)) ≡ ok done
unfolding program
complete_runs = refl

late_refused :
    step claimed 160 (completes (literal "w1") (literal "m") 9 (pos 5)) ≡ err lease_not_owned
unfolding program
late_refused = refl

new-WellFormed_example : WellFormed fresh
new-WellFormed_example =
    new-WellFormed (literal "job-1") (literal "book-1") 7 (literal "d1") 100 fresh new_runs

step-WellFormed_example : WellFormed claimed
step-WellFormed_example =
    step-WellFormed fresh claimed 110 (claims (literal "w1") (pos 50)) new-WellFormed_example
      (omega arith) tt claim_runs

step-lease_exclusive_example :
    after claimed (step claimed 130 (claims (literal "w2") (pos 50))) ≡ claimed
unfolding caller
step-lease_exclusive_example =
    step-lease_exclusive claimed 130 (claims (literal "w2") (pos 50)) refl (omega arith)
      (λ e. ground arith)

step-Moves_example :
    Moves (claims (literal "w1") (pos 50)) queued (pos 0) processing (increment (pos 0))
unfolding valid_state
step-Moves_example = step-Moves fresh claimed 110 (claims (literal "w1") (pos 50)) refl claim_runs

abbrev history : List (ℕ × Command)
history =
    (110, claims (literal "w1") (pos 50))
    ∷ (120, retries (literal "w1") 300)
    ∷ (310, claims (literal "w2") (pos 50))
    ∷ []

restore-run_example :
    restore_processing_job (row (run fresh history)) ≡ ok (row (run fresh history))
restore-run_example = restore-run fresh history new-WellFormed_example (omega arith)

abbrev waiting : ProcessingJob
waiting = record fresh {
  state = retrying;
  attempts = pos 1;
  next_attempt_at = 300;
  updated_at = 120;
}

abbrev retried : ProcessingJob
retried = record waiting {
  state = processing;
  attempts = pos 2;
  lease_owner = literal "w2";
  lease_expires_at = 360;
  updated_at = 310;
}

waiting-WellFormed : WellFormed waiting
unfolding valid_state valid_category valid_identifier
waiting-WellFormed = ground (arith, new-WellFormed_example)

claim-restore_refused_example : restore_processing_job retried ≡ err invalid_job
unfolding program
claim-restore_refused_example =
    claim-restore_refused waiting retried (literal "w2") 310 (pos 50) waiting-WellFormed refl refl
