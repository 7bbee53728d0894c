-- ===== src/Retrieval/IndexJob/Tests.antt =====
-- A job of two batches.
use raglibrarian.Base.{
  ℕ, ◌≡◌, ◌↔◌, ◌+◌, ◌≤◌, refl, List, [], ◌∷◌, map, arith, Text, literal, member, text_eq, true, ok,
  err,
}
use raglibrarian.Retrieval.IndexJob.{
  IndexJob, Event, fails, pending, indexed, valid_identifier, valid_failure, failure_categories,
  identifier_character, new_index_job, complete_batch, complete_pending, record_batch, fail, step,
  run, terminal_index_job,
}
use raglibrarian.Retrieval.IndexJob.History.{WellFormed, ended, new-WellFormed}
use raglibrarian.Retrieval.IndexJob.Batches.{deliver, unseen, deliver-indexed}

program : Unit {0}
unfolding new_index_job valid_identifier identifier_character valid_failure failure_categories
    complete_batch complete_pending record_batch fail step run member text_eq ended unseen
program = tt

abbrev job : IndexJob
job = record {
  id = literal "j";
  book_id = literal "b";
  source_sha256 = 1;
  manifest_sha256 = 2;
  profile = literal "p";
  expected_batches = 2;
  completed_batch_ids = [];
  state = pending;
  failure = [];
  created_at = 5;
  updated_at = 5;
}

job_made : new_index_job (literal "j") (literal "b") 1 2 (literal "p") 2 5 ≡ ok job
unfolding program
job_made = refl

job-WellFormed : WellFormed job
job-WellFormed = (new-WellFormed (literal "j") (literal "b") 1 2 (literal "p") 2 5 job job_made).0

abbrev deliveries : List (Text × ℕ)
deliveries = (literal "y", 6) ∷ (literal "y", 7) ∷ (literal "x", 8) ∷ []

abbrev events : List Event
events = map deliver deliveries

abbrev done : IndexJob
done = (run job events).0

one_report : (run job (fails (literal "indexing_timeout") 0 ∷ events)).1 ≡ 1
unfolding program
one_report = refl

done-ended : ended done.state ≡ 1
unfolding program
done-ended = refl

failed_late : fail done (literal "indexing_timeout") 9 ≡ (done, err terminal_index_job)
unfolding program
failed_late = refl

deliveries-Delivery :
    (valid_identifier (literal "y") ≡ true) × (valid_identifier (literal "x") ≡ true)
unfolding program
deliveries-Delivery = (refl, refl)

deliver-indexed_example : (done.state ≡ indexed) ↔ (2 ≤ 0 + unseen [] deliveries)
deliver-indexed_example = deliver-indexed job deliveries job-WellFormed refl (
  (deliveries-Delivery.0, omega arith),
  ((deliveries-Delivery.0, omega arith), ((deliveries-Delivery.1, omega arith), tt)),
)
