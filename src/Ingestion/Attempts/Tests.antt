-- ===== src/Ingestion/Attempts/Tests.antt =====
-- A job whose source cannot be reached, with two attempts at most.
use raglibrarian.Base.{
  ℕ, ◌≡◌, ◌<◌, refl, true, false, [], ◌∷◌, arith, ℤ, pos, leb_ℤ, add_time, literal, text_eq,
}
use raglibrarian.Ingestion.Job.{require_owner, clear_lease, claim, schedule_retry, complete, fail}
use raglibrarian.Ingestion.JobStates.{
  ProcessingJob, FailureCategory, queued, failed, dependency_unavailable, valid_category,
  valid_identifier, identifier_rune,
}
use raglibrarian.Ingestion.Attempts.{
  AttemptConfig, Attempt, process_failed, categorized, permanent_processing_failure, classify,
  retry_delay, store_job, persist_failure, process_accepted, attempt_job, attempt_all,
}
use raglibrarian.Ingestion.Attempts.Bounded.{IsConfigured, Fails, attempt_all-state}

program : Unit {0}
unfolding text_eq valid_category valid_identifier identifier_rune require_owner clear_lease claim
    schedule_retry complete fail permanent_processing_failure classify retry_delay store_job
    persist_failure process_accepted attempt_job attempt_all
program = tt

abbrev config : AttemptConfig
config = record {
  worker_id = literal "w";
  maximum_attempts = pos 2;
  job_lease = pos 100;
  first_retry_delay = pos 10;
  second_retry_delay = pos 20;
  subsequent_retry_delay = pos 30;
}

abbrev job : ProcessingJob
job = record {
  id = literal "j";
  book_id = literal "b";
  source_sha256 = 1;
  config_digest = literal "c";
  state = queued;
  attempts = pos 0;
  lease_owner = [];
  lease_expires_at = 0;
  next_attempt_at = 0;
  failure = FailureCategory.other_category [];
  manifest_ref = [];
  manifest_sha256 = 0;
  manifest_size = pos 0;
  created_at = 1;
  updated_at = 1;
}

abbrev failing : ℕ → Attempt
failing t = record {
  result = process_failed false (categorized dependency_unavailable);
  ready_event = true;
  failed_event = true;
  stored = true;
  read_at = t;
  settled_at = t;
}

configured : IsConfigured config 2
unfolding program
configured = record { worker = refl; attempts = refl; lease = refl }

waits_long : (t : ℕ) (n : ℤ) → t < add_time t (retry_delay config n)
unfolding retry_delay
waits_long t n = ground arith

first-Fails : Fails config 5 (failing 6)
unfolding valid_category
first-Fails = record {
  expired = false;
  error = categorized dependency_unavailable;
  result = refl;
  listed = refl;
  failed_event = refl;
  stored = refl;
  started = omega arith;
  leased = omega arith;
  waits = waits_long 6;
}

second-Fails : Fails config 50 (failing 60)
unfolding valid_category
second-Fails = record {
  expired = false;
  error = categorized dependency_unavailable;
  result = refl;
  listed = refl;
  failed_event = refl;
  stored = refl;
  started = omega arith;
  leased = omega arith;
  waits = waits_long 60;
}

attempts_run : (attempt_all config job ((5, failing 6) ∷ [])).next_attempt_at ≡ 16
unfolding program
attempts_run = refl

attempt_all-state_example :
    ((attempt_all config job ((5, failing 6) ∷ (50, failing 60) ∷ [])).state ≡ failed)
    × leb_ℤ
        (attempt_all config job ((5, failing 6) ∷ (50, failing 60) ∷ [])).attempts
        config.maximum_attempts
      ≡ true
attempt_all-state_example =
    attempt_all-state config 2 0 job ((5, failing 6) ∷ (50, failing 60) ∷ []) configured
      (first-Fails, (second-Fails, tt)) refl refl (omega arith) (omega arith)
