-- ===== src/Ingestion/Attempts/Bounded.antt =====
-- A job whose attempts all fail.
use raglibrarian.Base.{
  ℕ, ◌+◌, ◌<◌, ◌≤◌, ◌≡◌, ◌⊎◌, inl, inr, refl, Bool, true, false, not, ◌&&◌, lt→ltb, increment, List,
  [], ◌∷◌, arith, length, All, Bool-cases, ℤ, pos, ltb_ℤ, leb_ℤ, add_time, text_eq_refl, ok,
}
use raglibrarian.Ingestion.Job.{require_owner, clear_lease, claim, schedule_retry, fail}
use raglibrarian.Ingestion.JobStates.{
  ProcessingJob, JobState, FailureCategory, queued, retrying, processing, failed, valid_category,
  valid_identifier,
}
use raglibrarian.Ingestion.Attempts.{
  ProcessError, AttemptConfig, Attempt, process_failed, extractor_error, categorized, classify,
  retry_delay, store_job, persist_failure, process_accepted, attempt_job, attempt_all,
}

abbrev pub listed_error : ProcessError → Bool
listed_error (extractor_error c) = valid_category c
listed_error (categorized c) = valid_category c
listed_error _ = true

classify-listed :
    (expired : Bool) (e : ProcessError)
    → listed_error e ≡ true
    → valid_category (classify expired e).0 ≡ true
unfolding classify valid_category
classify-listed true e h = refl
classify-listed false e h = ground arith

-- The checks of the constructor that matter here.
pub record IsConfigured (config : AttemptConfig) (m : ℕ) : Type 0 where
  pub worker : valid_identifier config.worker_id ≡ true
  pub attempts : config.maximum_attempts ≡ pos m
  pub lease : ltb_ℤ (pos 0) config.job_lease ≡ true

-- An attempt that fails while its lease runs: events can be made and the job stored, and the clock is
-- not behind, nor past the time of the retry.
pub record Fails (config : AttemptConfig) (at : ℕ) (a : Attempt) : Type 0 where
  pub expired : Bool
  pub error : ProcessError
  pub result : a.result ≡ process_failed expired error
  pub listed : listed_error error ≡ true
  pub failed_event : a.failed_event ≡ true
  pub stored : a.stored ≡ true
  pub started : 1 ≤ at
  pub leased : a.settled_at < add_time at config.job_lease
  pub waits : (n : ℤ) → a.settled_at < add_time a.read_at (retry_delay config n)

abbrev pub waiting : JobState → Bool
waiting queued = true
waiting retrying = true
waiting _ = false

-- Whom a claim gives the job to.
record Claimed (config : AttemptConfig) (at n : ℕ) (j : ProcessingJob) : Type 0 where
  state : j.state ≡ processing
  owner : j.lease_owner ≡ config.worker_id
  lease : j.lease_expires_at ≡ add_time at config.job_lease
  attempts : j.attempts ≡ pos n

claim-Claimed :
    (config : AttemptConfig) (m at n : ℕ) (j : ProcessingJob)
    → IsConfigured config m
    → 1 ≤ at
    → waiting j.state ≡ true
    → j.attempts ≡ pos n
    → (k : ProcessingJob) × (claim j config.worker_id at config.job_lease ≡ ok k)
      × Claimed config at (n + 1) k
unfolding claim
claim-Claimed config m at n j c s w a =
    let k : ProcessingJob = record j {
      state = processing;
      attempts = increment j.attempts;
      lease_owner = config.worker_id;
      lease_expires_at = add_time at config.job_lease;
      updated_at = at;
    } in
    (
      k,
      ground (arith, c.worker, c.lease),
      record { state = refl; owner = refl; lease = refl; attempts = ground (arith, a) },
    )

module _ (config : AttemptConfig) (at n now : ℕ) (j : ProcessingJob) (q : Claimed config at n j)
    (held : now < add_time at config.job_lease) where
  may_settle : require_owner j config.worker_id now ≡ ok tt
  unfolding require_owner
  may_settle = ground (arith, q.state, q.owner, q.lease, text_eq_refl config.worker_id)

  fail_lem :
      (category : FailureCategory)
      → valid_category category ≡ true
      → (k : ProcessingJob) × (fail j config.worker_id category now ≡ ok k)
        × (k.state ≡ failed)
        × (k.attempts ≡ pos n)
  unfolding fail clear_lease
  fail_lem category v =
      let k : ProcessingJob = record j {
        state = failed;
        failure = category;
        lease_owner = [];
        lease_expires_at = 0;
        updated_at = now;
      } in
      (k, rw (may_settle, v) refl, refl, q.attempts)

  schedule_retry_lem :
      (next : ℕ)
      → now < next
      → (k : ProcessingJob) × (schedule_retry j config.worker_id next now ≡ ok k)
        × (k.state ≡ retrying)
        × (k.attempts ≡ pos n)
  unfolding schedule_retry clear_lease
  schedule_retry_lem next h =
      let k : ProcessingJob = record j {
        state = retrying;
        next_attempt_at = next;
        lease_owner = [];
        lease_expires_at = 0;
        updated_at = now;
      } in
      (k, rw (may_settle, lt→ltb now next h) refl, refl, q.attempts)

settled :
    (config : AttemptConfig) (m at n : ℕ) (j : ProcessingJob) (a : Attempt)
    → IsConfigured config m
    → Fails config at a
    → Claimed config at n j
    → (k : ProcessingJob) × (process_accepted config j a ≡ ok k)
      × (k.attempts ≡ pos n)
      × ((k.state ≡ failed) ⊎ ((k.state ≡ retrying) × (n < m)))
unfolding process_accepted persist_failure store_job
settled config m at n j a c f q =
    let category = (classify f.expired f.error).0 in
    let permanent = (classify f.expired f.error).1 in
    let next = add_time a.read_at (retry_delay config j.attempts) in
    let (ended, e, end_state, end_attempts) =
      fail_lem config at n a.settled_at j q f.leased category
        (classify-listed f.expired f.error f.listed) in
    let (later, r, later_state, later_attempts) =
      schedule_retry_lem config at n a.settled_at j q f.leased next (f.waits j.attempts) in
    elim (Bool-cases (not permanent && ltb_ℤ j.attempts config.maximum_attempts)) [
      | inl go ↦ (
        later,
        rw (f.result, go, r, f.stored) refl,
        later_attempts,
        inr (later_state, ground (arith, go, q.attempts, c.attempts)),
      )
      | inr stop ↦ (
        ended,
        rw (f.result, stop, f.failed_event, e, f.stored) refl,
        end_attempts,
        inl end_state,
      )
    ]

attempt_job_lem :
    (config : AttemptConfig) (at : ℕ) (j k l : ProcessingJob) (a : Attempt)
    → claim j config.worker_id at config.job_lease ≡ ok k
    → process_accepted config k a ≡ ok l
    → attempt_job config j at a ≡ l
unfolding attempt_job
attempt_job_lem config at j k l a c p = rw (attempt_job, c, p) refl

-- One attempt that fails.
attempt_job-state :
    (config : AttemptConfig) (m at n : ℕ) (j : ProcessingJob) (a : Attempt)
    → IsConfigured config m
    → Fails config at a
    → waiting j.state ≡ true
    → j.attempts ≡ pos n
    → ((attempt_job config j at a).attempts ≡ pos (n + 1))
      × (((attempt_job config j at a).state ≡ failed)
          ⊎ (((attempt_job config j at a).state ≡ retrying) × (n + 1 < m)))
attempt_job-state config m at n j a c f w e =
    let (k, claimed, q) = claim-Claimed config m at n j c f.started w e in
    let (l, done, counted, ends) = settled config m at (n + 1) k a c f q in
    rw (attempt_job_lem config at j k l a claimed done) (counted, ends)

attempt_all-failed :
    (config : AttemptConfig) (j : ProcessingJob) (rounds : List (ℕ × Attempt))
    → j.state ≡ failed
    → attempt_all config j rounds ≡ j
unfolding attempt_all attempt_job claim
attempt_all-failed config j [] h = refl
attempt_all-failed config j ((at, a) ∷ rest) h = ground (arith, attempt_all-failed config j rest)

-- A job that waits for an attempt and has had fewer than the greatest number is in the state
-- `failed` after at most as many attempts as are left, with at most the greatest number counted, when
-- each attempt fails with a listed category, the event of its failure can be made, the job is stored
-- each time, and the clock when an attempt settles is within its lease and before the time of the
-- retry. The worker has a valid identifier and a positive lease, and no claim is made at the zero time.
pub attempt_all-state :
    (config : AttemptConfig) (m n : ℕ) (j : ProcessingJob) (rounds : List (ℕ × Attempt))
    → IsConfigured config m
    → All (λ r. Fails config r.0 r.1) rounds
    → waiting j.state ≡ true
    → j.attempts ≡ pos n
    → n < m
    → m ≤ n + length rounds
    → ((attempt_all config j rounds).state ≡ failed)
      × leb_ℤ (attempt_all config j rounds).attempts config.maximum_attempts ≡ true
unfolding attempt_all
attempt_all-state config m n j [] c f w e less enough = absurd (omega arith)
attempt_all-state config m n j ((at, a) ∷ rest) c f w e less enough =
    let k = attempt_job config j at a in
    let (counted, ends) = attempt_job-state config m at n j a c f.0 w e in
    elim ends [
      | inl over ↦
          rw (attempt_all-failed config k rest over) (over, ground (arith, counted, c.attempts))
      | inr (again, few) ↦
          attempt_all-state config m (n + 1) k rest c f.1 (ground (arith, again)) counted few
            (omega arith)
    ]
