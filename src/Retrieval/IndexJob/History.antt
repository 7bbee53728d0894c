-- ===== src/Retrieval/IndexJob/History.antt =====
-- What holds of an index job after any sequence of calls.
use raglibrarian.Base.{
  ℕ, ◌≤◌, ◌≡◌, ◌≢◌, ◌⊎◌, ◌+◌, suc, subst, sym, ◌↔◌, refl, true, List, [], ◌∷◌, arith, length, Text,
  distinct, ok,
}
use raglibrarian.Retrieval.IndexJob.{
  IndexJob, IndexJobState, Event, completes, fails, pending, indexed, failed, valid_failure,
  new_index_job, complete_batch, complete_pending, record_batch, fail, step, run,
}

-- The batches are counted once each, all of them are there exactly when the job is indexed, and
-- it has a valid category of failure exactly when it failed.
pub record WellFormed (j : IndexJob) : Type 0 where
  pub once : distinct j.completed_batch_ids ≡ true
  pub bounded : length j.completed_batch_ids ≤ j.expected_batches
  pub all_there : (j.state ≡ indexed) ↔ (length j.completed_batch_ids ≡ j.expected_batches)
  pub explained : (j.state ≡ failed) ↔ (valid_failure j.failure ≡ true)

pub new-WellFormed :
    (id book_id : Text) (source manifest : ℕ) (profile : Text) (expected now : ℕ) (j : IndexJob)
    → new_index_job id book_id source manifest profile expected now ≡ ok j
    → WellFormed j × (j.state ≡ pending)
unfolding new_index_job distinct valid_failure
new-WellFormed id book_id source manifest profile expected now j h = ground arith

pub step-WellFormed : (j : IndexJob) (e : Event) → WellFormed j → WellFormed (step j e).0
unfolding step complete_batch complete_pending record_batch fail distinct
step-WellFormed j (completes batch now) v =
    ground (arith, v.once, v.bounded, v.all_there, v.explained)
step-WellFormed j (fails category now) v =
    ground (arith, v.once, v.bounded, v.all_there, v.explained)

-- 1 for an indexed or failed job, 0 for a pending one.
unfoldable pub ended : IndexJobState → ℕ
ended pending = 0
ended _ = 1

step-reports :
    (j : IndexJob) (e : Event)
    → (((step j e).1 ≡ ok true) × (ended j.state ≡ 0) × (ended (step j e).0.state ≡ 1))
      ⊎ (((step j e).1 ≢ ok true) × (ended j.state ≡ ended (step j e).0.state))
unfolding step complete_batch complete_pending record_batch fail ended
step-reports j (completes batch now) = ground arith
step-reports j (fails category now) = ground arith

pub run-cons :
    (j : IndexJob) (e : Event) (es : List Event)
    → ((run j (e ∷ es)).0 ≡ (run (step j e).0 es).0)
      × (((step j e).1 ≡ ok true) → (run j (e ∷ es)).1 ≡ suc (run (step j e).0 es).1)
      × (((step j e).1 ≢ ok true) → (run j (e ∷ es)).1 ≡ (run (step j e).0 es).1)
unfolding run
run-cons j e es = ground arith

-- Through any history of calls on a well-formed job, its batches are counted once each and bounded
-- by the expected number, it is indexed exactly when they are all there, and it has a valid
-- category of failure exactly when it failed.
pub run-WellFormed : (j : IndexJob) (es : List Event) → WellFormed j → WellFormed (run j es).0
unfolding run
run-WellFormed j [] v = v
run-WellFormed j (e ∷ es) v =
    subst WellFormed (sym (run-cons j e es).0)
      (run-WellFormed (step j e).0 es (step-WellFormed j e v))

-- A pending job reports that it ended once if the history ends it, and never otherwise.
pub run-reports :
    (j : IndexJob) (es : List Event) → (run j es).1 + ended j.state ≡ ended (run j es).0.state
unfolding run
run-reports j [] = omega arith
run-reports j (e ∷ es) =
    ground (arith, run-cons j e es, step-reports j e, run-reports (step j e).0 es)

step-ended : (j : IndexJob) (e : Event) → ended j.state ≡ 1 → (step j e).0 ≡ j
unfolding step complete_batch fail ended
step-ended j (completes batch now) t = ground arith
step-ended j (fails category now) t = ground arith

-- An indexed or failed job stays as it is through any history of calls.
pub run-ended : (j : IndexJob) (es : List Event) → ended j.state ≡ 1 → (run j es).0 ≡ j
unfolding run
run-ended j [] t = refl
run-ended j (e ∷ es) t = ground (arith, run-cons j e es, step-ended j e t, run-ended j es t)
