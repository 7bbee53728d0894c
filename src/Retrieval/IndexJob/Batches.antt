-- ===== src/Retrieval/IndexJob/Batches.antt =====
-- When deliveries of batches make a pending job indexed.
use raglibrarian.Base.{
  ℕ, ◌+◌, ◌≤◌, ◌≡◌, ◌↔◌, ◌⊎◌, inl, inr, Bool-cases, ap, suc, true, false, if◌then◌else◌, List, [],
  ◌∷◌, map, All, arith, length, Text, member,
}
use raglibrarian.Retrieval.IndexJob.{
  IndexJob, Event, completes, pending, indexed, valid_identifier, complete_batch, complete_pending,
  record_batch, step, run,
}
use raglibrarian.Retrieval.IndexJob.History.{
  WellFormed, ended, run-cons, run-ended, step-WellFormed,
}

abbrev pub deliver : Text × ℕ → Event
deliver (batch, now) = completes batch now

abbrev pub Delivery : Text × ℕ → Type 0
Delivery (batch, now) = (valid_identifier batch ≡ true) × (1 ≤ now)

-- How many different batches are delivered that were not seen before.
unfoldable pub unseen : List Text → List (Text × ℕ) → ℕ
unfolding member
unseen seen [] = 0
unseen seen ((batch, now) ∷ ds) =
    if member batch seen then unseen seen ds else suc (unseen (batch ∷ seen) ds)

step-old :
    (j : IndexJob) (batch : Text) (now : ℕ)
    → j.state ≡ pending
    → member batch j.completed_batch_ids ≡ true
    → (step j (completes batch now)).0 ≡ j
unfolding step complete_batch complete_pending
step-old j batch now p h = ground arith

step-new :
    (j : IndexJob) (batch : Text) (now : ℕ)
    → WellFormed j
    → j.state ≡ pending
    → Delivery (batch, now)
    → member batch j.completed_batch_ids ≡ false
    → let k = (step j (completes batch now)).0 in
      (k.completed_batch_ids ≡ batch ∷ j.completed_batch_ids)
      × (k.expected_batches ≡ j.expected_batches)
      × ((k.state ≡ pending) ⊎ (k.state ≡ indexed))
unfolding step complete_batch complete_pending record_batch
step-new j batch now v p d h = ground (arith, v.bounded, v.all_there)

-- Deliveries of valid batches, in any order and any number of times, make a pending job indexed
-- exactly when the different new ones among them and those completed before are together at least the
-- expected number.
pub deliver-indexed :
    (j : IndexJob) (ds : List (Text × ℕ))
    → WellFormed j
    → j.state ≡ pending
    → All Delivery ds
    → ((run j (map deliver ds)).0.state ≡ indexed)
      ↔ (j.expected_batches ≤ length j.completed_batch_ids + unseen j.completed_batch_ids ds)
unfolding run unseen ended
deliver-indexed j [] v p a = ground (arith, v.bounded, v.all_there)
deliver-indexed j ((batch, now) ∷ ds) v p a =
    let e = completes batch now in
    let k = (step j e).0 in
    elim (Bool-cases (member batch j.completed_batch_ids)) [
      | inl old ↦ ground (
        arith,
        (run-cons j e (map deliver ds)).0,
        step-old j batch now p old,
        deliver-indexed j ds v p a.1,
      )
      | inr new ↦
          let (ids, expected, moved) = step-new j batch now v p a.0 new in
          let w = step-WellFormed j e v in
          elim moved [
            | inl waits ↦
                let later = deliver-indexed k ds w waits a.1 in
                ground (arith, (run-cons j e (map deliver ds)).0, ids, expected, later)
            | inr done ↦ ground (
              arith,
              (run-cons j e (map deliver ds)).0,
              ids,
              expected,
              w.all_there,
              run-ended k (map deliver ds) (ap ended done),
            )
          ]
    ]
