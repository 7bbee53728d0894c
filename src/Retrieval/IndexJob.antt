-- ===== src/Retrieval/IndexJob.antt =====
-- The type IndexJob of services/retrieval-service/internal/domain/index.go. A string type keeps all
-- its strings; the map of completed batches is the list of its keys. A call gives the job as it then
-- stands beside its result, also on an error.
pub mod History
pub mod Batches
mod Tests
use raglibrarian.Base.{
  ℕ, suc, Bool, true, false, not, ◌&&◌, ◌||◌, List, [], ◌∷◌, leb, ltb, ◌==◌, if◌then◌else◌, length,
  all, is_empty, Text, literal, text_eq, byte_len, member, Result, ok, err,
}

pub data IndexJobError : Type 0 where
  invalid_index_job terminal_index_job : IndexJobError

pub data IndexJobState : Type 0 where
  pending indexed failed : IndexJobState

abbrev pub FailureCategory : Type 0
FailureCategory = Text

pub record IndexJob : Type 0 where
  pub id : Text
  pub book_id : Text
  pub source_sha256 : ℕ
  pub manifest_sha256 : ℕ
  pub profile : Text
  pub expected_batches : ℕ
  pub completed_batch_ids : List Text
  pub state : IndexJobState
  pub failure : FailureCategory
  pub created_at : ℕ
  pub updated_at : ℕ

unfoldable pub identifier_character : ℕ → Bool
identifier_character c =
    (leb b'a' c && leb c b'z')
    || (leb b'A' c && leb c b'Z')
    || (leb b'0' c && leb c b'9')
    || (c == b'-')
    || (c == b'_')
    || (c == b':')

unfoldable pub valid_identifier : Text → Bool
unfolding byte_len identifier_character
valid_identifier value =
    if is_empty value || ltb 256 (byte_len value) then false else all identifier_character value

unfoldable pub failure_categories : List FailureCategory
failure_categories =
    literal "manifest_integrity"
    ∷ literal "incompatible_profile"
    ∷ literal "embedding_unavailable"
    ∷ literal "vector_store_unavailable"
    ∷ literal "resource_limit_exceeded"
    ∷ literal "indexing_timeout"
    ∷ literal "internal_indexing_error"
    ∷ []

unfoldable pub valid_failure : FailureCategory → Bool
unfolding failure_categories member
valid_failure category = member category failure_categories

-- `expected_batches` is an int; one below 1 is refused, so 0 stands for those.
unfoldable pub new_index_job : Text → Text → ℕ → ℕ → Text → ℕ → ℕ → Result IndexJobError IndexJob
unfolding valid_identifier
new_index_job id book_id source_sha256 manifest_sha256 profile expected_batches now =
    if not (valid_identifier id)
      || not (valid_identifier book_id)
      || is_empty profile
      || ltb expected_batches 1
      || now == 0
      || source_sha256 == 0
      || manifest_sha256 == 0
    then err invalid_index_job
    else ok (record {
      id = id;
      book_id = book_id;
      source_sha256 = source_sha256;
      manifest_sha256 = manifest_sha256;
      profile = profile;
      expected_batches = expected_batches;
      completed_batch_ids = [];
      state = pending;
      failure = [];
      created_at = now;
      updated_at = now;
    })

abbrev pub Outcome : Type 0
Outcome = IndexJob × Result IndexJobError Bool

-- `CompleteBatch` behind its checks.
unfoldable pub record_batch : IndexJob → Text → ℕ → Outcome
record_batch j batch_id now =
    let k : IndexJob = record j {
      completed_batch_ids = batch_id ∷ j.completed_batch_ids;
      updated_at = now;
    } in
    if length k.completed_batch_ids == k.expected_batches
    then (record k { state = indexed }, ok true)
    else (k, ok false)

unfoldable pub complete_pending : IndexJob → Text → ℕ → Outcome
unfolding record_batch member valid_identifier
complete_pending j batch_id now =
    if not (valid_identifier batch_id) || now == 0
    then (j, err invalid_index_job)
    else if member batch_id j.completed_batch_ids
    then (j, ok false)
    else if leb j.expected_batches (length j.completed_batch_ids)
    then (j, err invalid_index_job)
    else record_batch j batch_id now

unfoldable pub complete_batch : IndexJob → Text → ℕ → Outcome
unfolding complete_pending
complete_batch j batch_id now = elim j.state [
  | failed ↦ (j, err terminal_index_job)
  | indexed ↦ (j, ok false)
  | pending ↦ complete_pending j batch_id now
]

unfoldable pub fail : IndexJob → FailureCategory → ℕ → Outcome
unfolding valid_failure text_eq
fail j category now = elim j.state [
  | indexed ↦ (j, err terminal_index_job)
  | failed ↦ if text_eq j.failure category then (j, ok false) else (j, err terminal_index_job)
  | pending ↦
      if not (valid_failure category) || now == 0
      then (j, err invalid_index_job)
      else (record j { state = failed; failure = category; updated_at = now }, ok true)
]

-- What reaches a job: a completed batch or a failure, with the time of the call.
pub data Event : Type 0 where
  completes : Text → ℕ → Event
  fails : FailureCategory → ℕ → Event

unfoldable pub step : IndexJob → Event → Outcome
unfolding complete_batch fail
step j (completes batch_id now) = complete_batch j batch_id now
step j (fails category now) = fail j category now

-- The job after a sequence of calls, and how many of them reported a change to a terminal state.
unfoldable pub run : IndexJob → List Event → IndexJob × ℕ
unfolding step
run j [] = (j, 0)
run j (e ∷ es) =
    let (k, r) = step j e in
    let (last, reports) = run k es in elim r [ ok true ↦ (last, suc reports) | _ ↦ (last, reports) ]
