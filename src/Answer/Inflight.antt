-- ===== src/Answer/Inflight.antt =====
-- The calls in flight of services/answer-service/internal/application/service.go, shared by the requests
-- that run at once. A request and a key are numbers; the evidence and the key of each request are given.
-- A call has a number among those of its key, and a channel that is open or closed; to close a closed
-- one is a panic. What a request does between two locks or waits is one step.
pub mod Invariant
pub mod Moves
pub mod Steps
pub mod Waiters
pub mod Leaders
pub mod Safe
pub mod Progress
pub mod Released
mod Tests
use raglibrarian.Base.{
  ℕ, suc, ◌+◌, Bool, true, false, not, ◌&&◌, List, [], ◌∷◌, Option, none, some, is_some, ◌==◌,
  if◌then◌else◌,
}
use raglibrarian.Answer.Evidence.{ContextEvidence, Limits}
use raglibrarian.Answer.Output.{AnswerSegment, validate_segments}

-- `answerInflightCall`: is the channel `ready` closed?
pub record InflightCall : Type 0 where
  pub closed : Bool
  pub segments : List AnswerSegment
  pub succeeded : Bool

-- The entry of a key in the table, all calls that were ever made for it, and how many these are.
pub record Slot : Type 0 where
  pub call : Option ℕ
  pub heap : ℕ → InflightCall
  pub next : ℕ

abbrev pub new_call : InflightCall
new_call = record { closed = false; segments = []; succeeded = false }

abbrev pub empty_slot : Slot
empty_slot = record { call = none; heap = λ a. new_call; next = 0 }

abbrev pub set_at {ℓ} : {A : Type ℓ} → ℕ → A → (ℕ → A) → ℕ → A
set_at a x f b = if a == b then x else f b

-- `wait` up to the lock's release: the call that is found, or none when one is made.
unfoldable pub wait : Slot → Slot × Option ℕ
wait s = elim s.call [
  | some a ↦ (s, some a)
  | none ↦ (
    record s { call = some s.next; heap = set_at s.next new_call s.heap; next = s.next + 1 },
    none,
  )
]

-- `complete` up to the lock's release: the call that is found is to be closed.
unfoldable pub complete : Slot → List AnswerSegment → Bool → Slot × Option ℕ
complete s segments succeeded = elim s.call [
  | none ↦ (s, none)
  | some a ↦ (
    record s {
      heap =
          set_at a
            (record { closed = (s.heap a).closed; segments = segments; succeeded = succeeded })
            s.heap;
    },
    some a,
  )
]

-- `close(call.ready)`, with none for the panic.
unfoldable pub close_ready : Slot → ℕ → Option Slot
close_ready s a =
    let call = s.heap a in
    if call.closed
    then none
    else some (record s { heap = set_at a (record call { closed = true }) s.heap })

-- The function that `done` returns.
unfoldable pub done : Slot → Slot
done s = elim s.call [
  | none ↦ s
  | some a ↦ record s { call = none; heap = set_at a (record (s.heap a) { closed = true }) s.heap }
]

-- Where a request stands: before `wait`, at the end of a call's channel, behind `wait` with `done`
-- deferred, between the two parts of `complete`, behind it, or behind the last of these calls.
pub data Request : Type 0 where
  idle generating completed finished : Request
  waiting closing : ℕ → Request

-- One step of a request. `succeed` has the segments of the generator, which pass the validation.
pub data Event : Type 0 where
  arrive wake cancel fail close leave : Event
  succeed : List AnswerSegment → Event

-- All requests, and the slot of each key.
pub record System : Type 0 where
  pub slots : ℕ → Slot
  pub requests : ℕ → Request

abbrev pub start : System
start = record { slots = λ k. empty_slot; requests = λ i. idle }

abbrev pub Moved : Type 0
Moved = Slot × Request

-- The slot and the request that a step changes.
abbrev pub put_back : (ℕ → ℕ) → System → ℕ → Option Moved → Option System
put_back key s i none = none
put_back key s i (some (slot, request)) =
    some (record { slots = set_at (key i) slot s.slots; requests = set_at i request s.requests })

abbrev pub closed_move : Option Slot → Option Moved
closed_move none = none
closed_move (some s) = some (s, completed)

-- A request waits for the call that is found, or generates behind the one that it made.
abbrev pub arriving : Slot × Option ℕ → Moved
arriving (s, none) = (s, generating)
arriving (s, some a) = (s, waiting a)

module _ (is_format : ℕ → Bool) (limits : Limits) (evidence : ℕ → List ContextEvidence) where
  -- Does the validation of a request accept some segments?
  abbrev pub accepts : ℕ → List AnswerSegment → Bool
  accepts i segments = is_some (validate_segments is_format segments (evidence i) limits)

  unfoldable pub completing : Slot → List AnswerSegment → Bool → Moved
  completing s segments succeeded = elim (complete s segments succeeded).1 [
    | none ↦ (s, completed)
    | some a ↦ ((complete s segments succeeded).0, closing a)
  ]

  -- What a request that has been woken does with the call it waited for.
  unfoldable pub woken : ℕ → InflightCall → Request
  woken i call =
      if not call.succeeded
      then finished
      else if accepts i call.segments
      then finished
      else generating

  -- A step of a request with the slot of its key; a step that it cannot take changes nothing.
  unfoldable pub move : ℕ → Slot → Request → Event → Option Moved
  move i s idle arrive = some (arriving (wait s))
  move i s (waiting a) wake =
      if (s.heap a).closed then some (s, woken i (s.heap a)) else some (s, waiting a)
  move i s (waiting a) cancel = some (s, finished)
  move i s generating fail = some (completing s [] false)
  move i s generating (succeed segments) =
      if accepts i segments then some (completing s segments true) else some (s, generating)
  move i s (closing a) close = closed_move (close_ready s a)
  move i s generating leave = some (done s, finished)
  move i s completed leave = some (done s, finished)
  move i s r _ = some (s, r)

  module _ (key : ℕ → ℕ) where
    unfoldable pub step : System → ℕ × Event → Option System
    step s (i, event) = put_back key s i (move i (s.slots (key i)) (s.requests i) event)

    -- Any interleaving of steps of any requests.
    unfoldable pub run : System → List (ℕ × Event) → Option System
    run s [] = some s
    run s (e ∷ es) = elim (step s e) [ none ↦ none | some s' ↦ run s' es ]
