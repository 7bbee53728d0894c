-- ===== src/Answer/Inflight/Tests.antt =====
-- Three requests, two of them with one key.
use raglibrarian.Base.{
  ℕ, ◌≡◌, ◌≢◌, refl, false, List, [], ◌∷◌, Option, none, some, ◌==◌, if◌then◌else◌, text_eq,
  is_space, trim_left, trim_right, trim_space, rune_width, byte_len, valid_string, member, join,
}
use raglibrarian.Answer.Evidence.{ContextEvidence}
use raglibrarian.Answer.Output.{
  is_control, digits, decimal, page_range, add_part, split_parts, fields_func, human_separator,
  human_field, unsafe_answer_rune, find_evidence, introduction, grounded_segment_text,
  valid_citations, safe_text, validate_from, validate_segments,
}
use raglibrarian.Answer.Output.Tests.{is_format, limits, evidence, segments}
use raglibrarian.Answer.Inflight.{
  wait, complete, close_ready, done, waiting, arrive, wake, close, leave, succeed, Event,
  completing, woken, move, System, step, run, start,
}
use raglibrarian.Answer.Inflight.Invariant.{Sound}
use raglibrarian.Answer.Inflight.Safe.{run-Sound}
use raglibrarian.Answer.Inflight.Released.{Frees, run-Frees}

flights : Unit {0}
unfolding text_eq is_space trim_left trim_right trim_space rune_width byte_len valid_string member
    join is_control digits decimal page_range add_part split_parts fields_func human_separator
    human_field unsafe_answer_rune find_evidence introduction grounded_segment_text valid_citations
    safe_text validate_from validate_segments wait complete close_ready done completing woken move
    step run
flights = tt

-- The keys of requests 1 and 2 are equal; all requests have the same evidence.
abbrev key : ℕ → ℕ
key i = if i == 2 then 1 else i

abbrev known : ℕ → List ContextEvidence
known i = evidence

abbrev events : List (ℕ × Event)
events = (1, arrive) ∷ (2, arrive) ∷ (3, arrive) ∷ (1, succeed segments) ∷ []

abbrev all_events : List (ℕ × Event)
all_events =
    (1, arrive) ∷ (2, arrive) ∷ (1, succeed segments) ∷ (1, close) ∷ (1, leave) ∷ (2, wake) ∷ []

run-Sound_example :
    (s : System) × (run is_format limits known key start all_events ≡ some s)
    × Sound is_format limits known key s
run-Sound_example = run-Sound is_format limits known key (λ i j h. refl) all_events

abbrev or_start : Option System → System
or_start none = start
or_start (some s) = s

-- The system in which request 2 waits and request 1 is about to close the channel.
abbrev before : System
before = or_start (run is_format limits known key start events)

ran : run is_format limits known key start events ≡ some before
unfolding flights
ran = refl

waits : before.requests 2 ≡ waiting 0
unfolding flights
waits = refl

still_open : ((before.slots (key 2)).heap 0).closed ≡ false
unfolding flights
still_open = refl

run-Frees_example :
    (j : ℕ) × (key j ≡ key 2) × (j ≢ 2) × Frees is_format limits known key j 2 0 2 before
run-Frees_example =
    run-Frees is_format limits known key (λ i j h. refl) events before 2 0 ran waits still_open
