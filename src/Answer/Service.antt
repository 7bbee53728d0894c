-- ===== src/Answer/Service.antt =====
-- `Service.Answer` of services/answer-service/internal/application/service.go, behind the validation
-- of the request. What the retriever, the cache, the call in flight, the free permits and the
-- generator give is an argument. The calls that change the state of the service are the list `calls`,
-- those of deferred functions last; what the observer is told is left out.
pub mod Outcomes
mod Tests
use raglibrarian.Base.{
  ℕ, Bool, true, false, List, [], ◌∷◌, ◌++◌, Option, none, some, if◌then◌else◌, is_empty, Text,
}
use raglibrarian.Answer.Evidence.{
  SearchResult, ContextEvidence, Limits, filter_search, select_evidence,
}
use raglibrarian.Answer.Output.{AnswerSegment, validate_segments, summarize_segments}

-- `cache.flightKey` and `inflight.wait`: there is no key, the caller is the first with its key, or it
-- has waited for the first, whose segments come with the flag of success, or its own context has ended.
pub data Flight : Type 0 where
  no_key leader context_ended : Flight
  waited : List AnswerSegment → Bool → Flight

-- `generator.Generate`; the flag of a failure says that the context of the request has ended.
pub data Generation : Type 0 where
  generated : List AnswerSegment → Generation
  generator_failed : Bool → Generation

-- What the other parts give to one call.
pub record World : Type 0 where
  pub search : Option SearchResult
  pub positive : Bool
  pub reaches : ℕ → Bool
  pub cached : Option (List AnswerSegment)
  pub flight : Flight
  pub permit : Bool
  pub generation : Generation

pub data Call : Type 0 where
  acquire release done : Call
  store : List AnswerSegment → Call
  complete : List AnswerSegment → Bool → Call

pub record AnswerResult : Type 0 where
  pub search : SearchResult
  pub answer : Option (List AnswerSegment)
  pub summary : Text

pub data ServiceError : Type 0 where
  retrieval_error context_error : ServiceError

-- A result, and an error if there is one; both may be there.
pub record Reply : Type 0 where
  pub result : Option AnswerResult
  pub error : Option ServiceError
  pub calls : List Call

abbrev pub nothing_found : SearchResult → AnswerResult
nothing_found search = record { search = search; answer = none; summary = [] }

abbrev pub reply_of : AnswerResult → List Call → Reply
reply_of result calls = record { result = some result; error = none; calls = calls }

-- The calls of `complete` that are made for a key alone.
abbrev pub if_coalesced : Bool → List Call → List Call
if_coalesced coalesce calls = if coalesce then calls else []

module _ (is_format : ℕ → Bool) (limits : Limits) where
  unfoldable pub answer_with : SearchResult → List AnswerSegment → AnswerResult
  answer_with search validated = record {
    search = search;
    answer = some validated;
    summary = summarize_segments validated limits.maximum_summary_runes;
  }

  -- What follows the generator: `validated` is what the validation makes of its segments.
  unfoldable pub conclude :
      SearchResult → Bool → List AnswerSegment → Option (List AnswerSegment) → Reply
  conclude search coalesce segments none = reply_of (nothing_found search) (
      (acquire ∷ if_coalesced coalesce (complete [] false ∷ []))
      ++ (release ∷ if_coalesced coalesce (done ∷ [])))
  conclude search coalesce segments (some validated) = reply_of (answer_with search validated) (
      (acquire ∷ store segments ∷ if_coalesced coalesce (complete segments true ∷ []))
      ++ (release ∷ if_coalesced coalesce (done ∷ [])))

  -- Segments of an earlier call that pass the validation are the answer.
  unfoldable pub reuse : SearchResult → Option (List AnswerSegment) → Reply → Reply
  reuse search none otherwise = otherwise
  reuse search (some validated) otherwise = reply_of (answer_with search validated) []

  -- From the permit on; `coalesce` says that there is a key, for which `done` is deferred.
  unfoldable pub generate : SearchResult → List ContextEvidence → Bool → Bool → Generation → Reply
  generate search evidence coalesce false generation =
      reply_of (nothing_found search) (if_coalesced coalesce (done ∷ []))
  generate search evidence coalesce true (generator_failed context_over) = record {
    result = some (nothing_found search);
    error = if context_over then some context_error else none;
    calls =
        (acquire ∷ if_coalesced coalesce (complete [] false ∷ []))
        ++ (release ∷ if_coalesced coalesce (done ∷ []));
  }
  generate search evidence coalesce true (generated segments) =
      conclude search coalesce segments (validate_segments is_format segments evidence limits)

  -- From the wait for a call in flight on.
  unfoldable pub join_flight : SearchResult → List ContextEvidence → World → Reply
  join_flight search evidence w = elim w.flight [
    | no_key ↦ generate search evidence false w.permit w.generation
    | leader ↦ generate search evidence true w.permit w.generation
    | context_ended ↦ record {
      result = some (nothing_found search);
      error = some context_error;
      calls = [];
    }
    | waited segments ok ↦
        if ok
        then reuse search (validate_segments is_format segments evidence limits)
            (generate search evidence true w.permit w.generation)
        else reply_of (nothing_found search) []
  ]

  unfoldable pub answer_search : SearchResult → World → Reply
  answer_search search w =
      let evidence = select_evidence search limits in
      if is_empty evidence then reply_of (nothing_found search) [] else elim w.cached [
        | none ↦ join_flight search evidence w
        | some segments ↦
            reuse search (validate_segments is_format segments evidence limits)
              (join_flight search evidence w)
      ]

  unfoldable pub answer : World → Reply
  answer w = elim w.search [
    | none ↦ record { result = none; error = some retrieval_error; calls = [] }
    | some search ↦ answer_search (filter_search w.positive w.reaches search) w
  ]
