-- ===== src/Answer/Service/Outcomes.antt =====
-- What a call of the service answers, and what it leaves behind.
use raglibrarian.Base.{
  ℕ, zero, suc, ◌≤◌, ◌≡◌, refl, Bool, true, false, ◌&&◌, List, [], ◌∷◌, Option, none, some, is_some,
  length, is_empty, if◌then◌else◌, if-both, Text,
}
use raglibrarian.Answer.Evidence.{
  SearchResult, ContextEvidence, Limits, filter_search, select_evidence,
}
use raglibrarian.Answer.Output.{AnswerSegment, validate_segments}
use raglibrarian.Answer.Output.Grounded.{
  printable, AllGrounded, answer_bytes, validate_segments-AllGrounded,
}
use raglibrarian.Answer.Output.Summary.{length-summarize_segments}
use raglibrarian.Answer.Service.{
  Flight, Generation, World, Call, AnswerResult, Reply, no_key, leader, context_ended, waited,
  generated, generator_failed, acquire, release, done, store, complete, nothing_found, reply_of,
  answer_with, conclude, reuse, generate, join_flight, answer_search, answer,
}

-- The permits that are held after some calls; none where one is given back that is not held.
unfoldable pub held : ℕ → List Call → Option ℕ
held n [] = some n
held n (acquire ∷ cs) = held (suc n) cs
held zero (release ∷ cs) = none
held (suc n) (release ∷ cs) = held n cs
held n (_ ∷ cs) = held n cs

unfoldable pub ends_flight : List Call → Bool
ends_flight [] = false
ends_flight (done ∷ cs) = true
ends_flight (_ ∷ cs) = ends_flight cs

-- What is completed is also removed from the calls in flight.
unfoldable pub completes : List Call → Bool
completes [] = true
completes (complete segments ok ∷ cs) = ends_flight cs && completes cs
completes (_ ∷ cs) = completes cs

module _ (is_format : ℕ → Bool) (limits : Limits) where
  -- Only segments that pass the validation are stored, or completed as a success.
  unfoldable pub keeps_valid : List ContextEvidence → List Call → Bool
  keeps_valid evidence [] = true
  keeps_valid evidence (store segments ∷ cs) =
      is_some (validate_segments is_format segments evidence limits) && keeps_valid evidence cs
  keeps_valid evidence (complete segments ok ∷ cs) =
      (if ok then is_some (validate_segments is_format segments evidence limits) else true)
      && keeps_valid evidence cs
  keeps_valid evidence (_ ∷ cs) = keeps_valid evidence cs

  pub record Settled (evidence : List ContextEvidence) (cs : List Call) : Type 0 where
    pub permits : held 0 cs ≡ some 0
    pub flights : completes cs ≡ true
    pub valid : keeps_valid evidence cs ≡ true

  abbrev pub Answered :
      List ContextEvidence
      → (no_ascii : (c : ℕ) → printable c ≡ true → is_format c ≡ false)
      → Option (List AnswerSegment)
      → Text
      → Type 0
  Answered evidence no_ascii none summary = summary ≡ []
  Answered evidence no_ascii (some segments) summary =
      ((values : List AnswerSegment) × AllGrounded is_format no_ascii evidence limits values
          segments
        × (1 ≤ length values)
        × (length values ≤ limits.maximum_segments))
      × (answer_bytes is_format no_ascii segments ≤ limits.maximum_answer_bytes)
      × (length summary ≤ limits.maximum_summary_runes)

  module _ (no_ascii : (c : ℕ) → printable c ≡ true → is_format c ≡ false)
      (summary_limit : 1 ≤ limits.maximum_summary_runes) where
    pub record IsReply (found : SearchResult) (reply : Reply) : Type 0 where
      pub result : AnswerResult
      pub replied : reply.result ≡ some result
      pub same_search : result.search ≡ found
      pub grounded : Answered (select_evidence found limits) no_ascii result.answer result.summary
      pub settled : Settled (select_evidence found limits) reply.calls

    empty-IsReply :
        (found : SearchResult) (reply : Reply)
        → reply.result ≡ some (nothing_found found)
        → Settled (select_evidence found limits) reply.calls
        → IsReply found reply
    empty-IsReply found reply e s = record {
      result = nothing_found found;
      replied = e;
      same_search = refl;
      grounded = refl;
      settled = s;
    }

    answered-IsReply :
        (found : SearchResult) (segments validated : List AnswerSegment) (calls : List Call)
        → validate_segments is_format segments (select_evidence found limits) limits
          ≡ some validated
        → Settled (select_evidence found limits) calls
        → IsReply found (reply_of (answer_with is_format limits found validated) calls)
    unfolding answer_with
    answered-IsReply found segments validated calls e s =
        let (sound, bytes, least, most) =
          validate_segments-AllGrounded is_format no_ascii (select_evidence found limits) limits
            segments validated e in
        record {
          result = answer_with is_format limits found validated;
          replied = refl;
          same_search = refl;
          grounded = (
            (segments, sound, least, most),
            bytes,
            length-summarize_segments validated limits.maximum_summary_runes summary_limit,
          );
          settled = s;
        }

    nothing_done : (found : SearchResult) → Settled (select_evidence found limits) []
    unfolding held completes keeps_valid
    nothing_done found = record { permits = refl; flights = refl; valid = refl }

    conclude-IsReply :
        (found : SearchResult) (coalesce : Bool) (segments : List AnswerSegment)
        (o : Option (List AnswerSegment))
        → validate_segments is_format segments (select_evidence found limits) limits ≡ o
        → IsReply found (conclude is_format limits found coalesce segments o)
    unfolding conclude held ends_flight completes keeps_valid
    conclude-IsReply found true segments none e =
        empty-IsReply found _ refl (record { permits = refl; flights = refl; valid = refl })
    conclude-IsReply found false segments none e =
        empty-IsReply found _ refl (record { permits = refl; flights = refl; valid = refl })
    conclude-IsReply found true segments (some validated) e =
        answered-IsReply found segments validated _ e
          (record { permits = refl; flights = refl; valid = rw e refl })
    conclude-IsReply found false segments (some validated) e =
        answered-IsReply found segments validated _ e
          (record { permits = refl; flights = refl; valid = rw e refl })

    generate-IsReply :
        (found : SearchResult) (coalesce permit : Bool) (generation : Generation)
        → IsReply found (
            generate is_format limits found
              (select_evidence found limits)
              coalesce
              permit
              generation)
    unfolding generate held ends_flight completes keeps_valid
    generate-IsReply found true false generation =
        empty-IsReply found _ refl (record { permits = refl; flights = refl; valid = refl })
    generate-IsReply found false false generation =
        empty-IsReply found _ refl (record { permits = refl; flights = refl; valid = refl })
    generate-IsReply found true true (generator_failed over) =
        empty-IsReply found _ refl (record { permits = refl; flights = refl; valid = refl })
    generate-IsReply found false true (generator_failed over) =
        empty-IsReply found _ refl (record { permits = refl; flights = refl; valid = refl })
    generate-IsReply found coalesce true (generated segments) =
        conclude-IsReply found coalesce segments _ refl

    reuse-IsReply :
        (found : SearchResult) (segments : List AnswerSegment) (o : Option (List AnswerSegment))
        (otherwise : Reply)
        → validate_segments is_format segments (select_evidence found limits) limits ≡ o
        → IsReply found otherwise
        → IsReply found (reuse is_format limits found o otherwise)
    unfolding reuse
    reuse-IsReply found segments none otherwise e k = k
    reuse-IsReply found segments (some validated) otherwise e k =
        answered-IsReply found segments validated [] e (nothing_done found)

    flight-IsReply :
        (found : SearchResult) (w : World) (f : Flight)
        → w.flight ≡ f
        → IsReply found (join_flight is_format limits found (select_evidence found limits) w)
    unfolding join_flight
    flight-IsReply found w no_key e = rw e (generate-IsReply found false w.permit w.generation)
    flight-IsReply found w leader e = rw e (generate-IsReply found true w.permit w.generation)
    flight-IsReply found w context_ended e = rw e (empty-IsReply found _ refl (nothing_done found))
    flight-IsReply found w (waited segments true) e =
        rw e (
          reuse-IsReply found segments _ _ refl (generate-IsReply found true w.permit w.generation))
    flight-IsReply found w (waited segments false) e =
        rw e (empty-IsReply found _ refl (nothing_done found))

    cached-IsReply :
        (found : SearchResult) (w : World) (o : Option (List AnswerSegment))
        → w.cached ≡ o
        → IsReply found (answer_search is_format limits found w)
    unfolding answer_search
    cached-IsReply found w none e = rw e (
        if-both (IsReply found) (is_empty (select_evidence found limits)) _ _
          (λ n. empty-IsReply found _ refl (nothing_done found))
          (flight-IsReply found w w.flight refl))
    cached-IsReply found w (some segments) e = rw e (
        if-both (IsReply found) (is_empty (select_evidence found limits)) _ _
          (λ n. empty-IsReply found _ refl (nothing_done found))
          (reuse-IsReply found segments _ _ refl (flight-IsReply found w w.flight refl)))

    -- Whatever the cache, the calls in flight, the permits and the generator give: once the search has
    -- succeeded there is a reply with the results that reach the minimum score, and either
    -- no answer, or one that rests on the evidence selected from them and keeps the limits, with a
    -- summary within its limit. The permit of a call is given back, what it completes is no longer
    -- in flight, and only valid segments are stored or completed. The limit of a summary is
    -- positive, and no rune of ASCII has the category Cf.
    pub answer-IsReply :
        (w : World) (search : SearchResult)
        → w.search ≡ some search
        → IsReply (filter_search w.positive w.reaches search) (answer is_format limits w)
    unfolding answer answer_search join_flight
    answer-IsReply w search e =
        rw e (cached-IsReply (filter_search w.positive w.reaches search) w w.cached refl)
