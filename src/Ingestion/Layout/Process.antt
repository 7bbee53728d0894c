-- ===== src/Ingestion/Layout/Process.antt =====
-- What the processing of a valid request gives: a completion, whatever the store and the analyzer do.
use raglibrarian.Base.{
  ℕ, ◌≤◌, ◌≡◌, inl, inr, refl, sym, subst, Bool, true, false, not, ◌||◌, List, [], Option, none,
  some, arith, length, Bool-cases, Text, ℤ, pos, leb_ℤ, ltb_ℤ, text_eq, ltb, ◌==◌, if◌then◌else◌,
}
use raglibrarian.Ingestion.Selection.{
  Policy, Candidate, Fallback, Selection, fallback_none, invalid_policy, invalid_input,
  excluded_ratio, range_limit, valid_policy, decide, validate_result, max_uint32,
}
use raglibrarian.Ingestion.Selection.Contract.{validate_result-decide}
use raglibrarian.Ingestion.Completion.{
  Mode, FallbackReason, ExcludedRange, Completed, observed, is_observation, is_enforcement,
  is_no_fallback, is_observed, safe_id, safe_version,
}
use raglibrarian.Ingestion.Layout.{
  Config, Request, Download, Analysis, downloaded, source_unavailable, source_integrity, analyzed,
  analysis_failed, valid_config, valid_request, valid_fallback_reason, valid_completion,
  encode_completion, selection_fallback, encode_ranges, source_fallback, parser_fallback,
  completion_of, complete_analysis, process,
}
use raglibrarian.Ingestion.Layout.Ranges.{
  Chained, coded_count, encode_ranges-Chained, Chained-valid,
}

-- The numbers of locations that a completion can hold.
abbrev pub countable : ℕ → Bool
countable count = not (count == 0 || ltb max_uint32 count)

-- The document is missing, unreadable, or of a number of locations that a completion can hold.
abbrev pub countable_outcome : Download → Analysis → Bool
countable_outcome downloaded (analyzed count candidates) = countable count
countable_outcome _ _ = true

module _ (valid_ratio : ℕ → Bool) (share : ℕ → ℕ → ℕ) (policy_digest : Policy → ℕ)
    (completion_event_id : Text → Text) where
  -- A service that the constructor has made, and a request for it.
  pub record Ready (config : Config) (r : Request) : Type 0 where
    pub config_valid :
        valid_config valid_ratio share policy_digest completion_event_id config ≡ true
    pub request_valid : valid_request config.maximum_source_bytes r ≡ true
    pub same_version : text_eq r.selector_version config.policy.version ≡ true
    pub same_parser : text_eq r.parser_profile config.parser_version ≡ true
    pub same_digest : (r.policy_digest == policy_digest config.policy) ≡ true
    pub model : (config.model_digest == 0) ≡ false
    pub safe_event : safe_id (completion_event_id r.request_id) ≡ true
    pub dated : (r.occurred_at == 0) ≡ false

  -- The outcome of a request: the number of locations, the fallback and the ranges.
  pub record IsOutcome (config : Config) (mode : Mode) (count : ℕ) (fallback : FallbackReason)
      (es : List ExcludedRange) : Type 0 where
    pub listed : valid_fallback_reason fallback ≡ true
    pub filtered : is_no_fallback fallback ≡ true → 1 ≤ count
    pub unfiltered : is_no_fallback fallback ≡ false → es ≡ []
    pub observing : is_observed fallback ≡ is_observation mode
    pub chained : Chained count none es
    pub few : leb_ℤ (pos (length es)) config.policy.maximum_ranges ≡ true
    pub bounded : coded_count es ≤ share count config.policy.maximum_excluded_ratio

  pub record IsCompletion (config : Config) (r : Request) (c : Completed) : Type 0 where
    pub echoed :
        c
        ≡ completion_of valid_ratio share policy_digest completion_event_id config r
            c.original_ordinal_count c.fallback_reason c.excluded_ranges
    pub outcome :
        IsOutcome config r.mode c.original_ordinal_count c.fallback_reason c.excluded_ranges

  -- What the checks of the constructor and of the request leave.
  record Parts (config : Config) (r : Request) : Type 0 where
    policy : valid_policy valid_ratio share config.policy ≡ true
    parser : safe_version config.parser_version ≡ true
    ranges : ltb_ℤ config.policy.maximum_ranges (pos 1) ≡ false
    digest : (policy_digest config.policy == 0) ≡ false
    mode : (is_observation r.mode || is_enforcement r.mode) ≡ true

  valid_config-policy :
      (config : Config)
      → valid_config valid_ratio share policy_digest completion_event_id config ≡ true
      → (valid_policy valid_ratio share config.policy ≡ true)
        × (safe_version config.parser_version ≡ true)
        × (ltb_ℤ config.policy.maximum_ranges (pos 1) ≡ false)
  unfolding valid_config decide
  valid_config-policy config h = (ground arith, ground arith, ground arith)

  request_mode :
      (maximum : ℤ) (r : Request)
      → valid_request maximum r ≡ true
      → ((is_observation r.mode || is_enforcement r.mode) ≡ true) × ((r.policy_digest == 0) ≡ false)
  unfolding valid_request
  request_mode maximum r h = (ground arith, ground arith)

  decide-total :
      (policy : Policy) (total : ℕ) (cs : List Candidate)
      → (decide valid_ratio share policy total cs).total_locations ≡ total
  unfolding decide
  decide-total policy total cs = ground arith

  -- The completion with an outcome, encoded.
  abbrev sent : Config → Request → ℕ → FallbackReason → List ExcludedRange → Option Completed
  sent config r count why es =
      encode_completion
        (completion_of valid_ratio share policy_digest completion_event_id config r count why es)
        config.policy.maximum_ranges

  abbrev sent_selection : Config → Request → ℕ → Selection → Option Completed
  sent_selection config r count d =
      let why = selection_fallback d.fallback in
      sent config r count why (if is_no_fallback why then encode_ranges d.ranges else [])

  module _ (config : Config) (r : Request) (ready : Ready config r) where
    parts : Parts config r
    parts =
        let (policy, parser, ranges) = valid_config-policy config ready.config_valid in
        let (mode, digest) = request_mode config.maximum_source_bytes r ready.request_valid in
        record {
          policy = policy;
          parser = parser;
          ranges = ranges;
          digest = ground (arith, digest, ready.same_digest);
          mode = mode;
        }

    empty_outcome :
        (why : FallbackReason) (count : ℕ)
        → valid_fallback_reason why ≡ true
        → is_no_fallback why ≡ false
        → is_observed why ≡ is_observation r.mode
        → IsOutcome config r.mode count why []
    unfolding coded_count
    empty_outcome why count v n o = record {
      listed = v;
      filtered = λ f. ground arith;
      unfiltered = λ f. refl;
      observing = o;
      chained = tt;
      few = ground (arith, parts.ranges);
      bounded = omega arith;
    }

    outcome-valid :
        (count : ℕ) (why : FallbackReason) (es : List ExcludedRange)
        → IsOutcome config r.mode count why es
        → valid_completion (
            completion_of valid_ratio share policy_digest completion_event_id config r count why es)
          ≡ true
    unfolding completion_of valid_completion
    outcome-valid count why es o =
        let ranges = Chained-valid count none es o.chained in
        let mode = parts.mode in
        elim (Bool-cases (is_no_fallback why)) [
          | inl e ↦ ground (arith, e, ranges, o.listed, o.filtered e, o.observing)
          | inr e ↦ ground (arith, e, ranges, o.listed, o.unfiltered e, o.observing)
        ]

    encoded :
        (count : ℕ) (why : FallbackReason) (es : List ExcludedRange)
        → IsOutcome config r.mode count why es
        → (c : Completed) × (sent config r count why es ≡ some c) × IsCompletion config r c
    unfolding encode_completion completion_of
    encoded count why es o = (
      completion_of valid_ratio share policy_digest completion_event_id config r count why es,
      rw
          (
            ready.safe_event,
            ready.dated,
            ready.model,
            parts.digest,
            parts.parser,
            parts.ranges,
            outcome-valid count why es o,
          )
          (ground (arith, o.few)),
      record { echoed = refl; outcome = o },
    )

    -- What a request without an analysis ends with.
    failed_outcome :
        (why : FallbackReason)
        → valid_fallback_reason why ≡ true
        → is_no_fallback why ≡ false
        → is_observed why ≡ false
        → IsOutcome config r.mode 0 (if is_observation r.mode then observed else why) []
    unfolding valid_fallback_reason
    failed_outcome why v n o = elim (Bool-cases (is_observation r.mode)) [
      | inl e ↦ rw e (empty_outcome observed 0 refl refl (sym e))
      | inr e ↦ rw e (empty_outcome why 0 v n (ground (arith, e, o)))
    ]

    -- What the code makes of a selection that passes its check.
    selected :
        (d : Selection) (why : Fallback)
        → d.fallback ≡ why
        → validate_result valid_ratio share config.policy d ≡ true
        → countable d.total_locations ≡ true
        → is_observation r.mode ≡ false
        → IsOutcome config r.mode d.total_locations
            (selection_fallback why)
            (if is_no_fallback (selection_fallback why) then encode_ranges d.ranges else [])
    unfolding validate_result selection_fallback valid_fallback_reason
    selected d fallback_none e h n o =
        let (chain, count, few) = encode_ranges-Chained d.total_locations d.ranges (ground arith) in
        record {
          listed = refl;
          filtered = λ f. ground arith;
          unfiltered = λ f. absurd (ground arith);
          observing = sym o;
          chained = chain;
          few = ground (arith, few);
          bounded = ground (arith, count);
        }
    selected d invalid_policy e h n o = empty_outcome _ d.total_locations refl refl (sym o)
    selected d invalid_input e h n o = empty_outcome _ d.total_locations refl refl (sym o)
    selected d excluded_ratio e h n o = empty_outcome _ d.total_locations refl refl (sym o)
    selected d range_limit e h n o = empty_outcome _ d.total_locations refl refl (sym o)
    selected d (Fallback.unlisted t) e h n o = empty_outcome _ d.total_locations refl refl (sym o)

    decided :
        (total : ℕ) (cs : List Candidate)
        → countable total ≡ true
        → is_observation r.mode ≡ false
        → IsOutcome config r.mode total
            (selection_fallback (decide valid_ratio share config.policy total cs).fallback)
            (if is_no_fallback
                (selection_fallback (decide valid_ratio share config.policy total cs).fallback)
              then encode_ranges (decide valid_ratio share config.policy total cs).ranges
              else [])
    decided total cs n o =
        let d = decide valid_ratio share config.policy total cs in
        let same = decide-total config.policy total cs in
        subst
          (λ t.
            IsOutcome config r.mode t (selection_fallback d.fallback) (
              if is_no_fallback (selection_fallback d.fallback)
              then encode_ranges d.ranges
              else []))
          same
          (selected d d.fallback refl
            (validate_result-decide valid_ratio share config.policy total cs parts.policy
              (ground arith))
            (rw same n) o)

    analysis-same :
        (count : ℕ) (candidates : List Candidate)
        → (count == 0 || ltb max_uint32 count) ≡ false
        → complete_analysis valid_ratio share policy_digest completion_event_id config r
            (analyzed count candidates)
          ≡ (if is_observation r.mode
              then sent config r count observed []
              else sent_selection config r count
                  (decide valid_ratio share config.policy count candidates))
    unfolding complete_analysis
    analysis-same count candidates small = rw small refl

    chosen :
        (count : ℕ) (candidates : List Candidate)
        → countable count ≡ true
        → (b : Bool) → is_observation r.mode ≡ b
        → (c : Completed) × ((if b
              then sent config r count observed []
              else sent_selection config r count
                  (decide valid_ratio share config.policy count candidates))
            ≡ some c)
          × IsCompletion config r c
    unfolding valid_fallback_reason
    chosen count candidates n true e =
        encoded count observed [] (empty_outcome observed count refl refl (sym e))
    chosen count candidates n false e = encoded count _ _ (decided count candidates n e)

    analysis-IsCompletion :
        (analysis : Analysis)
        → countable_outcome downloaded analysis ≡ true
        → (c : Completed) × (complete_analysis valid_ratio share policy_digest completion_event_id
              config r analysis
            ≡ some c)
          × IsCompletion config r c
    unfolding valid_fallback_reason encode_completion complete_analysis selection_fallback
        parser_fallback
    analysis-IsCompletion (analysis_failed expired) n =
        encoded 0 _ []
          (failed_outcome (parser_fallback expired) (ground arith) (ground arith) (ground arith))
    analysis-IsCompletion (analyzed count candidates) n =
        let small : (count == 0 || ltb max_uint32 count) ≡ false = ground arith in
        rw (analysis-same count candidates small)
          (chosen count candidates n (is_observation r.mode) refl)

    process-same :
        (got : Download) (analysis : Analysis)
        → process valid_ratio share policy_digest completion_event_id config r got analysis
          ≡ elim got [
            | downloaded ↦
                complete_analysis valid_ratio share policy_digest completion_event_id config r
                  analysis
            | failed ↦
                sent config r 0
                  (if is_observation r.mode then observed else source_fallback failed)
                  []
          ]
    unfolding process
    process-same got analysis = rw (ready.same_version, ready.same_parser, ready.same_digest) refl

    -- For a service that the constructor has made and a request that passes its checks and is of the
    -- service's policy, selector and parser, when the time of the request and the digest of the model
    -- are not zero and the identifier of the completion is safe: there is a completion whatever the
    -- download gives and whatever the analyzer gives, but that the number of locations of a document
    -- has to be in the range from 1 to the greatest uint32. The completion repeats the request, has a
    -- fallback or at least one location, names the fallback of observation exactly in that mode, and its
    -- ranges are in order within the document, none without a listed reason, no two that could be one,
    -- at most as many as the policy allows and with no more locations than its share.
    pub process-IsCompletion :
        (got : Download) (analysis : Analysis)
        → countable_outcome got analysis ≡ true
        → (c : Completed) × (process valid_ratio share policy_digest completion_event_id config r
              got analysis
            ≡ some c)
          × IsCompletion config r c
    unfolding source_fallback valid_fallback_reason
    process-IsCompletion downloaded analysis n =
        rw (process-same downloaded analysis) (analysis-IsCompletion analysis n)
    process-IsCompletion (source_unavailable expired) analysis n =
        rw (process-same (source_unavailable expired) analysis) (
          encoded 0 _ [] (
            failed_outcome (source_fallback (source_unavailable expired)) (ground arith)
              (ground arith) (ground arith)))
    process-IsCompletion (source_integrity expired) analysis n =
        rw (process-same (source_integrity expired) analysis) (
          encoded 0 _ [] (
            failed_outcome (source_fallback (source_integrity expired)) (ground arith)
              (ground arith) (ground arith)))

    -- In observation mode there is no completion for a document of no location, or of more than the
    -- greatest uint32.
    pub process_refuses :
        (count : ℕ) (candidates : List Candidate)
        → is_observation r.mode ≡ true
        → countable count ≡ false
        → process valid_ratio share policy_digest completion_event_id config r downloaded
            (analyzed count candidates)
          ≡ none
    unfolding complete_analysis encode_completion completion_of valid_completion
    process_refuses count candidates o n =
        let large : (count == 0 || ltb max_uint32 count) ≡ true = ground arith in
        rw (process-same downloaded (analyzed count candidates), large) (ground (arith, o))
