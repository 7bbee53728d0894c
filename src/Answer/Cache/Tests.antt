-- ===== src/Answer/Cache/Tests.antt =====
-- A cache of two entries with one stored answer.
use raglibrarian.Base.{
  ℕ, ◌+◌, ◌*◌, ◌/◌, ◌≡◌, ◌⊎◌, refl, true, List, [], ◌∷◌, none, some, arith, leb, ltb, ◌==◌, ==_refl,
  ◌||◌, ◌&&◌, Text, literal, text_eq, is_space, trim_left, trim_right, trim_space, is_blank,
  rune_width, byte_len, member, fields, join, ok, pos,
}
use raglibrarian.Answer.Evidence.{ContextEvidence}
use raglibrarian.Answer.Output.{AnswerSegment, digits}
use raglibrarian.Answer.Request.{SearchRequest}
use raglibrarian.Answer.Cache.Query.{
  Unicode, Floats, hit, mode_text, text_less, insert_text, sort_texts, sorted_set, insert_mode,
  sort_modes, drop_words, has, has_phrase, same_tokens, same_answer_modes, trim_start, trim_end,
  trim_guard, add_guard_word,
}
use raglibrarian.Answer.Cache.Tokens.{
  named_modes, modes_or_overview, query_words, normalize_query, topic_tokens, detect_answer_modes,
  split_guard_words, raw_guard_words, scan_symbols, symbolic_word, symbolic_language_guard,
  has_digit, guard_token, guard_words, guard_tokens, new_query_match, add_products, cosine_of,
  cosine_similarity, valid_embedding, cacheable_search, queries_match,
}
use raglibrarian.Answer.Cache.Fingerprint.{
  itoa, format_int, field_frame, field_frames, projected_fields, fingerprint_fields,
  evidence_projection_fingerprint, add_projections, evidence_projection_fingerprints, quoted,
  quoted_evidence, evidence_fingerprint, auth_scope_fingerprint, year_text, quoted_filters,
  canonical_filters,
}
use raglibrarian.Answer.Cache.Store.{
  CachePolicy, CacheEntry, AnswerCache, Environment, cache_miss_outcome_priority,
  preferred_cache_miss_outcome, cache_match_hit, cached_segments_match_evidence, find_text,
  same_projection, projections_match, prune_expired, touch, replace,
}
use raglibrarian.Answer.Cache.Operations.{
  Ask, CacheCall, put, look, first_outcome, new_answer_cache, key_eq, key_of, query_of, examine,
  scan, lookup_entry, lookup, entry_of, equivalent_cache_entry, find_equivalent, put_entry,
  store_entry, store, run,
}
use raglibrarian.Answer.Cache.Fingerprint.Injective.{field_frame-split}
use raglibrarian.Answer.Cache.Fingerprint.Scope.{Collision}
use raglibrarian.Answer.Cache.Invariant.{Sound, replacements, calls-Sound}
use raglibrarian.Answer.Cache.Hits.{Hit, run-lookup-Hit}
use raglibrarian.Answer.Cache.Owners.{StoredFor, run-lookup-StoredFor}
use raglibrarian.Answer.Cache.Repeats.{Named}
use raglibrarian.Answer.Cache.Recall.{store-lookup}

program : Unit {0}
unfolding text_eq is_space trim_left trim_right trim_space is_blank rune_width byte_len member
    fields join digits mode_text text_less insert_text sort_texts sorted_set insert_mode sort_modes
    drop_words has has_phrase same_tokens same_answer_modes trim_start trim_end trim_guard
    add_guard_word named_modes modes_or_overview query_words normalize_query topic_tokens
    detect_answer_modes split_guard_words raw_guard_words scan_symbols symbolic_word
    symbolic_language_guard has_digit guard_token guard_words guard_tokens new_query_match
    add_products cosine_of cosine_similarity valid_embedding cacheable_search queries_match itoa
    format_int field_frame field_frames projected_fields fingerprint_fields
    evidence_projection_fingerprint add_projections evidence_projection_fingerprints quoted
    quoted_evidence evidence_fingerprint auth_scope_fingerprint year_text quoted_filters
    canonical_filters cache_miss_outcome_priority preferred_cache_miss_outcome cache_match_hit
    cached_segments_match_evidence find_text same_projection projections_match prune_expired touch
    replace first_outcome new_answer_cache key_eq key_of query_of examine scan lookup_entry lookup
    entry_of equivalent_cache_entry find_equivalent put_entry store_entry store run
program = tt

abbrev unicode : Unicode
unicode = record {
  is_letter = λ c. (leb b'a' c && leb c b'z') || (leb b'A' c && leb c b'Z');
  is_number = λ c. leb b'0' c && leb c b'9';
  is_digit = λ c. leb b'0' c && leb c b'9';
  to_lower = λ s. s;
}

-- Whole numbers in place of floats; the vectors have one number, 1.
abbrev floats : Floats
floats = record {
  widen = λ a. a;
  is_finite = λ a. true;
  plus = λ a b. a + b;
  times = λ a b. a * b;
  divide = λ a b. a / b;
  square_root = λ a. a;
  less = ltb;
  same = λ a b. a == b;
  float_zero = 0;
  float_one = 1;
  minus_one = 0;
}

abbrev environment : Environment
environment = record { unicode = unicode; floats = floats; hash = λ s. s; quote = field_frame }

same_comm : (x y : ℕ) → (x == y) ≡ (y == x)
same_comm x y = ground arith

same_trans : (x y z : ℕ) → (x == y) ≡ true → (y == z) ≡ true → (x == z) ≡ true
same_trans x y z h k = ground arith

abbrev policy : CachePolicy
policy = record {
  capacity = pos 2;
  ttl = pos 1000000000;
  minimum_cosine = 1;
  generator_profile = literal "g";
}

abbrev cache : AnswerCache
cache = record {
  policy = policy;
  entries = [];
  stores = 0;
  evictions = 0;
  expired = 0;
  sequence = 0;
}

abbrev request : SearchRequest
request = record {
  question = literal "why salt";
  filters = record { tags = []; author = []; year_from = none; year_to = none };
  limit = 3;
  actor = record { user_id = literal "u"; role = literal "reader"; status = literal "active" };
  correlation_id = [];
  minimum_evidence_score = 0;
  include_query_match_metadata = true;
}

abbrev piece : ContextEvidence
piece = record {
  evidence_id = literal "e";
  passage = literal "p";
  title = literal "t";
  author = [];
  chapter = [];
  section = [];
  page_start = 1;
  page_end = 2;
}

abbrev ask_at : ℕ → Ask
ask_at now = record {
  now = now;
  request = request;
  search = record {
    embedding_profile = literal "m";
    retrieval_profile = literal "r";
    query_embedding = 1 ∷ [];
  };
  evidence = piece ∷ [];
}

abbrev segments : List AnswerSegment
segments = record { text = literal "Salt."; evidence_ids = literal "e" ∷ [] } ∷ []

abbrev calls : List CacheCall
calls = put (ask_at 5) segments ∷ look (ask_at 7) ∷ []

abbrev stored : CacheEntry
stored = entry_of environment policy (ask_at 5) segments

made : new_answer_cache environment policy ≡ ok (some cache)
unfolding program
made = refl

found_again :
    (lookup environment (run environment (some cache) calls) (ask_at 9)).1 ≡ (some stored, hit)
unfolding program
found_again = refl

-- The life of the entry has ended.
gone : (lookup environment (run environment (some cache) calls) (ask_at 1000000005)).1.0 ≡ none
unfolding program
gone = refl

calls-Sound_example :
    Sound environment
      (replacements environment (some cache) calls)
      (run environment (some cache) calls)
calls-Sound_example = calls-Sound environment same_comm same_trans policy (some cache) calls made

run-lookup-Hit_example : Hit environment policy calls (ask_at 9) stored hit
run-lookup-Hit_example =
    run-lookup-Hit environment policy (some cache) calls (ask_at 9) stored hit made found_again

run-lookup-StoredFor_example :
    StoredFor environment policy (ask_at 9) calls stored ⊎ Collision (λ (s : Text). s)
run-lookup-StoredFor_example =
    run-lookup-StoredFor environment field_frame-split policy (some cache) calls (ask_at 9) stored
      hit made found_again

cacheable : cacheable_search floats (ask_at 5).search ≡ true
unfolding program
cacheable = refl

named : Named environment (ask_at 5).evidence
unfolding program
named [] h = absurd (ground arith)
named (c ∷ id) h = refl

cited : cached_segments_match_evidence segments (ask_at 5).evidence ≡ true
unfolding program
cited = refl

store-lookup_example :
    (e : CacheEntry) × ((lookup environment
        (run environment
          (store environment (some cache) (ask_at 5) segments)
          (look (ask_at 6) ∷ look (ask_at 7) ∷ []))
        (ask_at 8)).1
      ≡ (some e, hit))
store-lookup_example =
    store-lookup environment cache (ask_at 5) segments (ask_at 6 ∷ ask_at 7 ∷ []) 8 cacheable
      (==_refl 0) named cited (omega arith, (omega arith, tt)) (omega arith)
