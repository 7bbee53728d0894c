-- ===== src/Answer/Cache/Hits.antt =====
-- What a lookup of the cache returns.
use raglibrarian.Base.{
  ℕ, ◌+◌, ◌<◌, ◌≡◌, ◌⊎◌, refl, sym, ap, subst, ◌∙◌, true, List, [], ◌∷◌, Option, none, some, All,
  arith, inl, inr, Bool-cases, ltb→lt, ok, pos_part,
}
use raglibrarian.Answer.Cache.Query.{CacheOutcome, bypass, hit}
use raglibrarian.Answer.Cache.Tokens.{cacheable_search, queries_match}
use raglibrarian.Answer.Cache.Fingerprint.{evidence_projection_fingerprints}
use raglibrarian.Answer.Cache.Store.{
  CachePolicy, CacheEntry, AnswerCache, Environment, Examined, other_key, found, missed,
  cache_match_hit, cached_segments_match_evidence, projections_match, live, prune_expired,
  next_index, preferred_cache_miss_outcome,
}
use raglibrarian.Answer.Cache.Operations.{
  Ask, Answered, CacheCall, key_eq, key_of, query_of, examine, scan, first_outcome, taken,
  lookup_entry, lookup, run, new_answer_cache,
}
use raglibrarian.Answer.Cache.Entries.{keep-All}
use raglibrarian.Answer.Cache.History.{Stored, Holds, Made-Stored, new-Holds, run-Holds}

pub Examined-cases :
    (x : Examined) → (x ≡ found) ⊎ ((x ≡ other_key) ⊎ ((o : CacheOutcome) × (x ≡ missed o)))
Examined-cases found = inl refl
Examined-cases other_key = inr (inl refl)
Examined-cases (missed o) = inr (inr (o, refl))

next_index-some :
    (o : Option (ℕ × CacheEntry)) (i : ℕ) (e : CacheEntry)
    → next_index o ≡ some (i, e)
    → (j : ℕ) × (o ≡ some (j, e))
next_index-some none i e h = ground arith
next_index-some (some (j, g)) i e h = (j, cc)

module _ (env : Environment) where
  -- The loop returns an entry that passes the test.
  scan-some :
      (P : CacheEntry → Type 0) (test : CacheEntry → Examined) (es : List CacheEntry)
      (outcome : CacheOutcome) (i : ℕ) (e : CacheEntry)
      → All P es
      → (scan env test outcome es).0 ≡ some (i, e)
      → P e × (test e ≡ found) × ((scan env test outcome es).1 ≡ hit)
  unfolding scan
  scan-some P test [] outcome i e a h = ground arith
  scan-some P test (g ∷ es) outcome i e a h = elim (Examined-cases (test g)) [
    | inl passed ↦
        let start : (scan env test outcome (g ∷ es)).0 ≡ some (0, g) = rw (scan, passed) refl in
        let same : g ≡ e = cc in
        (subst P same a.0, ap test (sym same) ∙ passed, rw (scan, passed) refl)
    | inr (inl other) ↦
        let later = scan env test outcome es in
        let start : (scan env test outcome (g ∷ es)).0 ≡ next_index later.0 =
          rw (scan, other) refl in
        let (j, there) = next_index-some later.0 i e (sym start ∙ h) in
        let (p, t, o) = scan-some P test es outcome j e a.1 there in (p, t, rw (scan, other) o)
    | inr (inr (o, failed)) ↦
        let outcome' = preferred_cache_miss_outcome outcome o in
        let later = scan env test outcome' es in
        let start : (scan env test outcome (g ∷ es)).0 ≡ next_index later.0 =
          rw (scan, failed) refl in
        let (j, there) = next_index-some later.0 i e (sym start ∙ h) in
        let (p, t, last) = scan-some P test es outcome' j e a.1 there in
        (p, t, rw (scan, failed) last)
  ]

  -- What the test of an entry against a question has to say for the entry to be returned.
  pub record Serves (policy : CachePolicy) (ask : Ask) (e : CacheEntry) : Type 0 where
    pub same_key : key_eq env e.key (key_of env policy ask) ≡ true
    pub same_question :
        queries_match env.floats (query_of env ask) e.query policy.minimum_cosine ≡ hit
    pub cited : cached_segments_match_evidence e.segments ask.evidence ≡ true
    pub unchanged :
        projections_match e.segments e.evidence_projection
          (evidence_projection_fingerprints env.hash ask.evidence)
        ≡ true

  cache_match_hit-eq : (o : CacheOutcome) → cache_match_hit o ≡ true → o ≡ hit
  unfolding cache_match_hit
  cache_match_hit-eq o h = ground arith

  examine-Serves :
      (policy : CachePolicy) (ask : Ask) (e : CacheEntry)
      → examine env policy (key_of env policy ask) (query_of env ask) ask.evidence e ≡ found
      → Serves policy ask e
  unfolding examine
  examine-Serves policy ask e h = record {
    same_key = ground arith;
    same_question =
        cache_match_hit-eq
          (queries_match env.floats (query_of env ask) e.query policy.minimum_cosine)
          (ground arith);
    cited = ground arith;
    unchanged = ground arith;
  }

  -- What holds of an entry that `lookup` returns.
  pub record Hit (policy : CachePolicy) (calls : List CacheCall) (ask : Ask) (e : CacheEntry)
      (outcome : CacheOutcome) : Type 0 where
    pub stored : Stored env policy calls e
    pub fresh : ask.now < e.created + pos_part policy.ttl
    pub serves : Serves policy ask e
    pub is_hit : outcome ≡ hit

  taken-some :
      (c : AnswerCache) (r : Option (ℕ × CacheEntry) × CacheOutcome) (e : CacheEntry)
      (outcome : CacheOutcome)
      → (taken env c r).1 ≡ (some e, outcome)
      → ((i : ℕ) × (r.0 ≡ some (i, e))) × (r.1 ≡ outcome)
  taken-some c (none, o) e outcome h =
      let wrong : ◌≡◌ {A = Option CacheEntry} none (some e) = ap (λ (p : Answered). p.0) h in
      absurd cc
  taken-some c (some (i, g), o) e outcome h =
      let same : ◌≡◌ {A = Option CacheEntry} (some g) (some e) = ap (λ (p : Answered). p.0) h in
      let entries_eq : g ≡ e = cc in
      ((i, ap (λ x. some (i, x)) entries_eq), ap (λ (p : Answered). p.1) h)

  lookup_entry-Hit :
      (c : AnswerCache) (policy : CachePolicy) (calls : List CacheCall) (ask : Ask) (e : CacheEntry)
      (outcome : CacheOutcome)
      → c.policy ≡ policy
      → All (Stored env policy calls) c.entries
      → (lookup_entry env c ask).1 ≡ (some e, outcome)
      → Hit policy calls ask e outcome
  unfolding lookup_entry prune_expired
  lookup_entry-Hit c policy calls ask e outcome same a h =
      let pruned = prune_expired ask.now c in
      let test = examine env c.policy (key_of env c.policy ask) (query_of env ask) ask.evidence in
      let result = scan env test (first_outcome c pruned) pruned.entries in
      let ((i, at), o) = taken-some pruned result e outcome h in
      let Fine : CacheEntry → Type 0 =
        λ x. Stored env policy calls x × (live c.policy ask.now x ≡ true) in
      let all_fine : All Fine pruned.entries =
        keep-All (Stored env policy calls) (live c.policy ask.now) c.entries a in
      let (fine, passes, is_hit) =
        scan-some Fine test pruned.entries (first_outcome c pruned) i e all_fine at in
      record {
        stored = fine.0;
        fresh =
            subst (λ q. ask.now < e.created + pos_part q.ttl) same
              (ltb→lt ask.now (e.created + pos_part c.policy.ttl) fine.1);
        serves = examine-Serves policy ask e (
            subst (λ q. examine env q (key_of env q ask) (query_of env ask) ask.evidence e ≡ found)
              same passes);
        is_hit = sym o ∙ is_hit;
      }

  lookup-Hit :
      (o : Option AnswerCache) (policy : CachePolicy) (calls : List CacheCall) (ask : Ask)
      (e : CacheEntry) (outcome : CacheOutcome)
      → Holds env policy (Stored env policy calls) o
      → (lookup env o ask).1 ≡ (some e, outcome)
      → Hit policy calls ask e outcome
  unfolding lookup
  lookup-Hit none policy calls ask e outcome v h =
      let wrong : ◌≡◌ {A = Option CacheEntry} none (some e) = ap (λ (p : Answered). p.0) h in
      absurd cc
  lookup-Hit (some c) policy calls ask e outcome v h =
      elim (Bool-cases (cacheable_search env.floats ask.search)) [
        | inl on ↦
            let start : (lookup env (some c) ask).1 ≡ (lookup_entry env c ask).1 = rw on refl in
            lookup_entry-Hit c policy calls ask e outcome v.0 v.1 (sym start ∙ h)
        | inr off ↦
            let start : (lookup env (some c) ask).1 ≡ (none, bypass) = rw off refl in
            let wrong : ◌≡◌ {A = Option CacheEntry} none (some e) =
              ap (λ (p : Answered). p.0) (sym start ∙ h) in
            absurd cc
      ]

  -- Whatever lookups and stores came before, an entry that a lookup returns is what one of the stores
  -- made, is younger than the life of an entry, has the key of the question and a question that
  -- matches, and cites only evidence of the question that has not changed since.
  pub run-lookup-Hit :
      (policy : CachePolicy) (o : Option AnswerCache) (calls : List CacheCall) (ask : Ask)
      (e : CacheEntry) (outcome : CacheOutcome)
      → new_answer_cache env policy ≡ ok o
      → (lookup env (run env o calls) ask).1 ≡ (some e, outcome)
      → Hit policy calls ask e outcome
  run-lookup-Hit policy o calls ask e outcome made h =
      lookup-Hit (run env o calls) policy calls ask e outcome
        (run-Holds env policy (Stored env policy calls) calls o
          (Made-Stored env policy (Stored env policy calls) calls (λ g s. s))
          (new-Holds env policy (Stored env policy calls) o made))
        h
