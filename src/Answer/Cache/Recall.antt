-- ===== src/Answer/Cache/Recall.antt =====
-- What was stored is found again.
use raglibrarian.Base.{
  ℕ, zero, suc, ◌+◌, ◌<◌, ◌≡◌, ◌⊎◌, refl, sym, ap, subst, ◌∙◌, Bool, true, List, [], ◌∷◌, ◌++◌,
  Option, none, some, arith, inl, inr, keep, Bool-cases, Option-cases, lt→ltb, pos_part, length,
  drop, ◌==◌, All, map,
}
use raglibrarian.Answer.Output.{AnswerSegment}
use raglibrarian.Answer.Cache.Query.{CacheOutcome, hit}
use raglibrarian.Answer.Cache.Tokens.{cacheable_search}
use raglibrarian.Answer.Cache.Store.{
  CacheEntry, AnswerCache, Environment, Examined, found, cached_segments_match_evidence, live,
  prune_expired, touch, replace, preferred_cache_miss_outcome,
}
use raglibrarian.Answer.Cache.Operations.{
  Ask, key_of, query_of, examine, scan, first_outcome, taken, lookup_entry, lookup, entry_of,
  find_equivalent, put_entry, store_entry, store, look, run,
}
use raglibrarian.Answer.Cache.Hits.{Examined-cases}
use raglibrarian.Answer.Cache.Repeats.{Named, examine_stored}

abbrev Among : CacheEntry → List CacheEntry → Type 0
Among x [] = ⊥
Among x (e ∷ es) = (x ≡ e) ⊎ Among x es

Among-append-last : (x : CacheEntry) (es : List CacheEntry) → Among x (es ++ (x ∷ []))
Among-append-last x [] = inl refl
Among-append-last x (e ∷ es) = inr (Among-append-last x es)

Among-keep :
    (p : CacheEntry → Bool) (x : CacheEntry) (es : List CacheEntry)
    → p x ≡ true
    → Among x es
    → Among x (keep p es)
Among-keep p x [] h a = absurd a
Among-keep p x (e ∷ es) h (inl same) = rw (sym (ap p same) ∙ h) (inl same)
Among-keep p x (e ∷ es) h (inr there) = elim (Bool-cases (p e)) [
  | inl kept ↦ rw kept (inr (Among-keep p x es h there))
  | inr gone ↦ rw gone (Among-keep p x es h there)
]

Among-append : (x e : CacheEntry) (es : List CacheEntry) → Among x es → Among x (es ++ (e ∷ []))
Among-append x e [] a = absurd a
Among-append x e (g ∷ es) (inl same) = inl same
Among-append x e (g ∷ es) (inr there) = inr (Among-append x e es there)

Among-touch : (x : CacheEntry) (i : ℕ) (es : List CacheEntry) → Among x es → Among x (touch i es)
unfolding touch
Among-touch x i [] a = absurd a
Among-touch x zero (e ∷ es) (inl same) =
    subst (λ g. Among x (es ++ (g ∷ []))) same (Among-append-last x es)
Among-touch x zero (e ∷ es) (inr there) = Among-append x e es there
Among-touch x (suc i) (e ∷ es) (inl same) = inl same
Among-touch x (suc i) (e ∷ es) (inr there) = inr (Among-touch x i es there)

module _ (env : Environment) where
  find_equivalent-Among :
      (entry : CacheEntry) (es : List CacheEntry) (i : ℕ)
      → find_equivalent env entry es ≡ some i
      → Among entry (touch i (replace i entry es))
  unfolding find_equivalent touch replace
  find_equivalent-Among entry [] i h = ground arith
  find_equivalent-Among entry (e ∷ es) zero h = Among-append-last entry es
  find_equivalent-Among entry (e ∷ es) (suc i) h = inr (
      find_equivalent-Among entry es i
        (ground (arith, Option-cases (find_equivalent env entry es))))

  put_entry-Among :
      (entry : CacheEntry) (c : AnswerCache) (o : Option ℕ)
      → find_equivalent env entry c.entries ≡ o
      → Among entry (put_entry env entry c o).entries
  unfolding put_entry
  put_entry-Among entry c (some i) h = find_equivalent-Among entry c.entries i h
  put_entry-Among entry c none h =
      elim (Bool-cases (length c.entries == pos_part c.policy.capacity)) [
        | inl full ↦ rw full (Among-append-last entry (drop 1 c.entries))
        | inr room ↦ rw room (Among-append-last entry c.entries)
      ]

  behind :
      (test : CacheEntry → Examined) (x g : CacheEntry) (es : List CacheEntry)
      → test x ≡ found
      → ¬ (test g ≡ found)
      → Among x (g ∷ es)
      → Among x es
  behind test x g es passes fails (inl same) = absurd (fails (ap test (sym same) ∙ passes))
  behind test x g es passes fails (inr there) = there

  -- The loop returns some entry where one passes the test.
  scan-Among :
      (test : CacheEntry → Examined) (x : CacheEntry) (es : List CacheEntry)
      (outcome : CacheOutcome)
      → test x ≡ found
      → Among x es
      → ((i : ℕ) × (e : CacheEntry) × ((scan env test outcome es).0 ≡ some (i, e)))
        × ((scan env test outcome es).1 ≡ hit)
  unfolding scan
  scan-Among test x [] outcome passes a = absurd a
  scan-Among test x (g ∷ es) outcome passes a = elim (Examined-cases (test g)) [
    | inl passed ↦ ((0, g, rw (scan, passed) refl), rw (scan, passed) refl)
    | inr (inl other) ↦
        let ((i, e, at), o) =
          scan-Among test x es outcome passes (behind test x g es passes (λ p. cc) a) in
        ((suc i, e, rw (scan, other, at) refl), rw (scan, other) o)
    | inr (inr (o, failed)) ↦
        let ((i, e, at), last) =
          scan-Among test x es (preferred_cache_miss_outcome outcome o) passes
            (behind test x g es passes (λ p. cc) a) in
        ((suc i, e, rw (scan, failed, at) refl), rw (scan, failed) last)
  ]

  put_entry-policy :
      (entry : CacheEntry) (c : AnswerCache) (o : Option ℕ)
      → (put_entry env entry c o).policy ≡ c.policy
  unfolding put_entry
  put_entry-policy entry c (some i) = refl
  put_entry-policy entry c none = ground arith

  taken_found :
      (c : AnswerCache) (r : Option (ℕ × CacheEntry) × CacheOutcome) (i : ℕ) (e : CacheEntry)
      → r.0 ≡ some (i, e)
      → r.1 ≡ hit
      → (taken env c r).1 ≡ (some e, hit)
  taken_found c (none, o) i e h k = ground arith
  taken_found c (some (j, g), o) i e h k =
      let same : ◌≡◌ {A = Option CacheEntry} (some g) (some e) =
        ap (λ (p : Option (ℕ × CacheEntry)). elim p [ none ↦ none | some (n, x) ↦ some x ]) h in
      ap (λ x. (x, o)) same ∙ ap (λ x. (some e, x)) k

  lookup_entry-Among :
      (c : AnswerCache) (x : CacheEntry) (ask : Ask)
      → Among x c.entries
      → ask.now < x.created + pos_part c.policy.ttl
      → examine env c.policy (key_of env c.policy ask) (query_of env ask) ask.evidence x ≡ found
      → (e : CacheEntry) × ((lookup_entry env c ask).1 ≡ (some e, hit))
  unfolding lookup_entry prune_expired
  lookup_entry-Among c x ask a fresh passes =
      let pruned = prune_expired ask.now c in
      let test = examine env c.policy (key_of env c.policy ask) (query_of env ask) ask.evidence in
      let kept =
        Among-keep (live c.policy ask.now) x c.entries
          (lt→ltb ask.now (x.created + pos_part c.policy.ttl) fresh) a in
      let ((i, e, at), o) = scan-Among test x pruned.entries (first_outcome c pruned) passes kept in
      (e, taken_found pruned (scan env test (first_outcome c pruned) pruned.entries) i e at o)

  taken-Among :
      (x : CacheEntry) (c : AnswerCache) (r : Option (ℕ × CacheEntry) × CacheOutcome)
      → Among x c.entries
      → Among x (taken env c r).0.entries × ((taken env c r).0.policy ≡ c.policy)
  taken-Among x c (none, o) a = (a, refl)
  taken-Among x c (some (i, e), o) a = (Among-touch x i c.entries a, refl)

  -- Lookups before the end of an entry's life leave it in the cache.
  run-Among :
      (x : CacheEntry) (asks : List Ask) (c : AnswerCache)
      → Among x c.entries
      → All (λ (a : Ask). a.now < x.created + pos_part c.policy.ttl) asks
      → (d : AnswerCache) × (run env (some c) (map look asks) ≡ some d)
        × Among x d.entries
        × (d.policy ≡ c.policy)
  unfolding run lookup lookup_entry prune_expired
  run-Among x [] c a fresh = (c, refl, a, refl)
  run-Among x (ask ∷ asks) c a fresh = elim (Bool-cases (cacheable_search env.floats ask.search)) [
    | inl on ↦
        let pruned = prune_expired ask.now c in
        let kept =
          Among-keep (live c.policy ask.now) x c.entries
            (lt→ltb ask.now (x.created + pos_part c.policy.ttl) fresh.0) a in
        let (there, policy) = taken-Among x pruned _ kept in
        let (d, ran, last, same) = run-Among x asks (lookup_entry env c ask).0 there (
          subst (λ q. All (λ (b : Ask). b.now < x.created + pos_part q.ttl) asks) (sym policy)
            fresh.1) in
        (d, rw (run, on) ran, last, same ∙ policy)
    | inr off ↦
        let (d, ran, last, same) = run-Among x asks c a fresh.1 in
        (d, rw (run, off) ran, last, same)
  ]

  -- An answer is stored; then come any lookups, and the same question with the same evidence, all
  -- before the life of the new entry has ended and without another store: the last lookup returns an
  -- entry. The search can be cached, the least score is equal to itself, every piece of evidence has an
  -- identifier, and the segments cite only that evidence.
  pub store-lookup :
      (c : AnswerCache) (ask : Ask) (segments : List AnswerSegment) (between : List Ask) (later : ℕ)
      → cacheable_search env.floats ask.search ≡ true
      → env.floats.same ask.request.minimum_evidence_score ask.request.minimum_evidence_score ≡ true
      → Named env ask.evidence
      → cached_segments_match_evidence segments ask.evidence ≡ true
      → All (λ (a : Ask). a.now < ask.now + pos_part c.policy.ttl) between
      → later < ask.now + pos_part c.policy.ttl
      → (e : CacheEntry) × ((lookup env
            (run env (store env (some c) ask segments) (map look between))
            (record ask { now = later })).1
          ≡ (some e, hit))
  unfolding store lookup store_entry prune_expired entry_of
  store-lookup c ask segments between later on score named cited young fresh =
      let again : Ask = record ask { now = later } in
      let entry = entry_of env c.policy ask segments in
      let pruned = prune_expired ask.now c in
      let counted = record pruned { stores = pruned.stores + 1; sequence = pruned.sequence + 1 } in
      let found_at = find_equivalent env entry counted.entries in
      let stored = put_entry env entry counted found_at in
      let same : stored.policy ≡ c.policy = put_entry-policy entry counted found_at in
      let (d, ran, there, kept) =
        run-Among entry between stored (put_entry-Among entry counted found_at refl) (
          subst (λ q. All (λ (a : Ask). a.now < entry.created + pos_part q.ttl) between) (sym same)
            young) in
      let (e, looked) =
        lookup_entry-Among d entry again there
          (subst (λ q. later < entry.created + pos_part q.ttl) (sym (kept ∙ same)) fresh)
          (subst
            (λ q.
              examine env q (key_of env q again) (query_of env again) ask.evidence entry ≡ found)
            (sym (kept ∙ same))
            (examine_stored env c.policy ask segments later score named cited)) in
      (e, rw (on, ran, on) looked)
