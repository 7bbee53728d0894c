-- ===== src/Answer/Cache/Invariant.antt =====
-- What holds of the cache between two calls.
use raglibrarian.Base.{
  ℕ, ◌+◌, ◌≤◌, ◌<◌, ◌≡◌, refl, ◌∙◌, true, false, List, [], ◌∷◌, ◌++◌, Option, none, some, arith,
  length, length-append, length-drop, length-keep-le, drop, inl, inr, Bool-cases, ok, pos_part,
  ◌==◌, subst, if◌then◌else◌,
}
use raglibrarian.Answer.Output.{AnswerSegment}
use raglibrarian.Answer.Cache.Query.{CacheOutcome}
use raglibrarian.Answer.Cache.Tokens.{cacheable_search}
use raglibrarian.Answer.Cache.Store.{
  CachePolicy, CacheEntry, AnswerCache, Environment, live, prune_expired, replace,
}
use raglibrarian.Answer.Cache.Operations.{
  Ask, equivalent_cache_entry, find_equivalent, put_entry, store_entry, store, entry_of,
  lookup_entry, lookup, taken, new_answer_cache, CacheCall, look, put, run,
}
use raglibrarian.Answer.Cache.Entries.{
  length-touch, length-replace, All-drop, Apart, Apart-append, Apart-drop, Apart-keep, Apart-touch,
}
use raglibrarian.Answer.Cache.Likeness.{alike_comm, find_equivalent-none, put-Apart}

-- The stores of a call that put a new entry in the place of an equivalent one: none or one.
abbrev pub replaced : Option ℕ → ℕ
replaced none = 0
replaced (some i) = 1

abbrev pub replacement : Environment → Option AnswerCache → Ask → List AnswerSegment → ℕ
replacement env none ask segments = 0
replacement env (some c) ask segments =
    if cacheable_search env.floats ask.search
    then replaced
        (find_equivalent env (entry_of env c.policy ask segments) (prune_expired ask.now c).entries)
    else 0

-- How many stores of a run did so.
unfoldable pub replacements : Environment → Option AnswerCache → List CacheCall → ℕ
replacements env o [] = 0
replacements env o (look ask ∷ calls) = replacements env (lookup env o ask).0 calls
replacements env o (put ask segments ∷ calls) =
    replacement env o ask segments + replacements env (store env o ask segments) calls

-- `n` is the number of replacements so far. Every entry that was stored is there, or has been counted as
-- evicted or expired, or was replaced.
pub record WellFormed (env : Environment) (n : ℕ) (c : AnswerCache) : Type 0 where
  pub roomy : 1 ≤ pos_part c.policy.capacity
  pub bounded : length c.entries ≤ pos_part c.policy.capacity
  pub apart : Apart (equivalent_cache_entry env) c.entries
  pub counted : length c.entries + c.evictions + c.expired + n ≡ c.stores

-- A cache that is switched off has nothing to keep.
abbrev pub Sound : Environment → ℕ → Option AnswerCache → Type 0
Sound env n none = Unit
Sound env n (some c) = WellFormed env n c

module _ (env : Environment) (same_comm : (x y : ℕ) → env.floats.same x y ≡ env.floats.same y x)
    (same_trans : (x y z : ℕ)
      → env.floats.same x y ≡ true
      → env.floats.same y z ≡ true
      → env.floats.same x z ≡ true) where
  prune_expired-WellFormed :
      (n now : ℕ) (c : AnswerCache) → WellFormed env n c → WellFormed env n (prune_expired now c)
  unfolding prune_expired
  prune_expired-WellFormed n now c v =
      let fewer = length-keep-le (live c.policy now) c.entries in
      record {
        roomy = v.roomy;
        bounded = omega (arith, v.bounded, fewer);
        apart = Apart-keep (equivalent_cache_entry env) (live c.policy now) c.entries v.apart;
        counted = omega (arith, v.counted, fewer);
      }

  taken-WellFormed :
      (n : ℕ) (c : AnswerCache) (r : Option (ℕ × CacheEntry) × CacheOutcome)
      → WellFormed env n c
      → WellFormed env n (taken env c r).0
  taken-WellFormed n c (none, outcome) v = v
  taken-WellFormed n c (some (i, e), outcome) v = record {
    roomy = v.roomy;
    bounded = rw (length-touch i c.entries) v.bounded;
    apart =
        Apart-touch (equivalent_cache_entry env) (alike_comm env same_comm same_trans) i c.entries
          v.apart;
    counted = rw (length-touch i c.entries) v.counted;
  }

  evict-WellFormed :
      (n : ℕ) (entry : CacheEntry) (c : AnswerCache)
      → length c.entries ≡ pos_part c.policy.capacity
      → find_equivalent env entry c.entries ≡ none
      → WellFormed env n c
      → WellFormed env n (record c {
        entries = drop 1 c.entries ++ (entry ∷ []);
        evictions = c.evictions + 1;
        stores = c.stores + 1;
        sequence = c.sequence + 1;
      })
  evict-WellFormed n entry c full h v =
      let others = find_equivalent-none env same_comm same_trans entry c.entries h in
      let added = length-append (drop 1 c.entries) (entry ∷ []) in
      let fewer = length-drop 1 c.entries in
      record {
        roomy = v.roomy;
        bounded = omega (arith, v.roomy, v.bounded, added, fewer);
        apart =
            Apart-append (equivalent_cache_entry env) (drop 1 c.entries) entry
              (All-drop (λ x. equivalent_cache_entry env x entry ≡ false) 1 c.entries others)
              (Apart-drop (equivalent_cache_entry env) 1 c.entries v.apart);
        counted = omega (arith, v.roomy, v.counted, added, fewer, full);
      }

  append-WellFormed :
      (n : ℕ) (entry : CacheEntry) (c : AnswerCache)
      → length c.entries < pos_part c.policy.capacity
      → find_equivalent env entry c.entries ≡ none
      → WellFormed env n c
      → WellFormed env n (record c {
        entries = c.entries ++ (entry ∷ []);
        stores = c.stores + 1;
        sequence = c.sequence + 1;
      })
  append-WellFormed n entry c room h v =
      let others = find_equivalent-none env same_comm same_trans entry c.entries h in
      let added = length-append c.entries (entry ∷ []) in
      record {
        roomy = v.roomy;
        bounded = omega (arith, added);
        apart = Apart-append (equivalent_cache_entry env) c.entries entry others v.apart;
        counted = omega (arith, v.counted, added);
      }

  -- `c` is the cache with its counters raised.
  put_entry-WellFormed :
      (n : ℕ) (entry : CacheEntry) (c : AnswerCache) (o : Option ℕ)
      → find_equivalent env entry c.entries ≡ o
      → WellFormed env n c
      → WellFormed env
          (n + replaced o)
          (put_entry env entry (record c { stores = c.stores + 1; sequence = c.sequence + 1 }) o)
  unfolding put_entry
  put_entry-WellFormed n entry c (some i) h v =
      let length_kept =
        length-touch i (replace i entry c.entries) ∙ length-replace i entry c.entries in
      record {
        roomy = v.roomy;
        bounded = rw length_kept v.bounded;
        apart = put-Apart env same_comm same_trans entry c.entries i h v.apart;
        counted = rw length_kept (omega (arith, v.counted));
      }
  put_entry-WellFormed n entry c none h v =
      let w : WellFormed env (n + 0) c = subst (λ m. WellFormed env m c) (omega arith) v in
      elim (Bool-cases (length c.entries == pos_part c.policy.capacity)) [
        | inl full ↦ rw full (evict-WellFormed (n + 0) entry c (ground arith) h w)
        | inr room ↦ rw room (append-WellFormed (n + 0) entry c (ground (arith, v.bounded)) h w)
      ]

  pub lookup-Sound :
      (n : ℕ) (o : Option AnswerCache) (ask : Ask)
      → Sound env n o
      → Sound env n (lookup env o ask).0
  unfolding lookup lookup_entry
  lookup-Sound n none ask v = tt
  lookup-Sound n (some c) ask v = elim (Bool-cases (cacheable_search env.floats ask.search)) [
    | inl on ↦
        rw on
          (taken-WellFormed n (prune_expired ask.now c) _ (prune_expired-WellFormed n ask.now c v))
    | inr off ↦ rw off v
  ]

  pub store-Sound :
      (n : ℕ) (o : Option AnswerCache) (ask : Ask) (segments : List AnswerSegment)
      → Sound env n o
      → Sound env (n + replacement env o ask segments) (store env o ask segments)
  unfolding store store_entry
  store-Sound n none ask segments v = tt
  store-Sound n (some c) ask segments v =
      let entry = entry_of env c.policy ask segments in
      let pruned = prune_expired ask.now c in
      elim (Bool-cases (cacheable_search env.floats ask.search)) [
        | inl on ↦ rw on (
            put_entry-WellFormed n entry pruned (find_equivalent env entry pruned.entries) refl
              (prune_expired-WellFormed n ask.now c v))
        | inr off ↦ rw off (subst (λ m. WellFormed env m c) (omega arith) v)
      ]

  pub new-Sound :
      (policy : CachePolicy) (o : Option AnswerCache)
      → new_answer_cache env policy ≡ ok o
      → Sound env 0 o
  unfolding new_answer_cache
  new-Sound policy none h = tt
  new-Sound policy (some c) h = ground arith

  run_from-Sound :
      (calls : List CacheCall) (n : ℕ) (o : Option AnswerCache)
      → Sound env n o
      → Sound env (n + replacements env o calls) (run env o calls)
  unfolding run replacements
  run_from-Sound [] n o v = subst (λ m. Sound env m o) (omega arith) v
  run_from-Sound (look ask ∷ calls) n o v =
      run_from-Sound calls n (lookup env o ask).0 (lookup-Sound n o ask v)
  run_from-Sound (put ask segments ∷ calls) n o v =
      let o' = store env o ask segments in
      subst (λ m. Sound env m (run env o' calls)) (omega arith)
        (run_from-Sound calls (n + replacement env o ask segments) o'
          (store-Sound n o ask segments v))

  -- A cache that has been made, after any sequence of lookups and stores: it has at most as many
  -- entries as its capacity, no two of them are equivalent, and the number of stores counted is that of the
  -- entries, of those counted as evicted, of those counted as expired, and of the stores that replaced an
  -- equivalent entry, added up.
  pub calls-Sound :
      (policy : CachePolicy) (o : Option AnswerCache) (calls : List CacheCall)
      → new_answer_cache env policy ≡ ok o
      → Sound env (replacements env o calls) (run env o calls)
  calls-Sound policy o calls h =
      subst (λ m. Sound env m (run env o calls)) (omega arith)
        (run_from-Sound calls 0 o (new-Sound policy o h))
