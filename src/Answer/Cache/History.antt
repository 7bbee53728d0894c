-- ===== src/Answer/Cache/History.antt =====
-- Where an entry that the cache returns comes from.
use raglibrarian.Base.{
  ℕ, ◌≡◌, ◌⊎◌, refl, sym, subst, List, [], ◌∷◌, Option, none, some, All, arith, inl, inr, drop,
  ◌==◌, length, Bool-cases, ok, pos_part, All-append,
}
use raglibrarian.Answer.Output.{AnswerSegment}
use raglibrarian.Answer.Cache.Query.{CacheOutcome}
use raglibrarian.Answer.Cache.Tokens.{cacheable_search}
use raglibrarian.Answer.Cache.Store.{
  CachePolicy, CacheEntry, AnswerCache, Environment, live, prune_expired, replace,
}
use raglibrarian.Answer.Cache.Operations.{
  Ask, CacheCall, look, put, taken, lookup_entry, lookup, entry_of, put_entry, store_entry, store,
  run, new_answer_cache,
}
use raglibrarian.Answer.Cache.Entries.{All-touch, All-replace, All-drop, All-keep}

module _ (env : Environment) (policy : CachePolicy) where
  -- An entry is what one of the stores made.
  abbrev pub Stored : List CacheCall → CacheEntry → Type 0
  Stored [] e = ⊥
  Stored (look ask ∷ calls) e = Stored calls e
  Stored (put ask segments ∷ calls) e = (e ≡ entry_of env policy ask segments) ⊎ Stored calls e

  module _ (P : CacheEntry → Type 0) where
    -- A property that the stores give to what they make.
    abbrev pub Made : List CacheCall → Type 0
    Made [] = Unit
    Made (look ask ∷ calls) = Made calls
    Made (put ask segments ∷ calls) = P (entry_of env policy ask segments) × Made calls

    -- The cache has the policy, and its entries the property.
    abbrev pub Holds : Option AnswerCache → Type 0
    Holds none = Unit
    Holds (some c) = (c.policy ≡ policy) × All P c.entries

    taken-Holds :
        (c : AnswerCache) (r : Option (ℕ × CacheEntry) × CacheOutcome)
        → Holds (some c)
        → Holds (some (taken env c r).0)
    taken-Holds c (none, outcome) h = h
    taken-Holds c (some (i, e), outcome) h = (h.0, All-touch P i c.entries h.1)

    lookup-Holds : (o : Option AnswerCache) (ask : Ask) → Holds o → Holds (lookup env o ask).0
    unfolding lookup lookup_entry prune_expired
    lookup-Holds none ask h = tt
    lookup-Holds (some c) ask h = elim (Bool-cases (cacheable_search env.floats ask.search)) [
      | inl on ↦ rw on (
          taken-Holds (prune_expired ask.now c) _
            (h.0, All-keep P (live c.policy ask.now) c.entries h.1))
      | inr off ↦ rw off h
    ]

    put_entry-Holds :
        (entry : CacheEntry) (c : AnswerCache) (o : Option ℕ)
        → P entry
        → Holds (some c)
        → Holds (some (put_entry env entry c o))
    unfolding put_entry
    put_entry-Holds entry c (some i) p h =
        (h.0, All-touch P i (replace i entry c.entries) (All-replace P i entry c.entries p h.1))
    put_entry-Holds entry c none p h =
        elim (Bool-cases (length c.entries == pos_part c.policy.capacity)) [
          | inl full ↦ rw full (
            h.0,
            All-append P (drop 1 c.entries) (entry ∷ []) (All-drop P 1 c.entries h.1) (p, tt),
          )
          | inr room ↦ rw room (h.0, All-append P c.entries (entry ∷ []) h.1 (p, tt))
        ]

    store-Holds :
        (o : Option AnswerCache) (ask : Ask) (segments : List AnswerSegment)
        → P (entry_of env policy ask segments)
        → Holds o
        → Holds (store env o ask segments)
    unfolding store store_entry prune_expired
    store-Holds none ask segments p h = tt
    store-Holds (some c) ask segments p h =
        elim (Bool-cases (cacheable_search env.floats ask.search)) [
          | inl on ↦ rw on (
              put_entry-Holds (entry_of env c.policy ask segments) _ _
                (subst (λ q. P (entry_of env q ask segments)) (sym h.0) p)
                (h.0, All-keep P (live c.policy ask.now) c.entries h.1))
          | inr off ↦ rw off h
        ]

    pub run-Holds :
        (calls : List CacheCall) (o : Option AnswerCache)
        → Made calls
        → Holds o
        → Holds (run env o calls)
    unfolding run
    run-Holds [] o m h = h
    run-Holds (look ask ∷ calls) o m h =
        run-Holds calls (lookup env o ask).0 m (lookup-Holds o ask h)
    run-Holds (put ask segments ∷ calls) o m h =
        run-Holds calls (store env o ask segments) m.1 (store-Holds o ask segments m.0 h)

  pub Made-Stored :
      (P : CacheEntry → Type 0) (calls : List CacheCall)
      → ((e : CacheEntry) → Stored calls e → P e)
      → Made P calls
  Made-Stored P [] h = tt
  Made-Stored P (look ask ∷ calls) h = Made-Stored P calls h
  Made-Stored P (put ask segments ∷ calls) h =
      (h (entry_of env policy ask segments) (inl refl), Made-Stored P calls (λ e s. h e (inr s)))

  pub new-Holds :
      (P : CacheEntry → Type 0) (o : Option AnswerCache)
      → new_answer_cache env policy ≡ ok o
      → Holds P o
  unfolding new_answer_cache
  new-Holds P none h = tt
  new-Holds P (some c) h = ground arith
