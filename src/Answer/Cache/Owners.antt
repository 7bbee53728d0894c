-- ===== src/Answer/Cache/Owners.antt =====
-- For whom the answers that a lookup returns were made.
use raglibrarian.Base.{
  ◌≡◌, ◌⊎◌, sym, subst, ◌∙◌, true, List, [], ◌∷◌, ◌++◌, Option, some, arith, inl, inr, Text,
  text_eq→eq, ok,
}
use raglibrarian.Answer.Cache.Query.{CacheOutcome}
use raglibrarian.Answer.Cache.Fingerprint.{auth_scope_fingerprint, evidence_fingerprint}
use raglibrarian.Answer.Cache.Fingerprint.Scope.{
  Collision, auth_scope_fingerprint-eq, evidence_fingerprint-eq,
}
use raglibrarian.Answer.Cache.Store.{CachePolicy, CacheEntry, AnswerCache, Environment, FlightKey}
use raglibrarian.Answer.Cache.Operations.{
  Ask, CacheCall, look, put, key_eq, key_of, lookup, entry_of, run, new_answer_cache, flight_key,
}
use raglibrarian.Answer.Cache.History.{Stored}
use raglibrarian.Answer.Cache.Hits.{run-lookup-Hit}

module _ (env : Environment) where
  -- One of the stores made the entry, of an answer to the same actor from the same evidence.
  abbrev pub StoredFor : CachePolicy → Ask → List CacheCall → CacheEntry → Type 0
  StoredFor policy ask [] e = ⊥
  StoredFor policy ask (look earlier ∷ calls) e = StoredFor policy ask calls e
  StoredFor policy ask (put earlier segments ∷ calls) e =
      ((e ≡ entry_of env policy earlier segments)
        × (earlier.request.actor ≡ ask.request.actor)
        × (earlier.evidence ≡ ask.evidence))
      ⊎ StoredFor policy ask calls e

  module _
      (quote-split : (s t u v : Text)
        → env.quote s ++ u ≡ env.quote t ++ v
        → (s ≡ t) × (u ≡ v)) where
    same_key-scope :
        (policy : CachePolicy) (earlier ask : Ask)
        → key_eq env (key_of env policy earlier) (key_of env policy ask) ≡ true
        → ((earlier.request.actor ≡ ask.request.actor) × (earlier.evidence ≡ ask.evidence))
          ⊎ Collision env.hash
    unfolding key_eq key_of
    same_key-scope policy earlier ask h =
        let scopes =
          text_eq→eq (auth_scope_fingerprint env.hash env.quote earlier.request.actor)
            (auth_scope_fingerprint env.hash env.quote ask.request.actor) (ground arith) in
        let contexts =
          text_eq→eq (evidence_fingerprint env.hash env.quote earlier.evidence)
            (evidence_fingerprint env.hash env.quote ask.evidence) (ground arith) in
        elim (auth_scope_fingerprint-eq env.hash env.quote quote-split earlier.request.actor
          ask.request.actor scopes) [
            | inr collision ↦ inr collision
            | inl actors ↦
                elim (evidence_fingerprint-eq env.hash env.quote quote-split earlier.evidence
                  ask.evidence contexts) [
                    | inr collision ↦ inr collision
                    | inl evidence ↦ inl (actors, evidence)
                  ]
          ]

    Stored-StoredFor :
        (policy : CachePolicy) (ask : Ask) (calls : List CacheCall) (e : CacheEntry)
        → key_eq env e.key (key_of env policy ask) ≡ true
        → Stored env policy calls e
        → StoredFor policy ask calls e ⊎ Collision env.hash
    unfolding entry_of
    Stored-StoredFor policy ask [] e k s = absurd s
    Stored-StoredFor policy ask (look earlier ∷ calls) e k s =
        Stored-StoredFor policy ask calls e k s
    Stored-StoredFor policy ask (put earlier segments ∷ calls) e k (inr s) =
        elim (Stored-StoredFor policy ask calls e k s) [
          | inl scope ↦ inl (inr scope)
          | inr collision ↦ inr collision
        ]
    Stored-StoredFor policy ask (put earlier segments ∷ calls) e k (inl made) =
        elim (same_key-scope policy earlier ask
          (subst (λ x. key_eq env x.key (key_of env policy ask) ≡ true) made k)) [
            | inl scope ↦ inl (inl (made, scope.0, scope.1))
            | inr collision ↦ inr collision
          ]

    -- A lookup returns nothing but answers that were made for the same user, role and status from the
    -- same evidence, in its order and with its texts and pages, unless two strings have one hash.
    pub run-lookup-StoredFor :
        (policy : CachePolicy) (o : Option AnswerCache) (calls : List CacheCall) (ask : Ask)
        (e : CacheEntry) (outcome : CacheOutcome)
        → new_answer_cache env policy ≡ ok o
        → (lookup env (run env o calls) ask).1 ≡ (some e, outcome)
        → StoredFor policy ask calls e ⊎ Collision env.hash
    run-lookup-StoredFor policy o calls ask e outcome made h =
        let hits = run-lookup-Hit env policy o calls ask e outcome made h in
        Stored-StoredFor policy ask calls e hits.serves.same_key hits.stored

    -- Requests of one flight key have the same evidence, unless two strings have one hash.
    pub flight_key-evidence :
        (c : AnswerCache) (a b : Ask) (k : FlightKey)
        → flight_key env (some c) a ≡ some k
        → flight_key env (some c) b ≡ some k
        → (a.evidence ≡ b.evidence) ⊎ Collision env.hash
    unfolding flight_key key_of
    flight_key-evidence c a b k h g =
        let first : k.key.context_fingerprint ≡ evidence_fingerprint env.hash env.quote a.evidence =
          ground arith in
        let next : k.key.context_fingerprint ≡ evidence_fingerprint env.hash env.quote b.evidence =
          ground arith in
        evidence_fingerprint-eq env.hash env.quote quote-split a.evidence b.evidence
          (sym first ∙ next)
