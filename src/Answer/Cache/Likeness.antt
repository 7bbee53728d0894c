-- ===== src/Answer/Cache/Likeness.antt =====
-- Which entries of the cache are equivalent, and that a new entry takes the place of its equal.
use raglibrarian.Base.{
  ℕ, zero, suc, ◌≡◌, refl, ap, Bool, true, false, List, [], ◌∷◌, none, some, All, arith, inl, inr,
  Bool-cases, Option-cases, text_eq, text_eq→eq, text_eq_comm,
}
use raglibrarian.Answer.Cache.Query.{AnswerMode, mode_text, same_answer_modes}
use raglibrarian.Answer.Cache.Store.{CacheKey, CacheEntry, Environment, touch, replace}
use raglibrarian.Answer.Cache.Operations.{key_eq, equivalent_cache_entry, find_equivalent}
use raglibrarian.Answer.Cache.Entries.{All-touch, All-replace, All-map, Apart, Apart-append}

pub same_answer_modes-eq :
    (s t u : List AnswerMode)
    → same_answer_modes s t ≡ true
    → same_answer_modes s u ≡ same_answer_modes t u
unfolding same_answer_modes
same_answer_modes-eq [] [] u h = refl
same_answer_modes-eq (a ∷ s) (b ∷ t) [] h = refl
same_answer_modes-eq (a ∷ s) (b ∷ t) (c ∷ u) h = ground (
  arith,
  ap (λ m. text_eq m (mode_text c)) (text_eq→eq (mode_text a) (mode_text b) (ground arith)),
  same_answer_modes-eq s t u,
)
same_answer_modes-eq [] (b ∷ t) u h = cc
same_answer_modes-eq (a ∷ s) [] u h = cc

pub same_answer_modes_comm : (s t : List AnswerMode) → same_answer_modes s t ≡ same_answer_modes t s
unfolding same_answer_modes
same_answer_modes_comm [] [] = refl
same_answer_modes_comm (a ∷ s) (b ∷ t) =
    ground (arith, text_eq_comm (mode_text a) (mode_text b), same_answer_modes_comm s t)
same_answer_modes_comm [] (b ∷ t) = refl
same_answer_modes_comm (a ∷ s) [] = refl

module _ (env : Environment) (same_comm : (x y : ℕ) → env.floats.same x y ≡ env.floats.same y x)
    (same_trans : (x y z : ℕ)
      → env.floats.same x y ≡ true
      → env.floats.same y z ≡ true
      → env.floats.same x z ≡ true) where
  key_eq_comm : (a b : CacheKey) → key_eq env a b ≡ key_eq env b a
  unfolding key_eq
  key_eq_comm a b =
      rw
        (
          text_eq_comm a.auth_scope b.auth_scope,
          text_eq_comm a.filters b.filters,
          same_comm a.minimum_evidence_score b.minimum_evidence_score,
          text_eq_comm a.retrieval_profile b.retrieval_profile,
          text_eq_comm a.generator_profile b.generator_profile,
          text_eq_comm a.context_fingerprint b.context_fingerprint,
        )
        (ground arith)

  key_eq_trans :
      (a b c : CacheKey) → key_eq env a b ≡ true → key_eq env b c ≡ true → key_eq env a c ≡ true
  unfolding key_eq
  key_eq_trans a b c h k =
      let m =
        same_trans a.minimum_evidence_score b.minimum_evidence_score c.minimum_evidence_score in
      ground (
        arith,
        m,
        text_eq→eq a.auth_scope b.auth_scope,
        text_eq→eq a.filters b.filters,
        text_eq→eq a.retrieval_profile b.retrieval_profile,
        text_eq→eq a.generator_profile b.generator_profile,
        text_eq→eq a.context_fingerprint b.context_fingerprint,
      )

  abbrev alike : CacheEntry → CacheEntry → Bool
  alike = equivalent_cache_entry env

  pub alike_comm : (x y : CacheEntry) → alike x y ≡ alike y x
  unfolding equivalent_cache_entry
  alike_comm x y =
      rw
        (
          key_eq_comm x.key y.key,
          text_eq_comm x.query.normalized_query y.query.normalized_query,
          same_answer_modes_comm x.query.modes y.query.modes,
        )
        refl

  alike_trans : (x y z : CacheEntry) → alike x y ≡ true → alike y z ≡ true → alike x z ≡ true
  unfolding equivalent_cache_entry
  alike_trans x y z h k = ground (
    arith,
    key_eq_trans x.key y.key z.key,
    text_eq→eq x.query.normalized_query y.query.normalized_query,
    same_answer_modes-eq x.query.modes y.query.modes z.query.modes,
  )

  alike-false :
      (e x entry : CacheEntry) → alike e entry ≡ true → alike e x ≡ false → alike x entry ≡ false
  alike-false e x entry h k = ground (arith, alike_trans e entry x, alike_comm x entry)

  pub find_equivalent-none :
      (entry : CacheEntry) (es : List CacheEntry)
      → find_equivalent env entry es ≡ none
      → All (λ x. alike x entry ≡ false) es
  unfolding find_equivalent
  find_equivalent-none entry [] h = tt
  find_equivalent-none entry (e ∷ es) h = elim (Option-cases (find_equivalent env entry es)) [
    | inl other ↦ (ground arith, find_equivalent-none entry es other)
    | inr (i, later) ↦ ground arith
  ]

  pub put-Apart :
      (entry : CacheEntry) (es : List CacheEntry) (i : ℕ)
      → find_equivalent env entry es ≡ some i
      → Apart alike es
      → Apart alike (touch i (replace i entry es))
  unfolding find_equivalent touch replace
  put-Apart entry [] i h p = tt
  put-Apart entry (e ∷ es) zero h p = elim (Bool-cases (alike e entry)) [
    | inl same ↦
        Apart-append alike es entry
          (All-map (λ x. alike e x ≡ false) (λ x. alike x entry ≡ false) es
            (λ x k. alike-false e x entry same k) p.0)
          p.1
    | inr other ↦ ground (arith, Option-cases (find_equivalent env entry es))
  ]
  put-Apart entry (e ∷ es) (suc i) h p = elim (Bool-cases (alike e entry)) [
    | inl same ↦ ground arith
    | inr other ↦ (
      All-touch (λ x. alike e x ≡ false) i (replace i entry es)
          (All-replace (λ x. alike e x ≡ false) i entry es other p.0),
      put-Apart entry es i (ground (arith, Option-cases (find_equivalent env entry es))) p.1,
    )
  ]
