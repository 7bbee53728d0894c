-- ===== src/Ingestion/Selection/Contract.antt =====
-- What `Decide` promises to the service that receives its result and checks it again.
use raglibrarian.Base.{
  ℕ, ◌≤◌, ◌≡◌, inl, inr, Bool, true, false, List, [], none, some, arith, Option-cases, text_eq_refl,
}
use raglibrarian.Ingestion.Selection.{
  Candidate, Policy, Decisions, valid_policy, valid_fallback, collect, excluded, sort_ordinals,
  make_ranges, decide, validate_ranges, validate_result,
}
use raglibrarian.Ingestion.Selection.Ranges.{
  covered, validate-make_ranges, covered-make_ranges, has_ordinal-sort, Increasing-sort,
  Within-sort,
}
use raglibrarian.Ingestion.Selection.Decisions.{
  asks_to_keep, Collected, collect-Collected, collect-vetoed, vetoed-excluded, excluded-Within,
  excluded-Distinct,
}

module _ (policy : Policy) (total : ℕ) (cs : List Candidate) (m : Decisions)
    (e : collect total cs [] ≡ some m) where
  collected : Collected total m
  collected = collect-Collected total cs [] m (record { sound = tt; distinct = tt }) e

  made_ranges_valid :
      validate_ranges total none (make_ranges (sort_ordinals (excluded policy m))) ≡ true
  made_ranges_valid =
      let (within, positive) = excluded-Within policy total m collected.sound in
      validate-make_ranges total (sort_ordinals (excluded policy m))
        (Increasing-sort (excluded policy m) positive
          (excluded-Distinct policy m collected.distinct))
        (Within-sort total (excluded policy m) within)

  made_ranges_kept :
      (x : ℕ)
      → asks_to_keep x cs ≡ true
      → covered x (make_ranges (sort_ordinals (excluded policy m))) ≡ false
  made_ranges_kept x h = ground (
    arith,
    covered-make_ranges x (sort_ordinals (excluded policy m)),
    has_ordinal-sort x (excluded policy m),
    vetoed-excluded x policy m collected.distinct,
    collect-vetoed x total cs [] m e,
  )

module _ (valid_ratio : ℕ → Bool) (share : ℕ → ℕ → ℕ) where
  -- Under a valid policy every result of `Decide` for a document with a location passes
  -- `ValidateResult`, whatever the candidates are.
  pub validate_result-decide :
      (policy : Policy) (total : ℕ) (cs : List Candidate)
      → valid_policy valid_ratio share policy ≡ true
      → 1 ≤ total
      → validate_result valid_ratio share policy (decide valid_ratio share policy total cs) ≡ true
  unfolding decide validate_result valid_fallback
  validate_result-decide policy total cs v t = elim (Option-cases (collect total cs [])) [
    | inl e ↦ ground (arith, text_eq_refl policy.version)
    | inr (m, e) ↦
        ground (arith, text_eq_refl policy.version, made_ranges_valid policy total cs m e)
  ]

  -- A location that some candidate asks to keep lies in none of the ranges.
  pub decide_keeps :
      (policy : Policy) (total : ℕ) (cs : List Candidate) (x : ℕ)
      → asks_to_keep x cs ≡ true
      → covered x (decide valid_ratio share policy total cs).ranges ≡ false
  unfolding decide covered
  decide_keeps policy total cs x h = elim (Option-cases (collect total cs [])) [
    | inl e ↦ ground arith
    | inr (m, e) ↦ ground (arith, made_ranges_kept policy total cs m e x h)
  ]
