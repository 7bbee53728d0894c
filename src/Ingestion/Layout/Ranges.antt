-- ===== src/Ingestion/Layout/Ranges.antt =====
-- The ranges of a message: each within the document and behind the one before it, and no two that
-- could be one.
use raglibrarian.Base.{
  ℕ, suc, ◌+◌, ◌-◌, ◌<◌, ◌≤◌, ◌≡◌, inl, inr, refl, true, false, List, [], ◌∷◌, Option, none, some,
  arith, length, Bool-cases,
}
use raglibrarian.Ingestion.Selection.{Range, valid_reason, validate_ranges, excluded_location_count}
use raglibrarian.Ingestion.Completion.{ExcludedRange}
use raglibrarian.Ingestion.Layout.{
  exclusion_reason, encode_range, joins, encode_from, encode_ranges, valid_exclusion_reason,
  valid_ranges,
}

pub record IsCoded (total : ℕ) (e : ExcludedRange) : Type 0 where
  pub positive : 1 ≤ e.start_ordinal
  pub ordered : e.start_ordinal ≤ e.end_ordinal
  pub within : e.end_ordinal ≤ total
  pub listed : valid_exclusion_reason e.reason ≡ true

abbrev pub Behind : Option ExcludedRange → ExcludedRange → Type 0
Behind none e = Unit
Behind (some p) e = (p.end_ordinal < e.start_ordinal) × (joins p e ≡ false)

abbrev pub Chained : ℕ → Option ExcludedRange → List ExcludedRange → Type 0
Chained total previous [] = Unit
Chained total previous (e ∷ es) = IsCoded total e × Behind previous e × Chained total (some e) es

unfoldable pub coded_count : List ExcludedRange → ℕ
coded_count [] = 0
coded_count (e ∷ es) = (e.end_ordinal - e.start_ordinal + 1) + coded_count es

exclusion_reason-listed :
    (r : Range)
    → valid_reason r.reason ≡ true
    → valid_exclusion_reason (exclusion_reason r.reason) ≡ true
unfolding exclusion_reason valid_reason valid_exclusion_reason
exclusion_reason-listed r h = ground arith

encode_range-IsCoded :
    (total : ℕ) (previous : Option Range) (r : Range) (rs : List Range)
    → validate_ranges total previous (r ∷ rs) ≡ true
    → IsCoded total (encode_range r) × (validate_ranges total (some r) rs ≡ true)
unfolding validate_ranges encode_range
encode_range-IsCoded total previous r rs h = ground (arith, exclusion_reason-listed r)

Behind-longer :
    (previous : Option ExcludedRange) (e : ExcludedRange) (n : ℕ)
    → Behind previous e
    → Behind previous (record e { end_ordinal = n })
Behind-longer none e n h = tt
Behind-longer (some p) e n h = h

validated_after :
    (total : ℕ) (r0 r : Range) (rs : List Range)
    → validate_ranges total (some r0) (r ∷ rs) ≡ true
    → r0.end < r.start
unfolding validate_ranges
validated_after total r0 r rs h = ground arith

encode_from-Chained :
    (total : ℕ) (previous : Option ExcludedRange) (last : ExcludedRange) (r0 : Range)
    (rs : List Range)
    → IsCoded total last
    → Behind previous last
    → last.end_ordinal ≡ r0.end
    → validate_ranges total (some r0) rs ≡ true
    → Chained total previous (encode_from last rs)
      × (coded_count (encode_from last rs)
          ≡ (last.end_ordinal - last.start_ordinal + 1) + excluded_location_count rs)
      × (length (encode_from last rs) ≤ suc (length rs))
unfolding encode_from coded_count excluded_location_count
encode_from-Chained total previous last r0 [] c b e v = ((c, b, tt), omega arith, omega arith)
encode_from-Chained total previous last r0 (r ∷ rs) c b e v =
    let (coded, rest) = encode_range-IsCoded total (some r0) r rs v in
    let after = validated_after total r0 r rs v in
    elim (Bool-cases (joins last (encode_range r))) [
      | inl one ↦
          let longer : ExcludedRange = record last { end_ordinal = r.end } in
          let (chain, count, few) =
            encode_from-Chained total previous longer r rs
              (record {
                positive = c.positive;
                ordered = ground (arith, coded, after);
                within = coded.within;
                listed = c.listed;
              })
              (Behind-longer previous last r.end b) refl rest in
          rw (one, encode_from)
            (chain, ground (arith, count, one, coded, c.ordered), omega (arith, few))
      | inr two ↦
          let (chain, count, few) =
            encode_from-Chained total (some last) (encode_range r) r rs coded
              (ground (arith, after, two)) refl rest in
          rw (two, encode_from) ((c, b, chain), omega (arith, count), omega (arith, few))
    ]

-- The ranges that `Decide` makes stay in order when they are merged, leave out as many locations, and
-- are not more.
pub encode_ranges-Chained :
    (total : ℕ) (rs : List Range)
    → validate_ranges total none rs ≡ true
    → Chained total none (encode_ranges rs)
      × (coded_count (encode_ranges rs) ≡ excluded_location_count rs)
      × (length (encode_ranges rs) ≤ length rs)
unfolding encode_ranges coded_count excluded_location_count
encode_ranges-Chained total [] v = (tt, refl, omega arith)
encode_ranges-Chained total (r ∷ rs) v =
    let (coded, rest) = encode_range-IsCoded total none r rs v in
    let (chain, count, few) =
      encode_from-Chained total none (encode_range r) r rs coded tt refl rest in
    (chain, omega (arith, count), few)

abbrev pub end_of : Option ExcludedRange → Option ℕ
end_of none = none
end_of (some p) = some p.end_ordinal

-- Such ranges pass the check of the completion.
pub Chained-valid :
    (total : ℕ) (previous : Option ExcludedRange) (es : List ExcludedRange)
    → Chained total previous es
    → valid_ranges total (end_of previous) es ≡ true
unfolding valid_ranges
Chained-valid total previous [] h = refl
Chained-valid total none (e ∷ es) h = ground (arith, h.0, Chained-valid total (some e) es h.2)
Chained-valid total (some p) (e ∷ es) h =
    ground (arith, h.0, h.1, Chained-valid total (some e) es h.2)
