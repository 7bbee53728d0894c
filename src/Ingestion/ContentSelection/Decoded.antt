-- ===== src/Ingestion/ContentSelection/Decoded.antt =====
-- The ranges of a message, decoded.
use raglibrarian.Base.{
  ℕ, ◌≡◌, refl, Bool, true, List, [], ◌∷◌, Option, none, some, arith, length, Text, literal,
  text_eq, member, text_eq→eq,
}
use raglibrarian.Ingestion.Completion.{ExcludedRange, ExclusionReason, exclusion_reason_eq}
use raglibrarian.Ingestion.Layout.{valid_exclusion_reason}
use raglibrarian.Ingestion.Layout.Ranges.{IsCoded, Behind, Chained, coded_count, end_of}
use raglibrarian.Ingestion.ContentSelection.{
  ContentSelectionRange, content_exclusion_reason, decode_ranges, ordered_ranges, excluded_count,
  valid_selection_reason, any_reason,
}

reason_named :
    (r : ExclusionReason)
    → valid_exclusion_reason r ≡ true
    → (s : Text) × (content_exclusion_reason r ≡ some s) × (valid_selection_reason s ≡ true)
unfolding valid_exclusion_reason content_exclusion_reason valid_selection_reason text_eq member
reason_named ExclusionReason.title_page h = (literal "title", refl, refl)
reason_named ExclusionReason.copyright_or_imprint h = (literal "copyright_imprint", refl, refl)
reason_named ExclusionReason.dedication_or_ornamental_blank h =
    (literal "dedication_ornamental", refl, refl)
reason_named ExclusionReason.table_or_list h = (literal "table_of_contents", refl, refl)
reason_named ExclusionReason.index h = (literal "index", refl, refl)
reason_named ExclusionReason.publisher_catalog_or_advertising h =
    (literal "publisher_catalog_advertising", refl, refl)
reason_named ExclusionReason.also_by h = (literal "also_by", refl, refl)
reason_named ExclusionReason.colophon h = (literal "colophon", refl, refl)
reason_named (ExclusionReason.other_reason n) h = absurd (ground arith)

-- Two reasons of one name are one reason.
same_name :
    (a b : ExclusionReason) (s t : Text)
    → content_exclusion_reason a ≡ some s
    → content_exclusion_reason b ≡ some t
    → text_eq s t ≡ true
    → exclusion_reason_eq a b ≡ true
unfolding content_exclusion_reason exclusion_reason_eq text_eq
same_name a b s t p q h = ground (arith, text_eq→eq s t)

abbrev Names : Option ContentSelectionRange → Option ExcludedRange → Type 0
Names none none = Unit
Names (some q) (some p) =
    (q.end ≡ p.end_ordinal) × (content_exclusion_reason p.reason ≡ some q.reason)
Names _ _ = ⊥

pub record Decodes (total : ℕ) (previous : Option ℕ) (es : List ExcludedRange)
    (rs : List ContentSelectionRange) : Type 0 where
  pub listed : ordered_ranges valid_selection_reason total previous rs ≡ true
  pub ordered : ordered_ranges any_reason total previous rs ≡ true
  pub count : excluded_count rs ≡ coded_count es
  pub same_length : length rs ≡ length es

decode_step :
    (q : Option ContentSelectionRange) (p : Option ExcludedRange) (e : ExcludedRange)
    (es : List ExcludedRange) (s : Text) (rs : List ContentSelectionRange)
    → Names q p
    → Behind p e
    → content_exclusion_reason e.reason ≡ some s
    → decode_ranges (some (record { start = e.start_ordinal; end = e.end_ordinal; reason = s })) es
      ≡ some rs
    → decode_ranges q (e ∷ es)
      ≡ some (record { start = e.start_ordinal; end = e.end_ordinal; reason = s } ∷ rs)
unfolding decode_ranges
decode_step none none e es s rs n b h d = rw (h, decode_ranges) (rw d)
decode_step none (some p) e es s rs n b h d = absurd n
decode_step (some q) none e es s rs n b h d = absurd n
decode_step (some q) (some p) e es s rs n b h d =
    rw (h, decode_ranges) (ground (arith, d, n, b, same_name p.reason e.reason q.reason s))

-- The first range of a list in order passes the checks of a result.
checked :
    (valid : Text → Bool) (total : ℕ) (p : Option ExcludedRange) (e : ExcludedRange) (s : Text)
    (rs : List ContentSelectionRange)
    → IsCoded total e
    → Behind p e
    → valid s ≡ true
    → ordered_ranges valid total (some e.end_ordinal) rs ≡ true
    → ordered_ranges valid total
        (end_of p)
        (record { start = e.start_ordinal; end = e.end_ordinal; reason = s } ∷ rs)
      ≡ true
unfolding ordered_ranges
checked valid total none e s rs c b v o = ground arith
checked valid total (some p) e s rs c b v o = ground arith

-- Ranges in order are decoded, stay in order, and leave out as many locations.
pub decode_ranges-Decodes :
    (total : ℕ) (q : Option ContentSelectionRange) (p : Option ExcludedRange)
    (es : List ExcludedRange)
    → Names q p
    → Chained total p es
    → (rs : List ContentSelectionRange) × (decode_ranges q es ≡ some rs)
      × Decodes total (end_of p) es rs
unfolding decode_ranges ordered_ranges excluded_count coded_count
decode_ranges-Decodes total q p [] n c =
    ([], refl, record { listed = refl; ordered = refl; count = refl; same_length = refl })
decode_ranges-Decodes total q p (e ∷ es) n c =
    let (s, named, known) = reason_named e.reason c.0.listed in
    let r : ContentSelectionRange = record {
      start = e.start_ordinal;
      end = e.end_ordinal;
      reason = s;
    } in
    let (rs, made, d) = decode_ranges-Decodes total (some r) (some e) es (refl, named) c.2 in
    (
      r ∷ rs,
      decode_step q p e es s rs n c.1 named made,
      record {
        listed = checked valid_selection_reason total p e s rs c.0 c.1 known d.listed;
        ordered = checked any_reason total p e s rs c.0 c.1 refl d.ordered;
        count = omega (arith, d.count);
        same_length = omega (arith, d.same_length);
      },
    )
