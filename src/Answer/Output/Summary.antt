-- ===== src/Answer/Output/Summary.antt =====
-- The size of a summary.
use raglibrarian.Base.{
  ℕ, ◌-◌, ◌≤◌, List, [], ◌∷◌, arith, length, take, length-append, length-take, Text, trim_space,
  trim_left, trim_right, fields, join,
}
use raglibrarian.Answer.Output.{AnswerSegment, summary_parts, summarize_segments}

length-trim_left : (s : Text) → length (trim_left s) ≤ length s
unfolding trim_left
length-trim_left [] = omega arith
length-trim_left (c ∷ s) = ground (arith, length-trim_left s)

length-trim_right : (s : Text) → length (trim_right s) ≤ length s
unfolding trim_right
length-trim_right [] = omega arith
length-trim_right (c ∷ s) = ground (arith, length-trim_right s)

length-trim_space : (s : Text) → length (trim_space s) ≤ length s
unfolding trim_space
length-trim_space s = omega (arith, length-trim_right (trim_left s), length-trim_left s)

-- A summary has at most the maximum number of runes, if that is positive.
pub length-summarize_segments :
    (values : List AnswerSegment) (maximum : ℕ)
    → 1 ≤ maximum
    → length (summarize_segments values maximum) ≤ maximum
unfolding summarize_segments
length-summarize_segments values maximum m =
    let summary = join (fields (join (summary_parts values) (0x20 ∷ []))) (0x20 ∷ []) in
    ground (
      arith,
      length-append (trim_space (take (maximum - 1) summary)) (0x2026 ∷ []),
      length-trim_space (take (maximum - 1) summary),
      length-take (maximum - 1) summary,
    )
