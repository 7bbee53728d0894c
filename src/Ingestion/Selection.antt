-- ===== src/Ingestion/Selection.antt =====
-- services/ingestion-service/internal/selection/selection.go. A float64 is the number of its bits;
-- what the code computes with the ratio of a policy is a parameter. A map is the list of its
-- entries in the order of their insertion, which the code does not show: it sorts the ordinals.
pub mod Ranges
pub mod Updates
pub mod Decisions
pub mod Contract
mod Tests
use raglibrarian.Base.{
  ℕ, ◌+◌, ◌-◌, ◌<◌, Bool, true, false, not, ◌&&◌, ◌||◌, List, [], ◌∷◌, Option, none, some, leb, ltb,
  ◌==◌, if◌then◌else◌, length, is_empty, ℤ, pos, ltb_ℤ, leb_ℤ, Text, literal, text_eq, is_some,
}

pub data Reason : Type 0 where
  title copyright_imprint dedication_ornamental table_of_contents : Reason
  list_of_figures_tables index publisher_catalog_advertising also_by colophon : Reason
  unlisted : Text → Reason

pub data Signal : Type 0 where
  position hierarchy layout content_shape : Signal
  unlisted : Text → Signal

pub data Fallback : Type 0 where
  fallback_none invalid_policy invalid_input excluded_ratio range_limit : Fallback
  unlisted : Text → Fallback

pub record Policy : Type 0 where
  pub version : Text
  pub minimum_signals : ℤ
  pub maximum_excluded_ratio : ℕ
  pub maximum_ranges : ℤ

pub record Candidate : Type 0 where
  pub ordinal : ℕ
  pub reason : Reason
  pub signals : List Signal
  pub keep : Bool

pub record Range : Type 0 where
  pub start : ℕ
  pub end : ℕ
  pub reason : Reason

pub record Selection : Type 0 where
  pub policy_version : Text
  pub total_locations : ℕ
  pub fallback : Fallback
  pub ranges : List Range

-- `locationDecision`
pub record Decision : Type 0 where
  pub keep : Bool
  pub reasons : List (Reason × List Signal)

unfoldable pub reason_eq : Reason → Reason → Bool
reason_eq title title = true
reason_eq copyright_imprint copyright_imprint = true
reason_eq dedication_ornamental dedication_ornamental = true
reason_eq table_of_contents table_of_contents = true
reason_eq list_of_figures_tables list_of_figures_tables = true
reason_eq index index = true
reason_eq publisher_catalog_advertising publisher_catalog_advertising = true
reason_eq also_by also_by = true
reason_eq colophon colophon = true
reason_eq (Reason.unlisted s) (Reason.unlisted t) = text_eq s t
reason_eq _ _ = false

unfoldable pub signal_eq : Signal → Signal → Bool
signal_eq position position = true
signal_eq hierarchy hierarchy = true
signal_eq layout layout = true
signal_eq content_shape content_shape = true
signal_eq (Signal.unlisted s) (Signal.unlisted t) = text_eq s t
signal_eq _ _ = false

unfoldable pub valid_reason : Reason → Bool
valid_reason title = true
valid_reason (Reason.unlisted _) = false
valid_reason _ = true

unfoldable pub valid_signal : Signal → Bool
valid_signal position = true
valid_signal (Signal.unlisted _) = false
valid_signal _ = true

unfoldable pub valid_fallback : Fallback → Bool
valid_fallback fallback_none = true
valid_fallback (Fallback.unlisted _) = false
valid_fallback _ = true

-- `signals[signal] = struct{}{}` on a set
unfoldable pub insert_signal : Signal → List Signal → List Signal
insert_signal s [] = s ∷ []
insert_signal s (t ∷ ts) =
    let rest = insert_signal s ts in if signal_eq s t then t ∷ ts else t ∷ rest

-- The loop over the signals of one candidate; `none` where the code returns.
unfoldable pub add_signals : List Signal → List Signal → Option (List Signal)
add_signals [] signals = some signals
add_signals (s ∷ ss) signals =
    let rest = add_signals ss (insert_signal s signals) in if valid_signal s then rest else none

-- The entry of a reason, made empty first if there is none.
unfoldable pub update_reason :
    Reason → List Signal → List (Reason × List Signal) → Option (List (Reason × List Signal))
update_reason r ss [] = elim (add_signals ss []) [ none ↦ none | some t ↦ some ((r, t) ∷ []) ]
update_reason r ss ((q, t) ∷ m) =
    let rest = update_reason r ss m in
    if reason_eq r q
    then elim (add_signals ss t) [ none ↦ none | some t' ↦ some ((q, t') ∷ m) ]
    else elim rest [ none ↦ none | some m' ↦ some ((q, t) ∷ m') ]

unfoldable pub update_decision : Candidate → Decision → Option Decision
update_decision c d = elim (update_reason c.reason c.signals d.reasons) [
  | none ↦ none
  | some m ↦ some (record { keep = d.keep || c.keep; reasons = m })
]

abbrev pub Decisions : Type 0
Decisions = List (ℕ × Decision)

-- The body of the loop over the candidates, behind its first check.
unfoldable pub add_candidate : Candidate → Decisions → Option Decisions
add_candidate c [] = elim (update_decision c (record { keep = false; reasons = [] })) [
  | none ↦ none
  | some d ↦ some ((c.ordinal, d) ∷ [])
]
add_candidate c ((o, d) ∷ m) =
    let rest = add_candidate c m in
    if o == c.ordinal
    then elim (update_decision c d) [ none ↦ none | some d' ↦ some ((o, d') ∷ m) ]
    else elim rest [ none ↦ none | some m' ↦ some ((o, d) ∷ m') ]

unfoldable pub collect : ℕ → List Candidate → Decisions → Option Decisions
collect total [] m = some m
collect total (c ∷ cs) m =
    if c.ordinal == 0 || ltb total c.ordinal || not (valid_reason c.reason)
    then none
    else elim (add_candidate c m) [ none ↦ none | some m' ↦ collect total cs m' ]

-- Why a location is left out: `none` if it is not.
unfoldable pub exclusion : Policy → Decision → Option Reason
exclusion policy d = if d.keep then none else elim d.reasons [
  | [] ↦ none
  | (r, signals) ∷ rest ↦
      if is_empty rest && leb_ℤ policy.minimum_signals (pos (length signals)) then some r else none
]

-- The ordinals that are left out, each with the one reason that its decision holds.
unfoldable pub excluded : Policy → Decisions → List (ℕ × Reason)
excluded policy [] = []
excluded policy ((o, d) ∷ m) = elim (exclusion policy d) [
  | none ↦ excluded policy m
  | some r ↦ (o, r) ∷ excluded policy m
]

-- `sort.Slice` by the ordinal, which no two entries share.
unfoldable pub insert_ordinal : ℕ × Reason → List (ℕ × Reason) → List (ℕ × Reason)
insert_ordinal (o, r) [] = (o, r) ∷ []
insert_ordinal (o, r) ((p, q) ∷ m) =
    let rest = insert_ordinal (o, r) m in if leb o p then (o, r) ∷ (p, q) ∷ m else (p, q) ∷ rest

unfoldable pub sort_ordinals : List (ℕ × Reason) → List (ℕ × Reason)
sort_ordinals [] = []
sort_ordinals (e ∷ m) = insert_ordinal e (sort_ordinals m)

-- ^uint32(0)
abbrev pub max_uint32 : ℕ
max_uint32 = 4294967295

-- Whether an ordinal with a reason goes into the range before it.
abbrev pub adjoins : Range → ℕ → Reason → Bool
adjoins r o q = reason_eq r.reason q && ltb r.end max_uint32 && o == r.end + 1

-- The loop that makes the ranges; `last` is the last range so far.
unfoldable pub extend_ranges : Range → List (ℕ × Reason) → List Range
extend_ranges last [] = last ∷ []
extend_ranges last ((o, q) ∷ m) = elim (adjoins last o q) [
  | true ↦ extend_ranges (record last { end = o }) m
  | false ↦ last ∷ extend_ranges (record { start = o; end = o; reason = q }) m
]

unfoldable pub make_ranges : List (ℕ × Reason) → List Range
unfolding extend_ranges
make_ranges [] = []
make_ranges ((o, q) ∷ m) = extend_ranges (record { start = o; end = o; reason = q }) m

-- The ranges that are counted are disjoint, so the sum stays below 2 ^ 64.
unfoldable pub excluded_location_count : List Range → ℕ
excluded_location_count [] = 0
excluded_location_count (r ∷ rs) = (r.end - r.start + 1) + excluded_location_count rs

-- The loop over the ranges in `ValidateResult`, with the range before, if any.
unfoldable pub validate_ranges : ℕ → Option Range → List Range → Bool
validate_ranges total previous [] = true
validate_ranges total previous (r ∷ rs) =
    not (r.start == 0 || ltb r.end r.start || ltb total r.end || not (valid_reason r.reason))
    && elim previous [
      | none ↦ true
      | some p ↦ not (leb r.start p.end) && not (adjoins p r.start r.reason)
    ]
    && validate_ranges total (some r) rs

-- `valid_ratio` is the test that a float64 is a number above 0 and not above 1; `share` is
-- `uint64(float64(n) * ratio)`.
module _ (valid_ratio : ℕ → Bool) (share : ℕ → ℕ → ℕ) where
  unfoldable pub valid_policy : Policy → Bool
  valid_policy p =
      text_eq p.version (literal "layout-selector-v1")
      && leb_ℤ (pos 2) p.minimum_signals
      && leb_ℤ p.minimum_signals (pos 4)
      && valid_ratio p.maximum_excluded_ratio
      && leb_ℤ (pos 1) p.maximum_ranges

  -- The checks on the ranges that are made, at the end of `Decide`.
  unfoldable pub bound_ranges : Policy → ℕ → List Range → Fallback × List Range
  bound_ranges policy total ranges =
      if ltb_ℤ policy.maximum_ranges (pos (length ranges))
      then (range_limit, [])
      else if ltb (share total policy.maximum_excluded_ratio) (excluded_location_count ranges)
      then (excluded_ratio, [])
      else (fallback_none, ranges)

  unfoldable pub decide : Policy → ℕ → List Candidate → Selection
  unfolding bound_ranges
  decide policy total candidates =
      if not (valid_policy policy)
      then give invalid_policy []
      else if total == 0
      then give invalid_input []
      else elim (collect total candidates []) [
        | none ↦ give invalid_input []
        | some m ↦
            let (fallback, ranges) =
              bound_ranges policy total (make_ranges (sort_ordinals (excluded policy m))) in
            give fallback ranges
      ]
    where
      give : Fallback → List Range → Selection
      give fallback ranges = record {
        policy_version = policy.version;
        total_locations = total;
        fallback = fallback;
        ranges = ranges;
      }

  unfoldable pub validate_result : Policy → Selection → Bool
  unfolding validate_ranges
  validate_result policy result =
      valid_policy policy
      && (text_eq result.policy_version policy.version
          && not (result.total_locations == 0)
          && valid_fallback result.fallback)
      && elim result.fallback [
        | fallback_none ↦
            leb_ℤ (pos (length result.ranges)) policy.maximum_ranges
            && validate_ranges result.total_locations none result.ranges
            && leb (excluded_location_count result.ranges)
                (share result.total_locations policy.maximum_excluded_ratio)
        | _ ↦ is_empty result.ranges
      ]
