-- ===== src/Ingestion/Selection/Ranges.antt =====
-- The ranges made of ordinals in increasing order, each with a reason.
use raglibrarian.Base.{
  ℕ, ◌<◌, ◌≤◌, ◌≡◌, inl, inr, refl, Bool, true, false, not, ◌&&◌, ◌||◌, List, [], ◌∷◌, Option, none,
  some, arith, All, leb, ◌==◌, Bool-cases,
}
use raglibrarian.Ingestion.Selection.{
  Reason, Range, valid_reason, adjoins, extend_ranges, make_ranges, validate_ranges, insert_ordinal,
  sort_ordinals,
}

abbrev pub Increasing : ℕ → List (ℕ × Reason) → Type 0
Increasing lo [] = Unit
Increasing lo ((o, q) ∷ m) = (lo < o) × Increasing o m

abbrev pub Within : ℕ → List (ℕ × Reason) → Type 0
Within total = All (λ e. (e.0 ≤ total) × (valid_reason e.1 ≡ true))

-- A range may follow the one before it.
abbrev follows : Option Range → Range → Bool
follows none r = true
follows (some p) r = not (leb r.start p.end) && not (adjoins p r.start r.reason)

record IsRange (total : ℕ) (r : Range) : Type 0 where
  positive : 1 ≤ r.start
  ordered : r.start ≤ r.end
  within : r.end ≤ total
  listed : valid_reason r.reason ≡ true

validate-cons :
    (total : ℕ) (previous : Option Range) (r : Range) (rs : List Range)
    → IsRange total r
    → follows previous r ≡ true
    → validate_ranges total (some r) rs ≡ true
    → validate_ranges total previous (r ∷ rs) ≡ true
unfolding validate_ranges
validate-cons total none r rs v f h = ground arith
validate-cons total (some p) r rs v f h = ground arith

follows_longer :
    (previous : Option Range) (r : Range) (o : ℕ)
    → follows previous r ≡ true
    → follows previous (record r { end = o }) ≡ true
follows_longer none r o f = refl
follows_longer (some p) r o f = f

validate-extend_ranges :
    (total : ℕ) (previous : Option Range) (last : Range) (m : List (ℕ × Reason))
    → IsRange total last
    → follows previous last ≡ true
    → Increasing last.end m
    → Within total m
    → validate_ranges total previous (extend_ranges last m) ≡ true
unfolding extend_ranges validate_ranges
validate-extend_ranges total previous last [] v f i w =
    validate-cons total previous last [] v f refl
validate-extend_ranges total previous last ((o, q) ∷ m) v f i w =
    elim (Bool-cases (adjoins last o q)) [
      | inl e ↦
          rw (e, extend_ranges)
            (validate-extend_ranges total previous (record last { end = o }) m
              (record {
                positive = v.positive;
                ordered = omega arith;
                within = w.0.0;
                listed = v.listed;
              })
              (follows_longer previous last o f) i.1 w.1)
      | inr e ↦
          let next : Range = record { start = o; end = o; reason = q } in
          rw (e, extend_ranges)
            (validate-cons total previous last (extend_ranges next m) v f (
              validate-extend_ranges total (some last) next m
                (record {
                  positive = omega arith;
                  ordered = omega arith;
                  within = w.0.0;
                  listed = w.0.1;
                })
                (ground arith) i.1 w.1))
    ]

-- Ranges made of increasing ordinals within the document pass the checks on received ranges.
pub validate-make_ranges :
    (total : ℕ) (m : List (ℕ × Reason))
    → Increasing 0 m
    → Within total m
    → validate_ranges total none (make_ranges m) ≡ true
unfolding make_ranges validate_ranges
validate-make_ranges total [] i w = refl
validate-make_ranges total ((o, q) ∷ m) i w =
    validate-extend_ranges total none (record { start = o; end = o; reason = q }) m
      (record { positive = i.0; ordered = omega arith; within = w.0.0; listed = w.0.1 }) refl i.1
      w.1

-- A location lies in a range.
unfoldable pub covered : ℕ → List Range → Bool
covered o [] = false
covered o (r ∷ rs) = (leb r.start o && leb o r.end) || covered o rs

unfoldable pub has_ordinal : ℕ → List (ℕ × Reason) → Bool
has_ordinal o [] = false
has_ordinal o (e ∷ m) = (o == e.0) || has_ordinal o m

covered-extend_ranges :
    (x : ℕ) (last : Range) (m : List (ℕ × Reason))
    → last.start ≤ last.end
    → covered x (extend_ranges last m) ≡ ((leb last.start x && leb x last.end) || has_ordinal x m)
unfolding covered extend_ranges has_ordinal
covered-extend_ranges x last [] h = refl
covered-extend_ranges x last ((o, q) ∷ m) h = elim (Bool-cases (adjoins last o q)) [
  | inl e ↦
      let longer : Range = record last { end = o } in
      rw (e, extend_ranges) (ground (arith, covered-extend_ranges x longer m))
  | inr e ↦
      let next : Range = record { start = o; end = o; reason = q } in
      rw (e, extend_ranges) (ground (arith, covered-extend_ranges x next m))
]

-- The ranges cover the ordinals that they are made of, and nothing else.
pub covered-make_ranges :
    (x : ℕ) (m : List (ℕ × Reason)) → covered x (make_ranges m) ≡ has_ordinal x m
unfolding covered make_ranges has_ordinal
covered-make_ranges x [] = refl
covered-make_ranges x ((o, q) ∷ m) =
    ground (arith, covered-extend_ranges x (record { start = o; end = o; reason = q }) m)

has_ordinal-insert :
    (x o : ℕ) (r : Reason) (m : List (ℕ × Reason))
    → has_ordinal x (insert_ordinal (o, r) m) ≡ ((x == o) || has_ordinal x m)
unfolding has_ordinal insert_ordinal
has_ordinal-insert x o r [] = refl
has_ordinal-insert x o r ((p, q) ∷ m) = ground (arith, has_ordinal-insert x o r m)

pub has_ordinal-sort :
    (x : ℕ) (m : List (ℕ × Reason)) → has_ordinal x (sort_ordinals m) ≡ has_ordinal x m
unfolding has_ordinal sort_ordinals
has_ordinal-sort x [] = refl
has_ordinal-sort x ((o, r) ∷ m) =
    ground (arith, has_ordinal-insert x o r (sort_ordinals m), has_ordinal-sort x m)

-- No ordinal stands twice.
abbrev pub Distinct : List (ℕ × Reason) → Type 0
Distinct [] = Unit
Distinct (e ∷ m) = (has_ordinal e.0 m ≡ false) × Distinct m

Increasing-insert :
    (lo o : ℕ) (r : Reason) (m : List (ℕ × Reason))
    → lo < o
    → has_ordinal o m ≡ false
    → Increasing lo m
    → Increasing lo (insert_ordinal (o, r) m)
unfolding has_ordinal insert_ordinal
Increasing-insert lo o r [] h d i = (h, tt)
Increasing-insert lo o r ((p, q) ∷ m) h d i = elim (Bool-cases (leb o p)) [
  | inl e ↦ rw (e, insert_ordinal) (h, (ground arith, i.1))
  | inr e ↦
      rw (e, insert_ordinal) (i.0, Increasing-insert p o r m (ground arith) (ground arith) i.1)
]

Within-insert :
    (total o : ℕ) (r : Reason) (m : List (ℕ × Reason))
    → o ≤ total
    → valid_reason r ≡ true
    → Within total m
    → Within total (insert_ordinal (o, r) m)
unfolding insert_ordinal
Within-insert total o r [] h v w = ((h, v), tt)
Within-insert total o r ((p, q) ∷ m) h v w = elim (Bool-cases (leb o p)) [
  | inl e ↦ rw (e, insert_ordinal) ((h, v), w)
  | inr e ↦ rw (e, insert_ordinal) (w.0, Within-insert total o r m h v w.1)
]

pub Increasing-sort :
    (m : List (ℕ × Reason)) → All (λ e. 1 ≤ e.0) m → Distinct m → Increasing 0 (sort_ordinals m)
unfolding sort_ordinals
Increasing-sort [] p d = tt
Increasing-sort ((o, r) ∷ m) p d =
    Increasing-insert 0 o r (sort_ordinals m) p.0 (rw (has_ordinal-sort o m) d.0)
      (Increasing-sort m p.1 d.1)

pub Within-sort :
    (total : ℕ) (m : List (ℕ × Reason)) → Within total m → Within total (sort_ordinals m)
unfolding sort_ordinals
Within-sort total [] w = tt
Within-sort total ((o, r) ∷ m) w =
    Within-insert total o r (sort_ordinals m) w.0.0 w.0.1 (Within-sort total m w.1)
