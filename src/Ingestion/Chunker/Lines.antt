-- ===== src/Ingestion/Chunker/Lines.antt =====
-- `Normalize` and `detectHeading` of services/ingestion-service/internal/chunking/chunker.go. The
-- canonical composition of Unicode and the regular expression for headings are parameters.
use raglibrarian.Base.{
  ℕ, Bool, not, ◌&&◌, ◌||◌, List, [], ◌∷◌, ◌++◌, map, Option, none, some, leb, ◌==◌, if◌then◌else◌,
  is_empty, Text, trim_right, trim_space,
}

-- strings.ReplaceAll of "\r\n" by "\n"
unfoldable pub join_crlf : Text → Text
join_crlf [] = []
join_crlf (c ∷ []) = c ∷ []
join_crlf (c ∷ d ∷ s) =
    let rest = join_crlf (d ∷ s) in
    let joined = 10 ∷ join_crlf s in if c == 13 && d == 10 then joined else c ∷ rest

-- strings.ReplaceAll of "\r" by "\n"
unfoldable pub replace_cr : Text → Text
replace_cr s = map (λ c. if c == 13 then 10 else c) s

-- `unicode.IsControl`
abbrev pub is_control : ℕ → Bool
is_control c = leb c 0x1f || (leb 0x7f c && leb c 0x9f)

-- The call of strings.Map, which makes U+FFFD of an invalid byte.
unfoldable pub drop_controls : Text → Text
drop_controls [] = []
drop_controls (c ∷ s) =
    let rest = drop_controls s in
    if leb 0x110000 c
    then 0xfffd ∷ rest
    else if c == 10 || c == 9 || not (is_control c)
    then c ∷ rest
    else rest

-- `strings.Split(value, "\n")`, which has one line more than there are newlines.
unfoldable pub split_lines : Text → List Text
split_lines [] = [] ∷ []
split_lines (c ∷ s) = elim (split_lines s) [
  | [] ↦ []
  | line ∷ lines ↦ if c == 10 then [] ∷ line ∷ lines else (c ∷ line) ∷ lines
]

-- `strings.Join(lines, "\n")`
unfoldable pub join_lines : List Text → Text
join_lines [] = []
join_lines (line ∷ []) = line
join_lines (line ∷ next ∷ lines) = line ++ (10 ∷ join_lines (next ∷ lines))

unfoldable pub normalize : (Text → Text) → Text → Text
unfolding join_crlf replace_cr drop_controls split_lines join_lines trim_right trim_space
normalize nfc value =
    let cleaned = nfc (drop_controls (replace_cr (join_crlf value))) in
    trim_space (join_lines (map trim_right (split_lines cleaned)))

-- The first group of the regular expression.
pub data Keyword : Type 0 where
  chapter part section : Keyword

pub record StructureContext : Type 0 where
  pub chapter : Text
  pub section : Text

abbrev pub no_structure : StructureContext
no_structure = record { chapter = []; section = [] }

unfoldable pub heading_of : Option Keyword → Text → StructureContext
heading_of none line = no_structure
heading_of (some Keyword.chapter) line = record { chapter = line; section = [] }
heading_of (some part) line = record { chapter = line; section = [] }
heading_of (some Keyword.section) line = record { chapter = []; section = line }

-- The loop over the lines: the first line that is not blank decides.
unfoldable pub first_heading : (Text → Option Keyword) → List Text → StructureContext
unfolding heading_of
first_heading numbered_heading [] = no_structure
first_heading numbered_heading (l ∷ lines) =
    let line = trim_space l in
    let rest = first_heading numbered_heading lines in
    if is_empty line then rest else heading_of (numbered_heading line) line

unfoldable pub detect_heading : (Text → Option Keyword) → Text → StructureContext
unfolding first_heading split_lines
detect_heading numbered_heading text = first_heading numbered_heading (split_lines text)
