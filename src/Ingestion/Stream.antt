-- ===== src/Ingestion/Stream.antt =====
-- The chunks of a book on their way to the writer: `processClaimed` of
-- services/ingestion-service/internal/application/processor.go from the first page to the last chunk.
-- The extractor calls back for one page after the other and stops at an error. Whether the writer takes
-- a chunk, behind those that it has taken, is an argument.
pub mod Sequence
pub mod Excluded
mod Tests
use raglibrarian.Base.{
  ℕ, suc, ◌+◌, ◌-◌, Bool, true, false, not, ◌&&◌, ◌||◌, List, [], ◌∷◌, ◌++◌, Option, none, some,
  leb, ltb, ◌==◌, if◌then◌else◌, Text, Result, ok, err, is_empty,
}
use raglibrarian.Ingestion.Chunk.{Chunk, ChunkError}
use raglibrarian.Ingestion.Chunker.{Page, Chunker, Environment, Outcome, add_page, boundary, finish}
use raglibrarian.Ingestion.ContentSelection.{ContentSelectionRange}

-- The stage of a failure, where the code gives one the error of the chunker.
pub data StageError : Type 0 where
  chunk_sequence_invalid artifact_add_failed content_selection_ordinal_mismatch
        no_extractable_text :
      StageError
  chunk_boundary_failed chunk_page_failed chunk_finalize_failed : ChunkError → StageError

-- The variables that the callback changes; `ranges` are those from `rangeIndex` on.
pub record Stream : Type 0 where
  pub chunker : Chunker
  pub ranges : List ContentSelectionRange
  pub in_excluded_range : Bool
  pub previous_chunk : Option Chunk
  pub written : List Chunk

abbrev pub Step : Type 0
Step = Stream × Option StageError

abbrev pub then_step : Step → (Stream → Step) → Step
then_step (s, none) next = next s
then_step (s, some e) next = (s, some e)

-- chunking.DefaultOverlapTokens
abbrev pub default_overlap_tokens : ℕ
default_overlap_tokens = 120

unfoldable pub in_sequence : Option Chunk → Chunk → Bool
in_sequence none value = true
in_sequence (some previous) value = not (
    not (value.order == previous.order + 1)
    || ltb value.token_start previous.token_start
    || leb value.token_end previous.token_end
    || (ltb value.token_start previous.token_end
        && ltb default_overlap_tokens (previous.token_end - value.token_start)))

-- A range that ends before the page is left behind.
unfoldable pub skip_ranges : ℕ → Stream → List ContentSelectionRange → Stream
skip_ranges number s [] = record s { ranges = [] }
skip_ranges number s (r ∷ rs) =
    let rest = skip_ranges number (record s { in_excluded_range = false }) rs in
    if ltb r.end number then rest else record s { ranges = r ∷ rs }

unfoldable pub in_range : ℕ → List ContentSelectionRange → Bool
in_range number [] = false
in_range number (r ∷ rs) = leb r.start number && leb number r.end

module _ (env : Environment) (book_id : Text) (takes : List Chunk → Chunk → Bool) where
  unfoldable pub validate_and_add_chunk : Chunk → Stream → Step
  validate_and_add_chunk value s =
      if not (in_sequence s.previous_chunk value)
      then (s, some chunk_sequence_invalid)
      else if not (takes s.written value)
      then (s, some artifact_add_failed)
      else (record s { previous_chunk = some value; written = s.written ++ (value ∷ []) }, none)

  unfoldable pub add_chunks : List Chunk → Stream → Step
  add_chunks [] s = (s, none)
  add_chunks (value ∷ values) s = then_step (validate_and_add_chunk value s) (add_chunks values)

  -- The chunks that a call of the chunker gives; the chunker has changed also on an error.
  unfoldable pub deliver : (ChunkError → StageError) → Outcome (List Chunk) → Stream → Step
  deliver stage (d, r) s = elim r [
    | err e ↦ (record s { chunker = d }, some (stage e))
    | ok chunks ↦ add_chunks chunks (record s { chunker = d })
  ]

  unfoldable pub add_stream_page : Page → Stream → Step
  add_stream_page page s = deliver chunk_page_failed (add_page env book_id s.chunker page) s

  unfoldable pub enter_excluded : Stream → Step
  enter_excluded s =
      if s.in_excluded_range
      then (s, none)
      else then_step (deliver chunk_boundary_failed (boundary env book_id s.chunker) s)
          (λ t. (record t { in_excluded_range = true }, none))

  -- The callback; `enforced` says that there is a selection in force without a fallback.
  unfoldable pub on_page : Bool → Page → Stream → Step
  on_page enforced page s =
      let at = skip_ranges page.number s s.ranges in
      if not enforced
      then add_stream_page page s
      else if in_range page.number at.ranges
      then enter_excluded at
      else add_stream_page page at

  unfoldable pub on_pages : Bool → List Page → Stream → Step
  on_pages enforced [] s = (s, none)
  on_pages enforced (page ∷ pages) s = then_step (on_page enforced page s) (on_pages enforced pages)

  unfoldable pub finish_stream : Stream → Step
  finish_stream s =
      then_step (deliver chunk_finalize_failed (finish env book_id s.chunker) s)
        (λ t. (t, if is_empty t.written then some no_extractable_text else none))

  unfoldable pub begin : Chunker → List ContentSelectionRange → Stream
  begin c ranges = record {
    chunker = c;
    ranges = ranges;
    in_excluded_range = false;
    previous_chunk = none;
    written = [];
  }

  -- All of it; `locations` is the number of locations of the selection, 0 if there is none, and
  -- `page_count` what the extractor gives in the end.
  unfoldable pub process_pages : Bool → ℕ → ℕ → List Page → Stream → Step
  process_pages enforced locations page_count pages s = then_step (on_pages enforced pages s) (λ t.
      if not (locations == 0) && not (page_count == locations)
      then (t, some content_selection_ordinal_mismatch)
      else finish_stream t)
