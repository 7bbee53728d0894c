-- ===== src/Ingestion/Stream/Tests.antt =====
-- A book of three pages, the second of which is left out.
use raglibrarian.Base.{◌≡◌, refl, Bool, true, List, [], ◌∷◌, none, arith, literal, map, is_blank}
use raglibrarian.Ingestion.JobStates.{valid_identifier}
use raglibrarian.Ingestion.Chunk.{Chunk, new_chunk}
use raglibrarian.Ingestion.Chunker.Lines.{normalize, detect_heading}
use raglibrarian.Ingestion.Chunker.{
  Page, new, add_page, finish, boundary, push_tokens, shrink_loop, flush_loop, shrink_round,
  flush_round, emit, too_long, overlap_only,
}
use raglibrarian.Ingestion.Chunker.Tests.{env, policy, empty, new_runs}
use raglibrarian.Ingestion.ContentSelection.{ContentSelectionRange, ordered_ranges, any_reason}
use raglibrarian.Ingestion.Stream.{
  in_sequence, skip_ranges, in_range, validate_and_add_chunk, add_chunks, deliver, add_stream_page,
  enter_excluded, on_page, on_pages, finish_stream, begin, process_pages,
}
use raglibrarian.Ingestion.Stream.Sequence.{Passes, IsWritten, process_pages-Passes}
use raglibrarian.Ingestion.Stream.Excluded.{covered, erased, process_pages-erased}

program : Unit {0}
unfolding new add_page finish boundary push_tokens new_chunk valid_identifier normalize
    detect_heading shrink_loop flush_loop shrink_round flush_round emit too_long is_blank
    overlap_only in_sequence skip_ranges in_range validate_and_add_chunk add_chunks deliver
    add_stream_page enter_excluded on_page on_pages finish_stream begin process_pages covered erased
program = tt

abbrev takes : List Chunk → Chunk → Bool
takes ks k = true

abbrev ranges : List ContentSelectionRange
ranges = record { start = 2; end = 2; reason = literal "index" } ∷ []

abbrev pages : List Page
pages =
    record { number = 1; text = literal "abc" }
    ∷ record { number = 2; text = literal "index" }
    ∷ record { number = 3; text = literal "defgh" }
    ∷ []

-- The chunk of the first page ends at the page that is left out.
process_pages_runs :
    map
      (λ (k : Chunk). k.text)
      (process_pages env
        (literal "b")
        takes
        true
        3
        3
        pages
        (begin env (literal "b") takes empty ranges)).0.written
    ≡ literal "abc" ∷ literal "defg" ∷ literal "gh" ∷ []
unfolding program
process_pages_runs = refl

process_pages-Passes_example : Passes (IsWritten policy) (
    process_pages env
      (literal "b")
      takes
      true
      3
      3
      pages
      (begin env (literal "b") takes empty ranges))
process_pages-Passes_example =
    process_pages-Passes env (literal "b") takes policy (omega arith) empty ranges true 3 3 pages
      new_runs

in_order : ordered_ranges any_reason 3 none ranges ≡ true
unfolding ordered_ranges
in_order = refl

process_pages-erased_example :
    process_pages env
      (literal "b")
      takes
      true
      3
      3
      (map (erased ranges) pages)
      (begin env (literal "b") takes empty ranges)
    ≡ process_pages env
        (literal "b")
        takes
        true
        3
        3
        pages
        (begin env (literal "b") takes empty ranges)
process_pages-erased_example =
    process_pages-erased 3 env (literal "b") takes ranges 3 3 pages empty in_order
      (omega arith, (omega arith, (omega arith, tt)))
