-- ===== src/Ingestion/Chunker.antt =====
-- services/ingestion-service/internal/chunking/chunker.go. A call gives the chunker as it then
-- stands beside its result, also on an error. Orders and token numbers do not reach 2 ^ 64.
pub mod Lines
mod State
pub mod Buffer
pub mod Marks
pub mod Emission
pub mod Loops
pub mod Structure
pub mod Coverage
pub mod Termination
pub mod Tests
unfoldable pub use State.*
use raglibrarian.Base.{
  ℕ, zero, suc, ◌+◌, ◌-◌, ◌%◌, ◌^◌, Bool, true, false, not, ◌&&◌, ◌||◌, List, [], ◌∷◌, ◌++◌, map,
  Option, none, some, leb, ltb, ◌==◌, if◌then◌else◌, length, is_empty, all, take, drop, min, Text,
  is_blank, trim_space, byte_len, Result, ok, err,
}
use raglibrarian.Ingestion.Chunk.{
  Chunk, ChunkInput, ChunkError, new_chunk, invalid_policy, invalid_page, already_finished,
  invalid_boundary, invalid_window, empty_chunk, chunk_limit, panics, out_of_fuel,
}
use Lines.{StructureContext, Keyword, no_structure, normalize, detect_heading}

module _ (env : Environment) (book_id : Text) where
  -- `emit` on a window `t ∷ ts`, behind the check of the number of chunks.
  unfoldable pub emit_window : Chunker → BufferedToken → List BufferedToken → Outcome Chunk
  emit_window c t ts =
      let text = trim_space (env.decode (map (λ (b : BufferedToken). b.value) (t ∷ ts))) in
      let input : ChunkInput = record {
        id = [];
        book_id = book_id;
        text = text;
        chapter = c.structure.chapter;
        section = c.structure.section;
        order = c.next_order;
        token_start = t.global;
        token_end = (last_of t ts).global + 1;
        page_start = t.page;
        page_end = (last_of t ts).page;
      } in
      if is_empty text
      then (c, err empty_chunk)
      else elim (new_chunk env.sha256
          (record input { id = env.stable_chunk_id book_id input c.policy })) [
            | err e ↦ (c, err e)
            | ok chunk ↦ (
              record c {
                next_order = c.next_order + 1;
                chunk_count = c.chunk_count + 1;
                emitted_end = (last_of t ts).global + 1;
              },
              ok chunk,
            )
          ]

  unfoldable pub emit : Chunker → ℕ → Outcome Chunk
  unfolding emit_window
  emit c size =
      if leb c.policy.maximum_chunks c.chunk_count
      then (c, err chunk_limit)
      else elim (take size c.buffer) [ [] ↦ (c, err panics) | t ∷ ts ↦ emit_window c t ts ]

  -- One round of the loop in `flushBoundary`.
  unfoldable pub flush_round : Chunker → Outcome Chunk
  unfolding emit advance_window clear_overlap
  flush_round c =
      let window = min (length c.buffer) c.policy.maximum_tokens in
      let (d, r) = emit c window in
      elim r [
        | err e ↦ (d, err e)
        | ok chunk ↦ (
          if window == length d.buffer
              then clear d
              else clear_overlap
                  (advance_window d (d.policy.maximum_tokens - d.policy.overlap_tokens)),
          ok chunk,
        )
      ]

  -- The loop in `flushBoundary`. The fuel bounds its rounds.
  unfoldable pub flush_loop : ℕ → Chunker → Outcome (List Chunk)
  flush_loop zero c = (c, err out_of_fuel)
  flush_loop (suc fuel) c =
      let (d, r) = flush_round c in
      let rest = flush_loop fuel d in
      if is_empty c.buffer then (c, ok []) else then_rest (d, r) rest

  -- Each round drops a token from the buffer.
  unfoldable pub flush_boundary : Chunker → Outcome (List Chunk)
  unfolding flush_loop
  flush_boundary c = flush_loop (suc (length c.buffer)) c

  -- One round of the loop in `AddPage`: no chunk where the code continues.
  unfoldable pub shrink_round : Chunker → Outcome (Option Chunk)
  unfolding emit advance_window clear_overlap window_overlap_only shrink_window
  shrink_round c =
      let window = shrink_window c in
      if window == 0
      then (c, err invalid_window)
      else if window_overlap_only c window
      then (advance_window c window, ok none)
      else let (d, r) = emit c window in
        elim r [
          | err e ↦ (d, err e)
          | ok chunk ↦ (
            clear_overlap (
                advance_window d (
                  if leb window d.policy.overlap_tokens
                  then window
                  else window - d.policy.overlap_tokens)),
            ok (some chunk),
          )
        ]

  unfoldable pub shrink_loop : ℕ → Chunker → Outcome (List Chunk)
  shrink_loop zero c = (c, err out_of_fuel)
  shrink_loop (suc fuel) c =
      let (d, r) = shrink_round c in
      let rest = shrink_loop fuel d in
      if too_long c then then_rest_option (d, r) rest else (c, ok [])

  -- `AddPage` between its checks and the tokens of the page: a heading ends the structure before it.
  unfoldable pub enter_heading : Chunker → StructureContext → Outcome (List Chunk)
  unfolding clear_overlap flush_boundary
  enter_heading c heading =
      if is_empty heading.chapter && is_empty heading.section
      then (c, ok [])
      else let (d, r) = flush_boundary (clear_overlap c) in
        elim r [
          | err e ↦ (d, err e)
          | ok flushed ↦ (record d { structure = enter d.structure }, ok flushed)
        ]
    where
      enter : StructureContext → StructureContext
      enter old = record {
        chapter = if is_empty heading.chapter then old.chapter else heading.chapter;
        section =
            if is_empty heading.section
            then if is_empty heading.chapter then old.section else []
            else heading.section;
      }

  -- The tokens of a page, behind those of a newline if some are buffered.
  unfoldable pub push_page : ℕ → Text → Chunker → Chunker
  unfolding push_tokens
  push_page page text c =
      push_tokens page (env.encode text)
        (if is_empty c.buffer then c else push_tokens page (env.encode (10 ∷ [])) c)

  unfoldable pub fill : ℕ → Text → Chunker → Outcome (List Chunk)
  unfolding push_page shrink_loop clear_overlap
  fill page text c =
      let full = push_page page text c in
      let (d, r) = shrink_loop (suc (length full.buffer)) full in
      elim r [ err e ↦ (d, err e) | ok chunks ↦ (clear_overlap d, ok chunks) ]

  unfoldable pub add_page : Chunker → Page → Outcome (List Chunk)
  unfolding enter_heading fill
  add_page c page =
      let text = normalize env.nfc page.text in
      if c.finished || page.number == 0 || is_blank book_id
      then (c, err invalid_page)
      else if is_empty text
      then (c, ok [])
      else let (d, r) = enter_heading c (detect_heading env.numbered_heading text) in
        elim r [ err e ↦ (d, err e) | ok flushed ↦ append_chunks flushed (fill page.number text d) ]

  unfoldable pub finish : Chunker → Outcome (List Chunk)
  unfolding clear_overlap flush_boundary
  finish c =
      if c.finished || is_blank book_id
      then (c, err already_finished)
      else flush_boundary (clear_overlap (record c { finished = true }))

  unfoldable pub boundary : Chunker → Outcome (List Chunk)
  unfolding clear_overlap flush_boundary
  boundary c =
      if c.finished || is_blank book_id
      then (c, err invalid_boundary)
      else let (d, r) = flush_boundary (clear_overlap c) in
        elim r [
          | err e ↦ (d, err e)
          | ok chunks ↦ (record d { buffer = []; structure = no_structure }, ok chunks)
        ]
