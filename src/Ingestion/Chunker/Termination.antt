-- ===== src/Ingestion/Chunker/Termination.antt =====
-- The loops of a chunker end: a call never runs out of the fuel that it gives them.
use raglibrarian.Base.{
  ℕ, zero, suc, ◌<◌, ◌≤◌, ◌≡◌, ◌≢◌, inl, inr, refl, true, List, [], ◌∷◌, arith, length, is_empty,
  take, min, Text, Option, none, some, Bool-cases, ok, err,
}
use raglibrarian.Ingestion.Chunk.{Chunk, new_chunk, out_of_fuel}
use raglibrarian.Ingestion.Chunker.{
  Page, BufferedToken, Chunker, Outcome, Environment, append_chunks, then_rest_option,
  clear_overlap, too_long, shrink_round, shrink_loop, shrink_window, flush_round, flush_loop,
  flush_boundary, enter_heading, fill, push_page, add_page, finish, boundary, emit, emit_window,
}
use raglibrarian.Ingestion.Chunker.Lines.{StructureContext, normalize, detect_heading}
use raglibrarian.Ingestion.Chunker.Coverage.{push_page_lem, enter_heading-Extends}
use raglibrarian.Ingestion.Chunker.Structure.{finished-Inv}
use raglibrarian.Ingestion.Chunker.Loops.{Ready, nonempty-pos, flush_loop-empty}
use raglibrarian.Ingestion.Chunker.Buffer.{
  Inv, IsSettled, IsFresh, clear_overlap-Inv, clear_overlap-IsFresh, clear_overlap-same,
}
use raglibrarian.Ingestion.Chunker.Emission.{flush_round_lem, shrink_round_lem}
use raglibrarian.Ingestion.Chunker.Marks.{Outcome-cases}

-- A call ends: it does not run out of fuel.
abbrev pub Ends : {A : Type 0} → Outcome A → Type 0
Ends o = o.1 ≢ err out_of_fuel

append_chunks-Ends :
    (before : List Chunk) (o : Outcome (List Chunk)) → Ends o → Ends (append_chunks before o)
append_chunks-Ends before (c, ok chunks) h = λ e. ground arith
append_chunks-Ends before (c, err x) h = λ e. h e

module _ (env : Environment) (book_id : Text) where
  emit_window-Ends :
      (c : Chunker) (t : BufferedToken) (ts : List BufferedToken)
      → Ends (emit_window env book_id c t ts)
  unfolding emit_window new_chunk
  emit_window-Ends c t ts = ground arith

  emit_on :
      (c : Chunker) (n : ℕ) (window : List BufferedToken)
      → take n c.buffer ≡ window
      → Ends (emit env book_id c n)
  unfolding emit
  emit_on c n [] w = λ e. ground arith
  emit_on c n (t ∷ ts) w = λ e. ground (arith, emit_window-Ends c t ts)

  emit-Ends : (c : Chunker) (n : ℕ) → Ends (emit env book_id c n)
  emit-Ends c n = emit_on c n (take n c.buffer) refl

  shrink_round-Ends : (c : Chunker) → Ends (shrink_round env book_id c)
  unfolding shrink_round
  shrink_round-Ends c = λ e. ground (arith, emit-Ends c (shrink_window c))

  flush_round-Ends : (c : Chunker) → Ends (flush_round env book_id c)
  unfolding flush_round
  flush_round-Ends c =
      λ e. ground (arith, emit-Ends c (min (length c.buffer) c.policy.maximum_tokens))

  shrink_rest-Ends :
      (o : Option Chunk) (c : Chunker) (rest : Outcome (List Chunk))
      → Ends rest
      → Ends (then_rest_option (c, ok o) rest)
  shrink_rest-Ends none c rest h = h
  shrink_rest-Ends (some k) c rest h = append_chunks-Ends (k ∷ []) rest h

  pub shrink_loop-Ends :
      (fuel : ℕ) (c : Chunker)
      → Inv c
      → length c.buffer < fuel
      → Ends (shrink_loop env book_id fuel c)
  unfolding shrink_loop
  shrink_loop-Ends zero c v h = absurd (omega arith)
  shrink_loop-Ends (suc fuel) c v h = elim (Bool-cases (too_long c)) [
    | inr short ↦ λ e. ground arith
    | inl long ↦ elim (Outcome-cases (shrink_round env book_id c)) [
      | inr (c', x, failed) ↦ λ e. ground (arith, shrink_round-Ends c)
      | inl (c', o, done) ↦
          let r = shrink_round_lem env book_id c c' o v done in
          let later = shrink_loop-Ends fuel c' r.inv (omega (arith, r.shorter)) in
          λ e. ground (arith, shrink_rest-Ends o c' (shrink_loop env book_id fuel c') later)
    ]
  ]

  -- A flush of a settled buffer that ends in a new token needs one round.
  flush_loop-Ends :
      (fuel : ℕ) (c : Chunker)
      → Inv c
      → IsSettled c
      → IsFresh c
      → length c.buffer ≤ fuel
      → Ends (flush_loop env book_id (suc fuel) c)
  unfolding flush_loop
  flush_loop-Ends fuel c v s f h = elim (Bool-cases (is_empty c.buffer)) [
    | inl none_left ↦ λ e. ground arith
    | inr some_left ↦ elim (Outcome-cases (flush_round env book_id c)) [
      | inr (c', x, failed) ↦ λ e. ground (arith, flush_round-Ends c)
      | inl (c', k, done) ↦
          let q = nonempty-pos c.buffer some_left in
          let r = flush_round_lem env book_id c c' k v s f q done in
          let stop = flush_loop-empty env book_id fuel c' (omega arith) (ground arith) in
          λ e. ground (arith, stop)
    ]
  ]

  flush_cleared-Ends : (c : Chunker) → Ready c → Ends (flush_boundary env book_id (clear_overlap c))
  unfolding flush_boundary
  flush_cleared-Ends c v =
      let b = clear_overlap c in
      let (_, _, same_policy, shorter) = clear_overlap-same c v.inv in
      flush_loop-Ends (length b.buffer) b (clear_overlap-Inv c v.inv) (ground (arith, v.settled))
        (clear_overlap-IsFresh c v.inv) (omega arith)

  fill-Ends : (page : ℕ) (text : Text) (c : Chunker) → Inv c → Ends (fill env book_id page text c)
  unfolding fill
  fill-Ends page text c v =
      let full = push_page env book_id page text c in
      let w = (push_page_lem env book_id page text c v).0 in
      λ e. ground (arith, shrink_loop-Ends (suc (length full.buffer)) full w (omega arith))

  enter_heading-Ends :
      (c : Chunker) (heading : StructureContext)
      → Ready c
      → Ends (enter_heading env book_id c heading)
  unfolding enter_heading
  enter_heading-Ends c heading v = λ e. ground (arith, flush_cleared-Ends c v)

  add_page-Ends : (c : Chunker) (page : Page) → Ready c → Ends (add_page env book_id c page)
  unfolding add_page
  add_page-Ends c page v =
      let text = normalize env.nfc page.text in
      let heading = detect_heading env.numbered_heading text in
      elim (Outcome-cases (enter_heading env book_id c heading)) [
        | inr (d, x, failed) ↦ λ e. ground (arith, enter_heading-Ends c heading v)
        | inl (d, flushed, done) ↦
            let w = (enter_heading-Extends env book_id c d heading flushed v done).inv in
            let later =
              append_chunks-Ends flushed (fill env book_id page.number text d)
                (fill-Ends page.number text d w) in
            λ e. ground arith
      ]

  finish-Ends : (c : Chunker) → Ready c → Ends (finish env book_id c)
  unfolding finish
  finish-Ends c v =
      let w : Ready (record c { finished = true }) = record {
        inv = finished-Inv c v.inv;
        settled = v.settled;
      } in
      λ e. ground (arith, flush_cleared-Ends (record c { finished = true }) w)

  boundary-Ends : (c : Chunker) → Ready c → Ends (boundary env book_id c)
  unfolding boundary
  boundary-Ends c v = λ e. ground (arith, flush_cleared-Ends c v)

  -- Between two calls every call ends: `AddPage`, `Finish` and `Boundary` do not run out of the
  -- fuel that stands for the rounds of their loops.
  pub calls-Ends :
      (c : Chunker) (page : Page)
      → Ready c
      → Ends (add_page env book_id c page)
        × Ends (finish env book_id c)
        × Ends (boundary env book_id c)
  calls-Ends c page v = (add_page-Ends c page v, finish-Ends c v, boundary-Ends c v)
