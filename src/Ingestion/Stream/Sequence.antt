-- ===== src/Ingestion/Stream/Sequence.antt =====
-- The chunks that reach the writer, in their order.
use raglibrarian.Base.{
  ℕ, ◌≤◌, ◌≡◌, inl, inr, refl, sym, subst, ap, Bool, true, false, not, List, [], ◌∷◌, Option, none,
  some, arith, is_empty, Bool-cases, Text, ok, err, ◌∙◌, if-both, ltb, ◌&&◌, ◌==◌,
}
use raglibrarian.Ingestion.Chunk.{Chunk, ChunkError, out_of_fuel}
use raglibrarian.Ingestion.Chunker.{
  Policy, Page, Chunker, Environment, Outcome, new, add_page, boundary, finish,
}
use raglibrarian.Ingestion.Chunker.Marks.{Mark, mark, after_chunk, Later, Follows}
use raglibrarian.Ingestion.Chunker.Loops.{
  Chain, Chain-append, Chain-Later, Later-refl, Later-trans, Later-Chain, Ready, Extends,
}
use raglibrarian.Ingestion.Chunker.Coverage.{add_page-Extends, boundary-Extends, finish-Flushes}
use raglibrarian.Ingestion.Chunker.Structure.{origin, final, new-Ready, empty-Later}
use raglibrarian.Ingestion.Chunker.Termination.{calls-Ends}
use raglibrarian.Ingestion.ContentSelection.{ContentSelectionRange}
use raglibrarian.Ingestion.Stream.{
  StageError, Stream, Step, chunk_sequence_invalid, chunk_boundary_failed, chunk_page_failed,
  chunk_finalize_failed, then_step, default_overlap_tokens, in_sequence, skip_ranges, in_range,
  validate_and_add_chunk, add_chunks, deliver, add_stream_page, enter_excluded, on_page, on_pages,
  finish_stream, begin, process_pages,
}

-- The errors that no run has: a chunk out of sequence, and a loop that does not end.
abbrev pub ruled_out : StageError → Bool
ruled_out chunk_sequence_invalid = true
ruled_out (chunk_boundary_failed out_of_fuel) = true
ruled_out (chunk_page_failed out_of_fuel) = true
ruled_out (chunk_finalize_failed out_of_fuel) = true
ruled_out _ = false

-- A step that succeeds leaves a stream with a property; one that fails has no error that is ruled out.
abbrev pub Passes : (Stream → Type 0) → Step → Type 0
Passes Q (s, none) = Q s
Passes Q (s, some e) = ruled_out e ≡ false

Passes-then :
    (Q R : Stream → Type 0) (x : Step) (next : Stream → Step)
    → Passes Q x
    → ((s : Stream) → Q s → Passes R (next s))
    → Passes R (then_step x next)
Passes-then Q R (s, none) next h k = k s h
Passes-then Q R (s, some e) next h k = h

Passes-map :
    (Q R : Stream → Type 0) (x : Step) → Passes Q x → ((s : Stream) → Q s → R s) → Passes R x
Passes-map Q R (s, none) h k = k s h
Passes-map Q R (s, some e) h k = h

-- The mark behind the last chunk.
abbrev last_mark : Option Chunk → Mark
last_mark none = origin
last_mark (some k) = after_chunk k

record Streams (p : Policy) (s : Stream) : Type 0 where
  ready : Ready s.chunker
  policy : s.chunker.policy ≡ p
  chain : Chain p origin s.written (last_mark s.previous_chunk)
  later : Later (last_mark s.previous_chunk) (mark s.chunker)

-- One chunk was added.
record Wrote (p : Policy) (c : Chunker) (k : Chunk) (s : Stream) : Type 0 where
  same_chunker : s.chunker ≡ c
  last : s.previous_chunk ≡ some k
  chain : Chain p origin s.written (after_chunk k)

-- Chunks were added up to a mark.
record Added (p : Policy) (c : Chunker) (n : Mark) (s : Stream) : Type 0 where
  same_chunker : s.chunker ≡ c
  chain : Chain p origin s.written (last_mark s.previous_chunk)
  later : Later (last_mark s.previous_chunk) n

-- What a run that succeeds has written.
pub record IsWritten (p : Policy) (t : Stream) : Type 0 where
  pub chain : Chain p origin t.written (final t.chunker)
  pub some_chunk : is_empty t.written ≡ false

module _ (env : Environment) (book_id : Text) (takes : List Chunk → Chunk → Bool) (p : Policy)
    (overlap : p.overlap_tokens ≤ default_overlap_tokens) where
  Follows-in_sequence :
      (o : Option Chunk) (k : Chunk) → Follows p (last_mark o) k → in_sequence o k ≡ true
  unfolding in_sequence
  Follows-in_sequence none k f = refl
  Follows-in_sequence (some l) k f = ground (arith, f.ordered, f.ascends, f.grows, f.overlaps)

  validate_and_add_chunk-Added :
      (k : Chunk) (s : Stream)
      → Chain p origin s.written (last_mark s.previous_chunk)
      → Follows p (last_mark s.previous_chunk) k
      → Passes (Wrote p s.chunker k) (validate_and_add_chunk env book_id takes k s)
  unfolding validate_and_add_chunk
  validate_and_add_chunk-Added k s h f =
      let good = Follows-in_sequence s.previous_chunk k f in
      rw good (
        if-both (Passes (Wrote p s.chunker k)) (not (takes s.written k)) _ _ (λ e. refl)
          (record {
            same_chunker = refl;
            last = refl;
            chain =
                Chain-append p origin (last_mark s.previous_chunk) (after_chunk k) s.written
                  (k ∷ []) h (f, Later-refl (after_chunk k));
          }))

  add_chunks-Added :
      (ks : List Chunk) (s : Stream) (n : Mark)
      → Chain p origin s.written (last_mark s.previous_chunk)
      → Chain p (last_mark s.previous_chunk) ks n
      → Passes (Added p s.chunker n) (add_chunks env book_id takes ks s)
  unfolding add_chunks
  add_chunks-Added [] s n h k = record { same_chunker = refl; chain = h; later = k }
  add_chunks-Added (c ∷ ks) s n h k =
      Passes-then (Wrote p s.chunker c) (Added p s.chunker n)
        (validate_and_add_chunk env book_id takes c s) (add_chunks env book_id takes ks)
        (validate_and_add_chunk-Added c s h k.0)
        (λ t q.
          subst (λ d. Passes (Added p d n) (add_chunks env book_id takes ks t)) q.same_chunker
            (add_chunks-Added ks t n
              (subst (λ o. Chain p origin t.written (last_mark o)) {y = t.previous_chunk}
                (sym q.last) q.chain)
              (subst (λ o. Chain p (last_mark o) ks n) {y = t.previous_chunk} (sym q.last) k.1)))

  -- What a call of the chunker delivers.
  deliver-Streams :
      (K : Chunker → Type 0) (stage : ChunkError → StageError) (o : Outcome (List Chunk))
      (s : Stream)
      → Streams p s
      → ((d : Chunker) (ks : List Chunk) → o ≡ (d, ok ks) → Extends s.chunker d ks × K d)
      → ((e : ChunkError) → o.1 ≡ err e → ruled_out (stage e) ≡ false)
      → Passes (λ t. Streams p t × K t.chunker) (deliver env book_id takes stage o s)
  unfolding deliver
  deliver-Streams K stage (d, err e) s v good bad = bad e refl
  deliver-Streams K stage (d, ok ks) s v good bad =
      let (x, k) = good d ks refl in
      let chain = subst (λ q. Chain q (mark s.chunker) ks (mark d)) v.policy x.chain in
      Passes-map (Added p d (mark d)) (λ t. Streams p t × K t.chunker)
        (add_chunks env book_id takes ks (record s { chunker = d }))
        (add_chunks-Added ks (record s { chunker = d }) (mark d) v.chain
          (Later-Chain p (last_mark s.previous_chunk) (mark s.chunker) (mark d) ks v.later chain))
        (λ t a. (
          record {
            ready = subst Ready (sym a.same_chunker) (record { inv = x.inv; settled = x.settled });
            policy = ap (λ c. c.policy) a.same_chunker ∙ x.same_policy ∙ v.policy;
            chain = a.chain;
            later =
                subst (λ c. Later (last_mark t.previous_chunk) (mark c)) (sym a.same_chunker)
                  a.later;
          },
          subst K (sym a.same_chunker) k,
        ))

  add_stream_page-Streams :
      (page : Page) (s : Stream)
      → Streams p s
      → Passes (Streams p) (add_stream_page env book_id takes page s)
  unfolding add_stream_page
  add_stream_page-Streams page s v =
      Passes-map (λ t. Streams p t × Unit) (Streams p) _
        (deliver-Streams (λ c. Unit) chunk_page_failed (add_page env book_id s.chunker page) s v
          (λ d ks e. (add_page-Extends env book_id s.chunker d page ks v.ready e, tt))
          (λ e h. ground (arith, (calls-Ends env book_id s.chunker page v.ready).0)))
        (λ t h. h.0)

  abbrev no_page : Page
  no_page = record { number = 0; text = [] }

  excluded-Streams :
      (s : Stream) (b : Bool) → Streams p s → Streams p (record s { in_excluded_range = b })
  excluded-Streams s b v = record {
    ready = v.ready;
    policy = v.policy;
    chain = v.chain;
    later = v.later;
  }

  enter_excluded-Streams :
      (s : Stream) → Streams p s → Passes (Streams p) (enter_excluded env book_id takes s)
  unfolding enter_excluded
  enter_excluded-Streams s v =
      if-both (Passes (Streams p)) s.in_excluded_range (s, none) _ (λ e. v)
        (Passes-then (λ t. Streams p t × Unit) (Streams p) _ _
          (deliver-Streams (λ c. Unit) chunk_boundary_failed (boundary env book_id s.chunker) s v
            (λ d ks e. (boundary-Extends env book_id s.chunker d ks v.ready e, tt))
            (λ e h. ground (arith, (calls-Ends env book_id s.chunker no_page v.ready).2)))
          (λ t h. excluded-Streams t true h.0))

  skip_ranges-Streams :
      (number : ℕ) (rs : List ContentSelectionRange) (s : Stream)
      → Streams p s
      → Streams p (skip_ranges number s rs)
  unfolding skip_ranges
  skip_ranges-Streams number [] s v = record {
    ready = v.ready;
    policy = v.policy;
    chain = v.chain;
    later = v.later;
  }
  skip_ranges-Streams number (r ∷ rs) s v =
      if-both (Streams p) (ltb r.end number) _ (record s { ranges = r ∷ rs })
        (λ e.
          skip_ranges-Streams number rs (record s { in_excluded_range = false })
            (excluded-Streams s false v))
        (record { ready = v.ready; policy = v.policy; chain = v.chain; later = v.later })

  on_page-Streams :
      (enforced : Bool) (page : Page) (s : Stream)
      → Streams p s
      → Passes (Streams p) (on_page env book_id takes enforced page s)
  unfolding on_page
  on_page-Streams enforced page s v =
      let at = skip_ranges page.number s s.ranges in
      let w = skip_ranges-Streams page.number s.ranges s v in
      if-both (Passes (Streams p)) (not enforced) _ _ (λ e. add_stream_page-Streams page s v)
        (if-both (Passes (Streams p)) (in_range page.number at.ranges) _ _
          (λ e. enter_excluded-Streams at w) (add_stream_page-Streams page at w))

  on_pages-Streams :
      (enforced : Bool) (pages : List Page) (s : Stream)
      → Streams p s
      → Passes (Streams p) (on_pages env book_id takes enforced pages s)
  unfolding on_pages
  on_pages-Streams enforced [] s v = v
  on_pages-Streams enforced (page ∷ pages) s v =
      Passes-then (Streams p) (Streams p) _ _ (on_page-Streams enforced page s v)
        (on_pages-Streams enforced pages)

  finish_stream-IsWritten :
      (s : Stream) → Streams p s → Passes (IsWritten p) (finish_stream env book_id takes s)
  unfolding finish_stream
  finish_stream-IsWritten s v =
      Passes-then (λ t. Streams p t × (is_empty t.chunker.buffer ≡ true)) (IsWritten p) _ _
        (deliver-Streams (λ c. is_empty c.buffer ≡ true) chunk_finalize_failed
          (finish env book_id s.chunker) s v
          (λ d ks e. let x = finish-Flushes env book_id s.chunker d ks v.ready e in (x.0, x.1))
          (λ e h. ground (arith, (calls-Ends env book_id s.chunker no_page v.ready).1)))
        (λ t h. elim (Bool-cases (is_empty t.written)) [
          | inl e ↦ rw e refl
          | inr e ↦ rw e (record {
            chain =
                Chain-Later p origin (last_mark t.previous_chunk) (final t.chunker) t.written
                  h.0.chain
                  (Later-trans (last_mark t.previous_chunk) (mark t.chunker) (final t.chunker)
                    h.0.later (empty-Later t.chunker h.0.ready.inv h.1));
            some_chunk = e;
          })
        ])

  -- Under a policy that `New` accepts with an overlap of at most the default one: no chunk of a book is
  -- out of sequence, no loop of the chunker runs out of fuel, and when nothing fails, the
  -- writer has got at least one chunk, and the chunks lead from the first token that was chunked to
  -- the last without a gap, whatever pages a selection leaves out.
  pub process_pages-Passes :
      (c : Chunker) (ranges : List ContentSelectionRange) (enforced : Bool)
      (locations page_count : ℕ) (pages : List Page)
      → new p ≡ ok c
      → Passes (IsWritten p) (
          process_pages env book_id takes enforced locations page_count pages
            (begin env book_id takes c ranges))
  unfolding process_pages begin
  process_pages-Passes c ranges enforced locations page_count pages n =
      let (ready, from, policy, _) = new-Ready p c n in
      Passes-then (Streams p) (IsWritten p) _ _
        (on_pages-Streams enforced pages (begin env book_id takes c ranges) (record {
          ready = ready;
          policy = policy;
          chain = Later-refl origin;
          later = subst (Later origin) (sym from) (Later-refl origin);
        }))
        (λ t v.
          if-both (Passes (IsWritten p)) (not (locations == 0) && not (page_count == locations)) _ _
            (λ e. refl) (finish_stream-IsWritten t v))
