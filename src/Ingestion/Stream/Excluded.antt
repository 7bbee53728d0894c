-- ===== src/Ingestion/Stream/Excluded.antt =====
-- The pages that a selection leaves out.
use raglibrarian.Base.{
  ℕ, ◌≤◌, ◌≡◌, inl, inr, refl, sym, subst, ap, Bool, true, false, List, [], ◌∷◌, Option, none, some,
  arith, leb, ltb, ◌&&◌, ◌||◌, Bool-cases, Text, ok, err, if◌then◌else◌, ◌∙◌, ◌++◌, map, if-both,
}
use raglibrarian.Ingestion.Chunk.{Chunk, ChunkError}
use raglibrarian.Ingestion.Chunker.{Page, Chunker, Environment, Outcome, add_page, boundary}
use raglibrarian.Ingestion.ContentSelection.{ContentSelectionRange, ordered_ranges, any_reason}
use raglibrarian.Ingestion.Stream.{
  StageError, Stream, Step, then_step, skip_ranges, in_range, validate_and_add_chunk, add_chunks,
  deliver, add_stream_page, enter_excluded, on_page, on_pages, begin, process_pages,
}

-- A page is in one of the ranges.
unfoldable pub covered : ℕ → List ContentSelectionRange → Bool
covered n [] = false
covered n (r ∷ rs) = (leb r.start n && leb n r.end) || covered n rs

-- A page without its text if it is in one of the ranges.
unfoldable pub erased : List ContentSelectionRange → Page → Page
erased ranges page = if covered page.number ranges then record page { text = [] } else page

-- The numbers of the pages do not fall.
abbrev pub Ascending : ℕ → List Page → Type 0
Ascending m [] = Unit
Ascending m (page ∷ pages) = (m ≤ page.number) × Ascending page.number pages

-- The ranges from the first one on that does not end before a page.
unfoldable pub dropped : ℕ → List ContentSelectionRange → List ContentSelectionRange
dropped n [] = []
dropped n (r ∷ rs) = if ltb r.end n then dropped n rs else r ∷ rs

skip_ranges-dropped :
    (n : ℕ) (rs : List ContentSelectionRange) (s : Stream)
    → (skip_ranges n s rs).ranges ≡ dropped n rs
unfolding skip_ranges dropped
skip_ranges-dropped n [] s = refl
skip_ranges-dropped n (r ∷ rs) s =
    ground (arith, skip_ranges-dropped n rs (record s { in_excluded_range = false }))

then_step-same :
    (x : Step) (f g : Stream → Step)
    → ((t : Stream) → x ≡ (t, none) → f t ≡ g t)
    → then_step x f ≡ then_step x g
then_step-same (t, none) f g h = h t refl
then_step-same (t, some e) f g h = refl

module _ (total : ℕ) where
  abbrev IsOrdered : List ContentSelectionRange → Type 0
  IsOrdered rs = (previous : Option ℕ) × (ordered_ranges any_reason total previous rs ≡ true)

  covered-before :
      (n e : ℕ) (rs : List ContentSelectionRange)
      → ordered_ranges any_reason total (some e) rs ≡ true
      → n ≤ e
      → covered n rs ≡ false
  unfolding ordered_ranges covered
  covered-before n e [] h k = refl
  covered-before n e (r ∷ rs) h k = ground (arith, covered-before n r.end rs)

  ordered_rest :
      (r : ContentSelectionRange) (rs : List ContentSelectionRange)
      → IsOrdered (r ∷ rs)
      → ordered_ranges any_reason total (some r.end) rs ≡ true
  unfolding ordered_ranges
  ordered_rest r rs h = ground (arith, h.1)

  in_range-dropped :
      (n : ℕ) (rs : List ContentSelectionRange)
      → IsOrdered rs
      → in_range n (dropped n rs) ≡ covered n rs
  unfolding dropped in_range covered
  in_range-dropped n [] h = refl
  in_range-dropped n (r ∷ rs) h =
      let rest = ordered_rest r rs h in
      ground (arith, in_range-dropped n rs (some r.end, rest), covered-before n r.end rs rest)

  covered-dropped :
      (n k : ℕ) (rs : List ContentSelectionRange) → n ≤ k → covered k (dropped n rs) ≡ covered k rs
  unfolding dropped covered
  covered-dropped n k [] h = refl
  covered-dropped n k (r ∷ rs) h = ground (arith, covered-dropped n k rs)

  dropped-IsOrdered :
      (n : ℕ) (rs : List ContentSelectionRange) → IsOrdered rs → IsOrdered (dropped n rs)
  unfolding dropped
  dropped-IsOrdered n [] h = h
  dropped-IsOrdered n (r ∷ rs) h =
      if-both IsOrdered (ltb r.end n) (dropped n rs) (r ∷ rs)
        (λ e. dropped-IsOrdered n rs (some r.end, ordered_rest r rs h)) h

  module _ (env : Environment) (book_id : Text) (takes : List Chunk → Chunk → Bool) where
    abbrev Keeps : List ContentSelectionRange → Step → Type 0
    Keeps rs x = x.0.ranges ≡ rs

    add_chunks-Keeps :
        (ks : List Chunk) (s : Stream) → Keeps s.ranges (add_chunks env book_id takes ks s)
    unfolding add_chunks validate_and_add_chunk
    add_chunks-Keeps [] s = refl
    add_chunks-Keeps (k ∷ ks) s = ground (
      arith,
      add_chunks-Keeps ks (record s { previous_chunk = some k; written = s.written ++ (k ∷ []) }),
    )

    deliver-Keeps :
        (stage : ChunkError → StageError) (o : Outcome (List Chunk)) (s : Stream)
        → Keeps s.ranges (deliver env book_id takes stage o s)
    unfolding deliver
    deliver-Keeps stage (d, err e) s = refl
    deliver-Keeps stage (d, ok ks) s = add_chunks-Keeps ks (record s { chunker = d })

    enter_excluded-Keeps : (s : Stream) → Keeps s.ranges (enter_excluded env book_id takes s)
    unfolding enter_excluded
    enter_excluded-Keeps s =
        if-both (Keeps s.ranges) s.in_excluded_range (s, none) _ (λ e. refl)
          (set
            (deliver env book_id takes StageError.chunk_boundary_failed
              (boundary env book_id s.chunker) s)
            (deliver-Keeps StageError.chunk_boundary_failed (boundary env book_id s.chunker) s))
      where
        set :
            (x : Step)
            → Keeps s.ranges x
            → Keeps s.ranges (then_step x (λ t. (record t { in_excluded_range = true }, none)))
        set (t, none) h = h
        set (t, some e) h = h

    on_page-Keeps :
        (page : Page) (s : Stream)
        → Keeps (dropped page.number s.ranges) (on_page env book_id takes true page s)
    unfolding on_page add_stream_page
    on_page-Keeps page s =
        let at = skip_ranges page.number s s.ranges in
        let same = skip_ranges-dropped page.number s.ranges s in
        if-both (Keeps (dropped page.number s.ranges)) (in_range page.number at.ranges) _ _
          (λ e. enter_excluded-Keeps at ∙ same)
          (deliver-Keeps StageError.chunk_page_failed (add_page env book_id at.chunker page) at
            ∙ same)

    -- The callback does not read the text of a page that is left out.
    on_page-erased :
        (rs : List ContentSelectionRange) (page : Page) (s : Stream)
        → IsOrdered s.ranges
        → covered page.number s.ranges ≡ covered page.number rs
        → on_page env book_id takes true (erased rs page) s ≡ on_page env book_id takes true page s
    unfolding on_page erased
    on_page-erased rs page s h c =
        let at = skip_ranges page.number s s.ranges in
        let inside : in_range page.number at.ranges ≡ covered page.number rs =
          ap (in_range page.number) (skip_ranges-dropped page.number s.ranges s)
          ∙ in_range-dropped page.number s.ranges h
          ∙ c in
        elim (Bool-cases (covered page.number rs)) [
          | inl e ↦ rw (e, inside ∙ e) refl
          | inr e ↦ rw e refl
        ]

    on_pages-erased :
        (rs : List ContentSelectionRange) (m : ℕ) (pages : List Page) (s : Stream)
        → Ascending m pages
        → IsOrdered s.ranges
        → ((k : ℕ) → m ≤ k → covered k s.ranges ≡ covered k rs)
        → on_pages env book_id takes true (map (erased rs) pages) s
          ≡ on_pages env book_id takes true pages s
    unfolding on_pages
    on_pages-erased rs m [] s a h c = refl
    on_pages-erased rs m (page ∷ pages) s a h c =
        rw (on_page-erased rs page s h (c page.number a.0)) (
          then_step-same (on_page env book_id takes true page s)
            (on_pages env book_id takes true (map (erased rs) pages))
            (on_pages env book_id takes true pages)
            (λ t e.
              let k : t.ranges ≡ dropped page.number s.ranges =
                ap (λ x. x.0.ranges) (sym e) ∙ on_page-Keeps page s in
              on_pages-erased rs page.number pages t a.1
                (subst IsOrdered (sym k) (dropped-IsOrdered page.number s.ranges h))
                (λ n less.
                  ap (covered n) k
                  ∙ covered-dropped page.number n s.ranges less
                  ∙ c n (omega (arith, a.0, less)))))

    -- When a selection is enforced, its ranges are in order as the checks of a result leave them, and
    -- the numbers of the pages do not fall: the texts of the pages in its ranges have no part in what
    -- is written, nor in any error. Without these texts the outcome is the same.
    pub process_pages-erased :
        (rs : List ContentSelectionRange) (locations page_count : ℕ) (pages : List Page)
        (c : Chunker)
        → ordered_ranges any_reason total none rs ≡ true
        → Ascending 0 pages
        → process_pages env book_id takes true locations page_count
            (map (erased rs) pages)
            (begin env book_id takes c rs)
          ≡ process_pages env book_id takes true locations page_count pages
              (begin env book_id takes c rs)
    unfolding process_pages begin
    process_pages-erased rs locations page_count pages c h a =
        rw (on_pages-erased rs 0 pages (begin env book_id takes c rs) a (none, h) (λ k less. refl))
          refl
