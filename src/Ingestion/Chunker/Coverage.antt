-- ===== src/Ingestion/Chunker/Coverage.antt =====
-- The calls of a chunker, and the chunks of a whole document.
use raglibrarian.Base.{
  ℕ, suc, ◌≡◌, inl, inr, true, List, [], ◌∷◌, arith, length, is_empty, is_blank, ◌==◌, subst, sym,
  ◌∙◌, Text, Bool-cases, ok, err, ◌&&◌, ◌||◌,
}
use raglibrarian.Ingestion.Chunk.{Chunk}
use raglibrarian.Ingestion.Chunker.Lines.{StructureContext, no_structure, normalize, detect_heading}
use raglibrarian.Ingestion.Chunker.{
  Policy, Page, Chunker, Outcome, Environment, append_chunks, clear_overlap, shrink_loop,
  flush_boundary, enter_heading, push_tokens, push_page, fill, add_page, finish, new, boundary,
}
use raglibrarian.Ingestion.Chunker.Buffer.{Inv, push_tokens-Inv}
use raglibrarian.Ingestion.Chunker.Marks.{mark, Later, Outcome-cases}
use raglibrarian.Ingestion.Chunker.Loops.{
  Chain, Chain-Later, Later-trans, Ready, Extends, Flushes, Extends-prefix, append-Extends,
  append_chunks-ok, shrink_loop_lem, flush_cleared_lem,
}
use raglibrarian.Ingestion.Chunker.Structure.{
  Extends-clear, Extends-refl, Extends-structure, empty-Later, final, finished-Inv, new-Ready,
  origin, push_tokens-same,
}

module _ (env : Environment) (book_id : Text) where
  pub push_page_lem :
      (page : ℕ) (text : Text) (c : Chunker)
      → Inv c
      → let d = push_page env book_id page text c in
        Inv d × Later (mark c) (mark d) × (d.policy ≡ c.policy)
  unfolding push_page
  push_page_lem page text c v =
      let first = push_tokens page (env.encode (10 ∷ [])) c in
      elim (Bool-cases (is_empty c.buffer)) [
        | inl none_held ↦
            let one = push_tokens-same page (env.encode text) c v in
            rw none_held (push_tokens-Inv page (env.encode text) c v, one.0, one.1)
        | inr some_held ↦
            let one = push_tokens-same page (env.encode (10 ∷ [])) c v in
            let held = push_tokens-Inv page (env.encode (10 ∷ [])) c v in
            let two = push_tokens-same page (env.encode text) first held in
            rw some_held (
              push_tokens-Inv page (env.encode text) first held,
              Later-trans (mark c) (mark first) (mark (push_tokens page (env.encode text) first))
                  one.0 two.0,
              two.1 ∙ one.1,
            )
      ]

  fill-Extends :
      (page : ℕ) (text : Text) (c d : Chunker) (ks : List Chunk)
      → Inv c
      → fill env book_id page text c ≡ (d, ok ks)
      → Extends c d ks
  unfolding fill
  fill-Extends page text c d ks v e =
      let full = push_page env book_id page text c in
      let (w, later, same_policy) = push_page_lem page text c v in
      elim (Outcome-cases (shrink_loop env book_id (suc (length full.buffer)) full)) [
        | inr (d0, x, failed) ↦ absurd (ground arith)
        | inl (d0, ls, done) ↦
            let x = shrink_loop_lem env book_id (suc (length full.buffer)) full d0 ls w done in
            subst (Extends c d) {x = ls} (ground arith) (
              subst (λ y. Extends c y ls) {x = clear_overlap d0} (ground arith)
                (Extends-clear c d0 ls (Extends-prefix c full d0 [] ls later same_policy x)))
      ]

  pub enter_heading-Extends :
      (c d : Chunker) (heading : StructureContext) (ks : List Chunk)
      → Ready c
      → enter_heading env book_id c heading ≡ (d, ok ks)
      → Extends c d ks
  unfolding enter_heading
  enter_heading-Extends c d heading ks v e =
      elim (Bool-cases (is_empty heading.chapter && is_empty heading.section)) [
        | inl none_found ↦
            subst (Extends c d) {x = []} (ground arith)
              (subst (λ y. Extends c y []) {x = c} (ground arith) (Extends-refl c v))
        | inr found ↦ elim (Outcome-cases (flush_boundary env book_id (clear_overlap c))) [
          | inr (d0, x, failed) ↦ absurd (ground arith)
          | inl (d0, ls, done) ↦
              let x = (flush_cleared_lem env book_id c d0 ls v done).0 in
              subst (Extends c d) {x = ls} (ground arith) (
                subst (λ y. Extends c y ls) {x = record d0 { structure = d.structure }}
                  (ground arith) (Extends-structure c d0 ls d.structure x))
        ]
      ]

  -- A page that is accepted yields chunks that go on where the last chunk ended.
  pub add_page-Extends :
      (c d : Chunker) (page : Page) (ks : List Chunk)
      → Ready c
      → add_page env book_id c page ≡ (d, ok ks)
      → Extends c d ks
  unfolding add_page
  add_page-Extends c d page ks v e =
      let text = normalize env.nfc page.text in
      let heading = detect_heading env.numbered_heading text in
      elim (Bool-cases (c.finished || page.number == 0 || is_blank book_id)) [
        | inl refused ↦ absurd (ground arith)
        | inr allowed ↦ elim (Bool-cases (is_empty text)) [
          | inl blank ↦
              subst (Extends c d) {x = []} (ground arith)
                (subst (λ y. Extends c y []) {x = c} (ground arith) (Extends-refl c v))
          | inr written ↦ elim (Outcome-cases (enter_heading env book_id c heading)) [
            | inr (d0, x, failed) ↦ absurd (ground arith)
            | inl (d0, flushed, done) ↦
                let x = enter_heading-Extends c d0 heading flushed v done in
                append-Extends c d0 d flushed ks (fill env book_id page.number text d0) x.chain
                  x.same_policy (ground arith)
                  (λ ls made. fill-Extends page.number text d0 d ls x.inv made)
          ]
        ]
      ]

  pub finish-Flushes :
      (c d : Chunker) (ks : List Chunk)
      → Ready c
      → finish env book_id c ≡ (d, ok ks)
      → Flushes c d ks
  unfolding finish
  finish-Flushes c d ks v e =
      let x =
        flush_cleared_lem env book_id (record c { finished = true }) d ks
          (record { inv = finished-Inv c v.inv; settled = v.settled }) (ground arith) in
      (
        record {
          inv = x.0.inv;
          settled = x.0.settled;
          chain = x.0.chain;
          same_policy = x.0.same_policy;
        },
        x.1,
        x.2,
      )

  emptied-Inv :
      (c : Chunker)
      → Inv c
      → is_empty c.buffer ≡ true
      → Inv (record c { buffer = []; structure = no_structure })
  emptied-Inv c v h =
      ground (arith, v.some_tokens, v.short_overlap, v.fits, v.no_gap, v.behind, v.close)

  emptied-mark :
      (c : Chunker)
      → is_empty c.buffer ≡ true
      → mark (record c { buffer = []; structure = no_structure }) ≡ mark c
  emptied-mark c h = ground arith

  -- A boundary that is accepted yields chunks that go on where the last chunk ended.
  pub boundary-Extends :
      (c d : Chunker) (ks : List Chunk)
      → Ready c
      → boundary env book_id c ≡ (d, ok ks)
      → Extends c d ks
  unfolding boundary
  boundary-Extends c d ks v e = elim (Bool-cases (c.finished || is_blank book_id)) [
    | inl refused ↦ absurd (ground arith)
    | inr allowed ↦ elim (Outcome-cases (flush_boundary env book_id (clear_overlap c))) [
      | inr (d0, x, failed) ↦ absurd (ground arith)
      | inl (d0, ls, done) ↦
          let (x, gone, _) = flush_cleared_lem env book_id c d0 ls v done in
          subst (Extends c d) {x = ls} (ground arith) (
            subst (λ y. Extends c y ls) {x = record d0 { buffer = []; structure = no_structure }}
              (ground arith)
              (record {
                inv = emptied-Inv d0 x.inv gone;
                settled = ground arith;
                chain = subst (Chain c.policy (mark c) ls) (sym (emptied-mark d0 gone)) x.chain;
                same_policy = x.same_policy;
              }))
    ]
  ]

  finish-empty :
      (c d : Chunker) (pre ks : List Chunk)
      → Ready c
      → append_chunks pre (finish env book_id c) ≡ (d, ok ks)
      → is_empty d.buffer ≡ true
  finish-empty c d pre ks v e =
      let (ls, made, _) = append_chunks-ok pre (finish env book_id c) d ks e in
      (finish-Flushes c d ls v made).1

  -- The pages of a document, then the end of it.
  unfoldable pub add_pages : Chunker → List Page → Outcome (List Chunk)
  add_pages c [] = (c, ok [])
  add_pages c (page ∷ pages) =
      let (d, r) = add_page env book_id c page in
      elim r [ err e ↦ (d, err e) | ok chunks ↦ append_chunks chunks (add_pages d pages) ]

  unfoldable pub chunk_document : Chunker → List Page → Outcome (List Chunk)
  chunk_document c pages =
      let (d, r) = add_pages c pages in
      elim r [ err e ↦ (d, err e) | ok chunks ↦ append_chunks chunks (finish env book_id d) ]

  add_pages-Extends :
      (c d : Chunker) (pages : List Page) (ks : List Chunk)
      → Ready c
      → add_pages c pages ≡ (d, ok ks)
      → Extends c d ks
  unfolding add_pages
  add_pages-Extends c d [] ks v e =
      subst (Extends c d) {x = []} (ground arith)
        (subst (λ y. Extends c y []) {x = c} (ground arith) (Extends-refl c v))
  add_pages-Extends c d (page ∷ pages) ks v e = elim (Outcome-cases (add_page env book_id c page)) [
    | inr (d0, x, failed) ↦ absurd (ground arith)
    | inl (d0, chunks, done) ↦
        let x = add_page-Extends c d0 page chunks v done in
        append-Extends c d0 d chunks ks (add_pages d0 pages) x.chain x.same_policy (ground arith)
          (λ ls made.
            add_pages-Extends d0 d pages ls (record { inv = x.inv; settled = x.settled }) made)
  ]

  -- Under a policy that `New` accepts, and when no call gives an error, the chunks of a document
  -- lead from its first token to its last without a gap: they are numbered from 0, and each begins
  -- no earlier than the one before it and no later than its end, repeats at most the policy's
  -- overlap, brings new tokens, and has at most the policy's number of tokens; nothing stays in the
  -- buffer.
  pub chunk_document-Chain :
      (p : Policy) (c d : Chunker) (pages : List Page) (ks : List Chunk)
      → new p ≡ ok c
      → chunk_document c pages ≡ (d, ok ks)
      → Chain p origin ks (final d) × (is_empty d.buffer ≡ true)
  unfolding chunk_document
  chunk_document-Chain p c d pages ks n e =
      let (v, from, policy, _) = new-Ready p c n in
      elim (Outcome-cases (add_pages c pages)) [
        | inr (d0, x, failed) ↦ absurd (ground arith)
        | inl (d0, chunks, done) ↦
            let x = add_pages-Extends c d0 pages chunks v done in
            let ready : Ready d0 = record { inv = x.inv; settled = x.settled } in
            let y =
              append-Extends c d0 d chunks ks (finish env book_id d0) x.chain x.same_policy
                (ground arith) (λ ls made. (finish-Flushes d0 d ls ready made).0) in
            let left = finish-empty d0 d chunks ks ready (ground arith) in
            let whole =
              Chain-Later c.policy (mark c) (mark d) (final d) ks y.chain
                (empty-Later d y.inv left) in
            (
              subst (λ q. Chain q origin ks (final d)) policy
                  (subst (λ m. Chain c.policy m ks (final d)) from whole),
              left,
            )
      ]
