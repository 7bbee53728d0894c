-- ===== src/Ingestion/Chunker/Loops.antt =====
-- The two loops of a chunker: the chunks that they make, and what they leave in the buffer.
use raglibrarian.Base.{
  ℕ, zero, suc, ◌<◌, ◌≤◌, ◌≡◌, inl, inr, refl, true, false, List, [], ◌∷◌, ◌++◌, arith, length,
  is_empty, subst, ◌∙◌, Text, Option, none, some, Bool-cases, ok, err,
}
use raglibrarian.Ingestion.Chunk.{Chunk}
use raglibrarian.Ingestion.Chunker.{
  Policy, Chunker, Outcome, Environment, append_chunks, then_rest_option, clear_overlap, too_long,
  shrink_round, shrink_loop, flush_round, flush_loop, flush_boundary,
}
use raglibrarian.Ingestion.Chunker.Buffer.{
  Inv, IsFresh, IsSettled, clear_overlap-Inv, clear_overlap-IsFresh, clear_overlap-same,
}
use raglibrarian.Ingestion.Chunker.Emission.{Shrinks, flush_round_lem, shrink_round_lem}
use raglibrarian.Ingestion.Chunker.Marks.{
  Mark, mark, after_chunk, Later, clear_overlap-Later, Follows, Outcome-cases,
}

too_long-IsSettled : (c : Chunker) → too_long c ≡ false → IsSettled c
unfolding too_long
too_long-IsSettled c h = ground arith

pub nonempty-pos : {A : Type 0} (xs : List A) → is_empty xs ≡ false → 0 < length xs
nonempty-pos [] h = cc
nonempty-pos (x ∷ xs) h = omega arith

-- Chunks that lead from one mark to another, each following the one before it.
abbrev pub Chain : Policy → Mark → List Chunk → Mark → Type 0
Chain p m [] n = Later m n
Chain p m (k ∷ ks) n = Follows p m k × Chain p (after_chunk k) ks n

pub Later-refl : (m : Mark) → Later m m
Later-refl m = omega arith

pub Later-trans : (l m n : Mark) → Later l m → Later m n → Later l n
Later-trans l m n h k = ground arith

pub Later-Chain :
    (p : Policy) (l m n : Mark) (ks : List Chunk) → Later l m → Chain p m ks n → Chain p l ks n
Later-Chain p l m n [] h k = Later-trans l m n h k
Later-Chain p l m n (c ∷ ks) h k = (ground (arith, k.0), k.1)

pub Chain-append :
    (p : Policy) (l m n : Mark) (ks ls : List Chunk)
    → Chain p l ks m
    → Chain p m ls n
    → Chain p l (ks ++ ls) n
Chain-append p l m n [] ls h k = Later-Chain p l m n ls h k
Chain-append p l m n (c ∷ ks) ls h k = (h.0, Chain-append p (after_chunk c) m n ks ls h.1 k)

pub Chain-Later :
    (p : Policy) (l m n : Mark) (ks : List Chunk) → Chain p l ks m → Later m n → Chain p l ks n
Chain-Later p l m n [] h k = Later-trans l m n h k
Chain-Later p l m n (c ∷ ks) h k = (h.0, Chain-Later p (after_chunk c) m n ks h.1 k)

-- A chunker between two calls.
pub record Ready (c : Chunker) : Type 0 where
  pub inv : Inv c
  pub settled : IsSettled c

pub record Extends (c d : Chunker) (ks : List Chunk) : Type 0 where
  pub inv : Inv d
  pub settled : IsSettled d
  pub chain : Chain c.policy (mark c) ks (mark d)
  pub same_policy : d.policy ≡ c.policy

-- What came before a successful call, and what it adds.
pub Extends-prefix :
    (c c' d : Chunker) (pre ks : List Chunk)
    → Chain c.policy (mark c) pre (mark c')
    → c'.policy ≡ c.policy
    → Extends c' d ks
    → Extends c d (pre ++ ks)
Extends-prefix c c' d pre ks h p x = record {
  inv = x.inv;
  settled = x.settled;
  chain =
      Chain-append c.policy (mark c) (mark c') (mark d) pre ks h
        (subst (λ q. Chain q (mark c') ks (mark d)) p x.chain);
  same_policy = x.same_policy ∙ p;
}

pub append_chunks-ok :
    (before : List Chunk) (o : Outcome (List Chunk)) (d : Chunker) (ks : List Chunk)
    → append_chunks before o ≡ (d, ok ks)
    → (ls : List Chunk) × (o ≡ (d, ok ls)) × (before ++ ls ≡ ks)
append_chunks-ok before (c, ok ls) d ks h = (ls, ground arith, ground arith)
append_chunks-ok before (c, err e) d ks h = absurd (ground arith)

pub append-Extends :
    (c c' d : Chunker) (pre ks : List Chunk) (o : Outcome (List Chunk))
    → Chain c.policy (mark c) pre (mark c')
    → c'.policy ≡ c.policy
    → append_chunks pre o ≡ (d, ok ks)
    → ((ls : List Chunk) → o ≡ (d, ok ls) → Extends c' d ls)
    → Extends c d ks
append-Extends c c' d pre ks o h p e rest =
    let (ls, made, joined) = append_chunks-ok pre o d ks e in
    subst (Extends c d) joined (Extends-prefix c c' d pre ls h p (rest ls made))

-- What a flush that succeeds leaves.
abbrev pub Flushes : Chunker → Chunker → List Chunk → Type 0
Flushes c d ks = Extends c d ks × (is_empty d.buffer ≡ true) × (d.next_token ≡ c.next_token)

module _ (env : Environment) (book_id : Text) where
  shrink_rest :
      (o : Option Chunk) (c c' d : Chunker) (ks : List Chunk) (rest : Outcome (List Chunk))
      → Shrinks c c' o
      → then_rest_option (c', ok o) rest ≡ (d, ok ks)
      → ((ls : List Chunk) → rest ≡ (d, ok ls) → Extends c' d ls)
      → Extends c d ks
  shrink_rest none c c' d ks rest r e next =
      Extends-prefix c c' d [] ks r.advances r.same_policy (next ks e)
  shrink_rest (some k) c c' d ks rest r e next =
      append-Extends c c' d (k ∷ []) ks rest (r.advances.0, r.advances.1) r.same_policy e next

  pub shrink_loop_lem :
      (fuel : ℕ) (c d : Chunker) (ks : List Chunk)
      → Inv c
      → shrink_loop env book_id fuel c ≡ (d, ok ks)
      → Extends c d ks
  unfolding shrink_loop
  shrink_loop_lem zero c d ks v e = absurd (ground arith)
  shrink_loop_lem (suc fuel) c d ks v e = elim (Bool-cases (too_long c)) [
    | inr short ↦ subst (Extends c d) {x = []} (ground arith) (
        subst (λ x. Extends c x []) {x = c} (ground arith)
          (record {
            inv = v;
            settled = too_long-IsSettled c short;
            chain = Later-refl (mark c);
            same_policy = refl;
          }))
    | inl long ↦ elim (Outcome-cases (shrink_round env book_id c)) [
      | inr (c', x, failed) ↦ absurd (ground arith)
      | inl (c', o, done) ↦
          let r = shrink_round_lem env book_id c c' o v done in
          shrink_rest o c c' d ks (shrink_loop env book_id fuel c') r (ground arith)
            (λ ls made. shrink_loop_lem fuel c' d ls r.inv made)
    ]
  ]

  pub flush_loop-empty :
      (fuel : ℕ) (c : Chunker)
      → 0 < fuel
      → is_empty c.buffer ≡ true
      → flush_loop env book_id fuel c ≡ (c, ok [])
  unfolding flush_loop
  flush_loop-empty zero c p h = absurd (omega arith)
  flush_loop-empty (suc fuel) c p h = rw h

  -- One chunk empties a settled buffer that ends in a new token.
  flush_loop_lem :
      (fuel : ℕ) (c d : Chunker) (ks : List Chunk)
      → Inv c
      → IsSettled c
      → IsFresh c
      → length c.buffer ≤ fuel
      → flush_loop env book_id (suc fuel) c ≡ (d, ok ks)
      → Flushes c d ks
  unfolding flush_loop
  flush_loop_lem fuel c d ks v s f p e = elim (Bool-cases (is_empty c.buffer)) [
    | inl none_left ↦ subst (Flushes c d) {x = []} (ground arith) (
        subst (λ x. Flushes c x []) {x = c} (ground arith)
          (
            record { inv = v; settled = s; chain = Later-refl (mark c); same_policy = refl },
            none_left,
            refl,
          ))
    | inr some_left ↦ elim (Outcome-cases (flush_round env book_id c)) [
      | inr (c', x, failed) ↦ absurd (ground arith)
      | inl (c', k, done) ↦
          let q = nonempty-pos c.buffer some_left in
          let r = flush_round_lem env book_id c c' k v s f q done in
          let gone : is_empty c'.buffer ≡ true = ground arith in
          let stop = flush_loop-empty fuel c' (omega arith) gone in
          subst (Flushes c d) {x = k ∷ []} (ground arith) (
            subst (λ x. Flushes c x (k ∷ [])) {x = c'} (ground arith)
              (
                record { inv = r.0; settled = ground arith; chain = (r.2, r.3); same_policy = r.5 },
                gone,
                r.4,
              ))
    ]
  ]

  -- The buffer that a call flushes is settled, and is cleared first if it holds no new token.
  pub flush_cleared_lem :
      (c d : Chunker) (ks : List Chunk)
      → Ready c
      → flush_boundary env book_id (clear_overlap c) ≡ (d, ok ks)
      → Flushes c d ks
  unfolding flush_boundary
  flush_cleared_lem c d ks v e =
      let b = clear_overlap c in
      let (same_end, same_next, same_policy, shorter) = clear_overlap-same c v.inv in
      let x =
        flush_loop_lem (length b.buffer) b d ks (clear_overlap-Inv c v.inv) (ground arith)
          (clear_overlap-IsFresh c v.inv) (omega arith) e in
      (
        Extends-prefix c b d [] ks (clear_overlap-Later c v.inv) same_policy x.0,
        x.1,
        x.2 ∙ same_next,
      )
