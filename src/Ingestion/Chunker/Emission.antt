-- ===== src/Ingestion/Chunker/Emission.antt =====
-- One chunk: what `emit` makes of the first tokens of the buffer.
use raglibrarian.Base.{
  ℕ, suc, ◌+◌, ◌-◌, ◌<◌, ◌≤◌, ◌≡◌, inl, inr, refl, true, false, List, [], ◌∷◌, arith, length,
  length-drop, length-take, take, min, leb, ◌==◌, if◌then◌else◌, subst, ap, Text, Option, none,
  some, Bool-cases, ok,
}
use raglibrarian.Ingestion.Chunk.{Chunk, new_chunk}
use raglibrarian.Ingestion.Chunker.{
  BufferedToken, Chunker, Environment, window_overlap_only, advance_window, clear_overlap,
  emit_window, emit, flush_round, shrink_window, shrink_round,
}
use raglibrarian.Ingestion.Chunker.Buffer.{
  Inv, IsFresh, IsSettled, start, Contiguous, Contiguous-drop, Contiguous-take, last_of-global,
  clear_overlap-Inv, clear_overlap-same, page_window_size-le,
}
use raglibrarian.Ingestion.Chunker.Marks.{
  Follows, Later, Outcome-cases, advance_window-Inv, advance_window-same, after_chunk,
  clear_overlap-Later, mark,
}

module _ (env : Environment) (book_id : Text) where
  -- What an accepted `emit` changes.
  pub record Emits (c : Chunker) (size : ℕ) (d : Chunker) (k : Chunk) : Type 0 where
    pub begins : k.token_start ≡ start c
    pub ends : k.token_end ≡ start c + size
    pub order : k.order ≡ c.next_order
    pub allowed : c.chunk_count < c.policy.maximum_chunks
    pub after : d ≡ record c {
      next_order = c.next_order + 1;
      chunk_count = c.chunk_count + 1;
      emitted_end = start c + size;
    }

  emit_window_lem :
      (c d : Chunker) (s : ℕ) (t : BufferedToken) (ts : List BufferedToken) (k : Chunk)
      → Contiguous s (t ∷ ts)
      → emit_window env book_id c t ts ≡ (d, ok k)
      → (k.token_start ≡ s)
        × (k.token_end ≡ s + suc (length ts))
        × (k.order ≡ c.next_order)
        × (d ≡ record c {
          next_order = c.next_order + 1;
          chunk_count = c.chunk_count + 1;
          emitted_end = s + suc (length ts);
        })
  unfolding emit_window new_chunk
  emit_window_lem c d s t ts k h e = ground (arith, last_of-global s t ts h)

  emit_on :
      (c d : Chunker) (size : ℕ) (k : Chunk) (window : List BufferedToken)
      → take size c.buffer ≡ window
      → Inv c
      → size ≤ length c.buffer
      → emit env book_id c size ≡ (d, ok k)
      → Emits c size d k
  unfolding emit
  emit_on c d size k [] w v h e = absurd (ground arith)
  emit_on c d size k (t ∷ ts) w v h e =
      let n : suc (length ts) ≡ size = omega (arith, length-take size c.buffer, ap length w) in
      let tokens : Contiguous (start c) (t ∷ ts) =
        subst (Contiguous (start c)) w (Contiguous-take (start c) size c.buffer v.contiguous) in
      ground (arith, n, emit_window_lem c d (start c) t ts k tokens)

  pub emit-Emits :
      (c d : Chunker) (size : ℕ) (k : Chunk)
      → Inv c
      → size ≤ length c.buffer
      → emit env book_id c size ≡ (d, ok k)
      → Emits c size d k
  emit-Emits c d size k v h e = emit_on c d size k (take size c.buffer) refl v h e

  -- The chunker behind `emit`, when its window has moved.
  Emits-Inv :
      (c d : Chunker) (size n : ℕ) (k : Chunk)
      → Inv c
      → size ≤ length c.buffer
      → n ≤ size
      → size ≤ n + c.policy.overlap_tokens
      → Emits c size d k
      → Inv (advance_window d n)
  unfolding advance_window
  Emits-Inv c d size n k v h l o e =
      let same : d.buffer ≡ c.buffer = ap (λ (x : Chunker). x.buffer) e.after in
      let policy : d.policy ≡ c.policy = ap (λ (x : Chunker). x.policy) e.after in
      let next : d.next_token ≡ c.next_token = ap (λ (x : Chunker). x.next_token) e.after in
      let end : d.emitted_end ≡ start c + size = ap (λ (x : Chunker). x.emitted_end) e.after in
      let left = length-drop n c.buffer in
      let tokens = Contiguous-drop (start c) n c.buffer v.contiguous in
      ground (arith, v, left, tokens)

  -- A round of the loop in `flushBoundary` on a settled buffer puts all of it into one chunk.
  pub flush_round_lem :
      (c d : Chunker) (k : Chunk)
      → Inv c
      → IsSettled c
      → IsFresh c
      → 0 < length c.buffer
      → flush_round env book_id c ≡ (d, ok k)
      → Inv d
        × (d.buffer ≡ [])
        × Follows c.policy (mark c) k
        × Later (after_chunk k) (mark d)
        × (d.next_token ≡ c.next_token)
        × (d.policy ≡ c.policy)
        × (k.order ≡ c.next_order)
        × (d.next_order ≡ c.next_order + 1)
  unfolding flush_round
  flush_round_lem c d k v s f p e =
      let size = min (length c.buffer) c.policy.maximum_tokens in
      let whole : size ≡ length c.buffer = omega arith in
      elim (Outcome-cases (emit env book_id c size)) [
        | inl (d0, k0, done) ↦
            let m = emit-Emits c d0 size k0 v (omega arith) done in ground (arith, m, whole)
        | inr (d0, x, failed) ↦ absurd (ground arith)
      ]

shrink_window-le : (c : Chunker) → shrink_window c ≤ length c.buffer
unfolding shrink_window
shrink_window-le c = omega (arith, page_window_size-le c.policy.maximum_pages c.buffer)

shrink_window-le_maximum : (c : Chunker) → shrink_window c ≤ c.policy.maximum_tokens
unfolding shrink_window
shrink_window-le_maximum c = omega arith

-- The test whether a window brings new tokens says so.
window_overlap_on :
    (c : Chunker) (n : ℕ) (window : List BufferedToken)
    → take n c.buffer ≡ window
    → Inv c
    → 0 < n
    → n ≤ length c.buffer
    → (window_overlap_only c n ≡ true → start c + n ≤ c.emitted_end)
      × (window_overlap_only c n ≡ false → c.emitted_end < start c + n)
unfolding window_overlap_only
window_overlap_on c n [] w v p h = absurd (omega (arith, length-take n c.buffer, ap length w))
window_overlap_on c n (t ∷ ts) w v p h =
    let m : suc (length ts) ≡ n = omega (arith, length-take n c.buffer, ap length w) in
    let tokens : Contiguous (start c) (t ∷ ts) =
      subst (Contiguous (start c)) w (Contiguous-take (start c) n c.buffer v.contiguous) in
    ground (arith, m, last_of-global (start c) t ts tokens)

window_overlap_only_lem :
    (c : Chunker) (n : ℕ)
    → Inv c
    → 0 < n
    → n ≤ length c.buffer
    → (window_overlap_only c n ≡ true → start c + n ≤ c.emitted_end)
      × (window_overlap_only c n ≡ false → c.emitted_end < start c + n)
window_overlap_only_lem c n v p h = window_overlap_on c n (take n c.buffer) refl v p h

-- What a round of the loop in `AddPage` does to what was emitted.
abbrev pub Advances : Chunker → Chunker → Option Chunk → Type 0
Advances c d none = Later (mark c) (mark d)
Advances c d (some k) = Follows c.policy (mark c) k × Later (after_chunk k) (mark d)

pub record Shrinks (c d : Chunker) (o : Option Chunk) : Type 0 where
  pub inv : Inv d
  pub advances : Advances c d o
  pub same_tokens : d.next_token ≡ c.next_token
  pub same_policy : d.policy ≡ c.policy
  pub shorter : length d.buffer < length c.buffer

module _ (env : Environment) (book_id : Text) where
  shrink_skip :
      (c : Chunker) (n : ℕ)
      → Inv c
      → 0 < n
      → n ≤ length c.buffer
      → window_overlap_only c n ≡ true
      → Shrinks c (advance_window c n) none
  unfolding advance_window
  shrink_skip c n v p h t = record {
    inv = advance_window-Inv c n v h ((window_overlap_only_lem c n v p h).0 t);
    advances = omega (arith, length-drop n c.buffer);
    same_tokens = refl;
    same_policy = refl;
    shorter = omega (arith, length-drop n c.buffer);
  }

  shrink_emit :
      (c d : Chunker) (n m : ℕ) (k : Chunk)
      → Inv c
      → 0 < n
      → n ≤ length c.buffer
      → n ≤ c.policy.maximum_tokens
      → window_overlap_only c n ≡ false
      → 0 < m
      → m ≤ n
      → n ≤ m + c.policy.overlap_tokens
      → Emits env book_id c n d k
      → Shrinks c (clear_overlap (advance_window d m)) (some k)
  shrink_emit c d n m k v p h l t q r o e =
      let moved = Emits-Inv env book_id c d n m k v h r o e in
      let first = advance_window-same d m in
      let second = clear_overlap-same (advance_window d m) moved in
      let third = clear_overlap-Later (advance_window d m) moved in
      record {
        inv = clear_overlap-Inv (advance_window d m) moved;
        advances = ground (arith, (window_overlap_only_lem c n v p h).1 t);
        same_tokens = ground arith;
        same_policy = ground arith;
        shorter = ground arith;
      }

  pub shrink_round_lem :
      (c d : Chunker) (o : Option Chunk)
      → Inv c
      → shrink_round env book_id c ≡ (d, ok o)
      → Shrinks c d o
  unfolding shrink_round
  shrink_round_lem c d o v e =
      let n = shrink_window c in
      let m = if leb n c.policy.overlap_tokens then n else n - c.policy.overlap_tokens in
      let within : n ≤ length c.buffer = shrink_window-le c in
      let limited : n ≤ c.policy.maximum_tokens = shrink_window-le_maximum c in
      elim (Bool-cases (n == 0)) [
        | inl none_left ↦ absurd (ground arith)
        | inr some_left ↦
            let p : 0 < n = ground arith in
            elim (Bool-cases (window_overlap_only c n)) [
              | inl old ↦ subst (Shrinks c d) {x = none} (ground arith) (
                  subst (λ x. Shrinks c x none) {x = advance_window c n} (ground arith)
                    (shrink_skip c n v p within old))
              | inr new ↦ elim (Outcome-cases (emit env book_id c n)) [
                | inr (d0, x, failed) ↦ absurd (ground arith)
                | inl (d0, k, done) ↦
                    let made = emit-Emits env book_id c d0 n k v within done in
                    subst (Shrinks c d) {x = some k} (ground arith) (
                      subst (λ x. Shrinks c x (some k)) {x = clear_overlap (advance_window d0 m)}
                        (ground (arith, made))
                        (shrink_emit c d0 n m k v p within limited new (ground arith) (ground arith)
                          (ground arith) made))
              ]
            ]
      ]
