-- ===== src/Ingestion/Chunker/Marks.antt =====
-- Where the chunker stands in the document, and what it has left behind.
use raglibrarian.Base.{
  ℕ, ◌+◌, ◌-◌, ◌<◌, ◌≤◌, ◌≡◌, ◌⊎◌, inl, inr, refl, arith, length, length-drop, drop, subst, ok, err,
}
use raglibrarian.Ingestion.Chunk.{Chunk, ChunkError}
use raglibrarian.Ingestion.Chunker.{Policy, Chunker, Outcome, advance_window, clear_overlap}
use raglibrarian.Ingestion.Chunker.Buffer.{Inv, start, Contiguous, Contiguous-drop}

-- Where a chunker stands: no later chunk begins before `lowest`, all tokens before `end` are
-- emitted, and the next chunk has the number `order`.
pub record Mark : Type 0 where
  pub lowest : ℕ
  pub end : ℕ
  pub order : ℕ

abbrev pub mark : Chunker → Mark
mark c = record { lowest = start c; end = c.emitted_end; order = c.next_order }

-- A chunk follows what was emitted: it has the next number, begins no later than the end of what was
-- emitted, no earlier than the chunk before it and not before the overlap, brings new tokens, and
-- is not too long.
pub record Follows (p : Policy) (m : Mark) (k : Chunk) : Type 0 where
  pub ordered : k.order ≡ m.order
  pub ascends : m.lowest ≤ k.token_start
  pub begins : k.token_start ≤ m.end
  pub grows : m.end < k.token_end
  pub overlaps : m.end ≤ k.token_start + p.overlap_tokens
  pub bounded : k.token_end ≤ k.token_start + p.maximum_tokens

abbrev pub after_chunk : Chunk → Mark
after_chunk k = record { lowest = k.token_start; end = k.token_end; order = k.order + 1 }

-- Nothing was emitted in between.
pub record Later (m n : Mark) : Type 0 where
  pub rises : m.lowest ≤ n.lowest
  pub same_end : n.end ≡ m.end
  pub same_order : n.order ≡ m.order

-- Clearing the overlap emits nothing.
pub clear_overlap-Later : (c : Chunker) → Inv c → Later (mark c) (mark (clear_overlap c))
unfolding clear_overlap
clear_overlap-Later c v = ground arith

-- Dropping tokens that were emitted.
pub advance_window-Inv :
    (c : Chunker) (n : ℕ)
    → Inv c
    → n ≤ length c.buffer
    → start c + n ≤ c.emitted_end
    → Inv (advance_window c n)
unfolding advance_window
advance_window-Inv c n v h g = record {
  some_tokens = v.some_tokens;
  short_overlap = v.short_overlap;
  fits = omega (arith, length-drop n c.buffer);
  contiguous =
      subst (λ s. Contiguous s (drop n c.buffer)) (omega (arith, length-drop n c.buffer))
        (Contiguous-drop (start c) n c.buffer v.contiguous);
  no_gap = omega (arith, length-drop n c.buffer);
  behind = v.behind;
  close = omega (arith, length-drop n c.buffer);
}

pub advance_window-same :
    (c : Chunker) (n : ℕ)
    → ((advance_window c n).emitted_end ≡ c.emitted_end)
      × ((advance_window c n).next_token ≡ c.next_token)
      × ((advance_window c n).policy ≡ c.policy)
      × (length (advance_window c n).buffer ≡ length c.buffer - n)
      × ((advance_window c n).next_order ≡ c.next_order)
unfolding advance_window
advance_window-same c n = (refl, refl, refl, length-drop n c.buffer, refl)

-- A call returned a value or an error.
pub Outcome-cases :
    {A : Type 0} (o : Outcome A)
    → ((c : Chunker) × (a : A) × (o ≡ (c, ok a)))
      ⊎ ((c : Chunker) × (x : ChunkError) × (o ≡ (c, err x)))
Outcome-cases (c, ok a) = inl (c, a, refl)
Outcome-cases (c, err x) = inr (c, x, refl)
