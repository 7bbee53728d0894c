-- ===== src/Ingestion/Chunker/Structure.antt =====
-- A new chunker, a finished one, and one that has read a line of structure.
use raglibrarian.Base.{
  ℕ, ◌+◌, ◌++◌, length-append, ◌≤◌, ◌≡◌, refl, true, false, List, [], ◌∷◌, arith, length, is_empty,
  ◌∙◌, ok,
}
use raglibrarian.Ingestion.Chunk.{Chunk}
use raglibrarian.Ingestion.Chunker.Lines.{StructureContext}
use raglibrarian.Ingestion.Chunker.{Policy, BufferedToken, Chunker, clear_overlap, push_tokens, new}
use raglibrarian.Ingestion.Chunker.Buffer.{
  Inv, IsSettled, clear_overlap-Inv, clear_overlap-same, pushed, pushed-Inv,
}
use raglibrarian.Ingestion.Chunker.Marks.{Mark, mark, Later, clear_overlap-Later}
use raglibrarian.Ingestion.Chunker.Loops.{Chain-Later, Later-refl, Later-trans, Ready, Extends}

pub Extends-refl : (c : Chunker) → Ready c → Extends c c []
Extends-refl c v = record {
  inv = v.inv;
  settled = v.settled;
  chain = Later-refl (mark c);
  same_policy = refl;
}

abbrev pub origin : Mark
origin = record { lowest = 0; end = 0; order = 0 }

-- A new chunker is ready for its first page.
pub new-Ready :
    (p : Policy) (c : Chunker)
    → new p ≡ ok c
    → Ready c × (mark c ≡ origin) × (c.policy ≡ p) × (c.finished ≡ false)
unfolding new
new-Ready p c h = ground arith

pub Extends-clear :
    (c d : Chunker) (ks : List Chunk) → Extends c d ks → Extends c (clear_overlap d) ks
Extends-clear c d ks x =
    let (_, _, same_policy, shorter) = clear_overlap-same d x.inv in
    record {
      inv = clear_overlap-Inv d x.inv;
      settled = settle same_policy shorter;
      chain =
          Chain-Later c.policy (mark c) (mark d) (mark (clear_overlap d)) ks x.chain
            (clear_overlap-Later d x.inv);
      same_policy = same_policy ∙ x.same_policy;
    }
  where
    settle :
        (clear_overlap d).policy ≡ d.policy
        → length (clear_overlap d).buffer ≤ length d.buffer
        → IsSettled (clear_overlap d)
    settle p h = ground (arith, x.settled)

-- The mark behind the last token.
abbrev pub final : Chunker → Mark
final c = record { lowest = c.next_token; end = c.next_token; order = c.next_order }

-- A chunker with an empty buffer has emitted every token.
pub empty-Later : (c : Chunker) → Inv c → is_empty c.buffer ≡ true → Later (mark c) (final c)
empty-Later c v h = ground arith

structure-Inv : (c : Chunker) (s : StructureContext) → Inv c → Inv (record c { structure = s })
structure-Inv c s v = ground arith

pub finished-Inv : (c : Chunker) → Inv c → Inv (record c { finished = true })
finished-Inv c v = ground arith

pub Extends-structure :
    (c d : Chunker) (ks : List Chunk) (s : StructureContext)
    → Extends c d ks
    → Extends c (record d { structure = s }) ks
Extends-structure c d ks s x = record {
  inv = structure-Inv d s x.inv;
  settled = x.settled;
  chain = x.chain;
  same_policy = x.same_policy;
}

-- Pushing tokens emits nothing.
pub push_tokens-same :
    (page : ℕ) (vs : List ℕ) (c : Chunker)
    → Inv c
    → Later (mark c) (mark (push_tokens page vs c)) × ((push_tokens page vs c).policy ≡ c.policy)
unfolding push_tokens
push_tokens-same page [] c v = (Later-refl (mark c), refl)
push_tokens-same page (x ∷ vs) c v =
    let t : BufferedToken = record { value = x; page = page; global = c.next_token } in
    let (later, policy) = push_tokens-same page vs (pushed page x c) (pushed-Inv page x c v) in
    let n : length (c.buffer ++ (t ∷ [])) ≡ length c.buffer + 1 = length-append c.buffer (t ∷ []) in
    let held = v.fits in
    (
      Later-trans (mark c) (mark (pushed page x c)) (mark (push_tokens page vs (pushed page x c)))
          (omega (arith, n)) later,
      policy,
    )
