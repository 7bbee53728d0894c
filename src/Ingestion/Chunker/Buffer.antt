-- ===== src/Ingestion/Chunker/Buffer.antt =====
-- The tokens that a chunker holds back: numbered without a gap, up to the next token.
use raglibrarian.Base.{
  ℕ, zero, suc, ◌+◌, ◌-◌, ◌%◌, ◌^◌, ◌<◌, ◌≤◌, ◌≡◌, true, false, List, [], ◌∷◌, ◌++◌, arith, length,
  length-append, all, take, drop, ltb, subst,
}
use raglibrarian.Ingestion.Chunker.{
  BufferedToken, Chunker, last_of, overlap_only, clear_overlap, push_tokens, up_to_page,
  page_window_size,
}

abbrev pub Contiguous : ℕ → List BufferedToken → Type 0
Contiguous s [] = Unit
Contiguous s (t ∷ ts) = (t.global ≡ s) × Contiguous (suc s) ts

-- The number of the first token in the buffer.
abbrev pub start : Chunker → ℕ
start c = c.next_token - length c.buffer

pub record Inv (c : Chunker) : Type 0 where
  pub some_tokens : 0 < c.policy.maximum_tokens
  pub short_overlap : c.policy.overlap_tokens < c.policy.maximum_tokens
  pub fits : length c.buffer ≤ c.next_token
  pub contiguous : Contiguous (start c) c.buffer
  -- Every token before the buffer was emitted.
  pub no_gap : start c ≤ c.emitted_end
  pub behind : c.emitted_end ≤ c.next_token
  -- What is held again is at most the overlap.
  pub close : c.emitted_end ≤ start c + c.policy.overlap_tokens

pub Contiguous-append :
    (s : ℕ) (xs ys : List BufferedToken)
    → Contiguous s xs
    → Contiguous (s + length xs) ys
    → Contiguous s (xs ++ ys)
Contiguous-append s [] ys h k = subst (λ n. Contiguous n ys) (omega arith) k
Contiguous-append s (x ∷ xs) ys h k =
    (h.0, Contiguous-append (suc s) xs ys h.1 (subst (λ n. Contiguous n ys) (omega arith) k))

pub Contiguous-drop :
    (s n : ℕ) (xs : List BufferedToken) → Contiguous s xs → Contiguous (s + n) (drop n xs)
Contiguous-drop s zero xs h = subst (λ k. Contiguous k xs) (omega arith) h
Contiguous-drop s (suc n) [] h = tt
Contiguous-drop s (suc n) (x ∷ xs) h =
    subst (λ k. Contiguous k (drop n xs)) (omega arith) (Contiguous-drop (suc s) n xs h.1)

pub Contiguous-take :
    (s n : ℕ) (xs : List BufferedToken) → Contiguous s xs → Contiguous s (take n xs)
Contiguous-take s zero xs h = tt
Contiguous-take s (suc n) [] h = tt
Contiguous-take s (suc n) (x ∷ xs) h = (h.0, Contiguous-take (suc s) n xs h.1)

pub last_of-global :
    (s : ℕ) (t : BufferedToken) (ts : List BufferedToken)
    → Contiguous s (t ∷ ts)
    → (last_of t ts).global ≡ s + length ts
unfolding last_of
last_of-global s t [] h = omega arith
last_of-global s t (u ∷ us) h = omega (arith, last_of-global (suc s) u us h.1)

all-before :
    (s e : ℕ) (ts : List BufferedToken)
    → Contiguous s ts
    → s ≤ e
    → all (λ t. ltb t.global e) ts ≡ true
    → s + length ts ≤ e
all-before s e [] h p a = omega arith
all-before s e (t ∷ ts) h p a = ground (arith, all-before (suc s) e ts h.1)

not_all-before :
    (s e : ℕ) (ts : List BufferedToken)
    → Contiguous s ts
    → all (λ t. ltb t.global e) ts ≡ false
    → e < s + length ts
not_all-before s e [] h a = absurd (ground arith)
not_all-before s e (t ∷ ts) h a = ground (arith, not_all-before (suc s) e ts h.1)

-- A buffer that is not empty ends in a token that was not emitted.
abbrev pub IsFresh : Chunker → Type 0
IsFresh c = 0 < length c.buffer → c.emitted_end < c.next_token

abbrev pub IsSettled : Chunker → Type 0
IsSettled c = length c.buffer ≤ c.policy.maximum_tokens

module _ (c : Chunker) (v : Inv c) where
  overlap_only_lem : overlap_only c ≡ true → c.emitted_end ≡ c.next_token
  unfolding overlap_only
  overlap_only_lem h =
      ground (arith, all-before (start c) c.emitted_end c.buffer v.contiguous v.no_gap)

  not-overlap_only : overlap_only c ≡ false → IsFresh c
  unfolding overlap_only
  not-overlap_only h p =
      ground (arith, not_all-before (start c) c.emitted_end c.buffer v.contiguous)

  pub clear_overlap-Inv : Inv (clear_overlap c)
  unfolding clear_overlap
  clear_overlap-Inv = ground (arith, overlap_only_lem)

  pub clear_overlap-IsFresh : IsFresh (clear_overlap c)
  unfolding clear_overlap
  clear_overlap-IsFresh = ground (arith, not-overlap_only)

  pub clear_overlap-same :
      ((clear_overlap c).emitted_end ≡ c.emitted_end)
      × ((clear_overlap c).next_token ≡ c.next_token)
      × ((clear_overlap c).policy ≡ c.policy)
      × (length (clear_overlap c).buffer ≤ length c.buffer)
  unfolding clear_overlap
  clear_overlap-same = ground arith

-- One more token at the end of the buffer.
abbrev pub pushed : ℕ → ℕ → Chunker → Chunker
pushed page value c = record c {
  buffer = c.buffer ++ (record { value = value; page = page; global = c.next_token } ∷ []);
  next_token = c.next_token + 1;
}

pub pushed-Inv : (page value : ℕ) (c : Chunker) → Inv c → Inv (pushed page value c)
pushed-Inv page value c v =
    let t : BufferedToken = record { value = value; page = page; global = c.next_token } in
    let n : length (c.buffer ++ (t ∷ [])) ≡ length c.buffer + 1 = length-append c.buffer (t ∷ []) in
    record {
      some_tokens = v.some_tokens;
      short_overlap = v.short_overlap;
      fits = omega (arith, n);
      contiguous =
          subst (λ s. Contiguous s (c.buffer ++ (t ∷ []))) (omega (arith, n))
            (Contiguous-append (start c) c.buffer (t ∷ []) v.contiguous (omega arith, tt));
      no_gap = omega (arith, n);
      behind = omega arith;
      close = omega (arith, n);
    }

pub push_tokens-Inv : (page : ℕ) (vs : List ℕ) (c : Chunker) → Inv c → Inv (push_tokens page vs c)
unfolding push_tokens
push_tokens-Inv page [] c v = v
push_tokens-Inv page (x ∷ vs) c v =
    push_tokens-Inv page vs (pushed page x c) (pushed-Inv page x c v)

pub up_to_page-le : (last : ℕ) (ts : List BufferedToken) → up_to_page last ts ≤ length ts
unfolding up_to_page
up_to_page-le last [] = omega arith
up_to_page-le last (t ∷ ts) = ground (arith, up_to_page-le last ts)

pub page_window_size-le :
    (pages : ℕ) (ts : List BufferedToken) → page_window_size pages ts ≤ length ts
unfolding page_window_size
page_window_size-le pages [] = omega arith
page_window_size-le pages (t ∷ ts) = up_to_page-le ((t.page + pages + 2 ^ 32 - 1) % 2 ^ 32) (t ∷ ts)
