-- ===== src/Ingestion/Chunker/State.antt =====
-- The types of services/ingestion-service/internal/chunking/chunker.go, and its functions that make no
-- chunk. Page numbers are uint32.
use raglibrarian.Base.{
  ℕ, suc, ◌+◌, ◌-◌, ◌%◌, ◌^◌, Bool, false, not, ◌&&◌, ◌||◌, List, [], ◌∷◌, ◌++◌, Option, none, some,
  leb, ltb, ◌==◌, if◌then◌else◌, length, is_empty, all, take, drop, min, Text, byte_len, Result, ok,
  err,
}
use raglibrarian.Ingestion.Chunk.{Chunk, ChunkInput, ChunkError, invalid_policy}
use raglibrarian.Ingestion.Chunker.Lines.{StructureContext, Keyword, no_structure}

-- The numbers of a policy. `New` refuses negative ones, which are left out here.
pub record Policy : Type 0 where
  pub maximum_tokens : ℕ
  pub overlap_tokens : ℕ
  pub maximum_chunks : ℕ
  pub target_pages : ℕ
  pub maximum_pages : ℕ
  pub identity_profile : Text

pub record Page : Type 0 where
  pub number : ℕ
  pub text : Text

pub record BufferedToken : Type 0 where
  pub value : ℕ
  pub page : ℕ
  pub global : ℕ

pub record Chunker : Type 0 where
  pub policy : Policy
  pub next_order : ℕ
  pub next_token : ℕ
  pub chunk_count : ℕ
  pub buffer : List BufferedToken
  pub structure : StructureContext
  pub finished : Bool
  pub emitted_end : ℕ

-- The tokenizer, and the parts of the libraries: canonical composition, the regular expression for
-- headings, SHA-256 and the identifier that is hashed from a chunk.
pub record Environment : Type 0 where
  pub encode : Text → List ℕ
  pub decode : List ℕ → Text
  pub nfc : Text → Text
  pub numbered_heading : Text → Option Keyword
  pub sha256 : Text → ℕ
  pub stable_chunk_id : Text → ChunkInput → Policy → Text

unfoldable pub identity_rune : ℕ → Bool
identity_rune c =
    (leb b'a' c && leb c b'z')
    || (leb b'A' c && leb c b'Z')
    || (leb b'0' c && leb c b'9')
    || (c == b'-')
    || (c == b'_')
    || (c == b'.')
    || (c == b':')

unfoldable pub valid_identity_profile : Text → Bool
unfolding identity_rune byte_len
valid_identity_profile value = if ltb 128 (byte_len value) then false else all identity_rune value

-- `New`, for a tokenizer that is not nil.
unfoldable pub new : Policy → Result ChunkError Chunker
unfolding valid_identity_profile
new p =
    if p.maximum_tokens == 0
      || leb p.maximum_tokens p.overlap_tokens
      || p.maximum_chunks == 0
      || p.target_pages == 0
      || ltb p.maximum_pages p.target_pages
      || not (valid_identity_profile p.identity_profile)
    then err invalid_policy
    else ok (record {
      policy = p;
      next_order = 0;
      next_token = 0;
      chunk_count = 0;
      buffer = [];
      structure = no_structure;
      finished = false;
      emitted_end = 0;
    })

abbrev pub Outcome : Type 0 → Type 0
Outcome A = Chunker × Result ChunkError A

-- The chunks of a round and of what follows it; an error gives up those made before it.
abbrev pub append_chunks : List Chunk → Outcome (List Chunk) → Outcome (List Chunk)
append_chunks before (c, ok chunks) = (c, ok (before ++ chunks))
append_chunks before (c, err e) = (c, err e)

abbrev pub then_rest : Outcome Chunk → Outcome (List Chunk) → Outcome (List Chunk)
then_rest (c, err e) rest = (c, err e)
then_rest (c, ok chunk) rest = append_chunks (chunk ∷ []) rest

abbrev pub then_rest_option : Outcome (Option Chunk) → Outcome (List Chunk) → Outcome (List Chunk)
then_rest_option (c, err e) rest = (c, err e)
then_rest_option (c, ok none) rest = rest
then_rest_option (c, ok (some chunk)) rest = append_chunks (chunk ∷ []) rest

unfoldable pub last_of : BufferedToken → List BufferedToken → BufferedToken
last_of t [] = t
last_of t (u ∷ us) = last_of u us

-- Page numbers are uint32.
unfoldable pub page_span : List BufferedToken → ℕ
unfolding last_of
page_span [] = 0
page_span (t ∷ ts) = ((last_of t ts).page + 2 ^ 32 - t.page) % 2 ^ 32 + 1

-- How many tokens stand before the first one behind a page.
unfoldable pub up_to_page : ℕ → List BufferedToken → ℕ
up_to_page last [] = 0
up_to_page last (t ∷ ts) = let rest = up_to_page last ts in if ltb last t.page then 0 else suc rest

unfoldable pub page_window_size : ℕ → List BufferedToken → ℕ
unfolding up_to_page
page_window_size maximum_pages [] = 0
page_window_size maximum_pages (t ∷ ts) =
    up_to_page ((t.page + maximum_pages + 2 ^ 32 - 1) % 2 ^ 32) (t ∷ ts)

unfoldable pub overlap_only : Chunker → Bool
overlap_only c =
    if is_empty c.buffer || c.emitted_end == 0
    then false
    else all (λ t. ltb t.global c.emitted_end) c.buffer

-- `size` is not above the length of the buffer where this is called.
unfoldable pub window_overlap_only : Chunker → ℕ → Bool
unfolding last_of
window_overlap_only c size =
    if c.emitted_end == 0
    then false
    else elim (take size c.buffer) [ [] ↦ false | t ∷ ts ↦ ltb (last_of t ts).global c.emitted_end ]

unfoldable pub advance_window : Chunker → ℕ → Chunker
advance_window c count = record c { buffer = drop count c.buffer }

abbrev pub clear : Chunker → Chunker
clear c = record c { buffer = [] }

-- `if c.overlapOnly() { c.buffer = c.buffer[:0] }`
unfoldable pub clear_overlap : Chunker → Chunker
clear_overlap c = if overlap_only c then clear c else c

unfoldable pub push_tokens : ℕ → List ℕ → Chunker → Chunker
push_tokens page [] c = c
push_tokens page (v ∷ vs) c = push_tokens page vs (record c {
  buffer = c.buffer ++ (record { value = v; page = page; global = c.next_token } ∷ []);
  next_token = c.next_token + 1;
})

-- The condition of the loop in `AddPage`.
unfoldable pub too_long : Chunker → Bool
unfolding page_span
too_long c =
    ltb c.policy.maximum_tokens (length c.buffer) || ltb c.policy.maximum_pages (page_span c.buffer)

unfoldable pub shrink_window : Chunker → ℕ
unfolding page_window_size
shrink_window c = min c.policy.maximum_tokens (page_window_size c.policy.maximum_pages c.buffer)
