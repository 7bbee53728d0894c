-- ===== src/Ingestion/Chunker/Tests.antt =====
-- A document of two pages, chunked by a tokenizer that makes a token of every character.
use raglibrarian.Base.{
  ℕ, ◌≡◌, refl, true, false, List, [], ◌∷◌, is_empty, literal, map, is_blank, none, ok, err,
}
use raglibrarian.Ingestion.JobStates.{valid_identifier}
use raglibrarian.Ingestion.Chunk.{Chunk, new_chunk}
use raglibrarian.Ingestion.Chunker.Lines.{no_structure, normalize, detect_heading}
use raglibrarian.Ingestion.Chunker.{
  Policy, Page, Chunker, Environment, new, add_page, finish, boundary, push_tokens, shrink_loop,
  flush_loop, shrink_round, flush_round, emit, too_long, overlap_only,
}
use raglibrarian.Ingestion.Chunker.Loops.{Chain}
use raglibrarian.Ingestion.Chunker.Coverage.{add_pages, chunk_document, chunk_document-Chain}
use raglibrarian.Ingestion.Chunker.Structure.{origin, final, new-Ready}
use raglibrarian.Ingestion.Chunker.Termination.{Ends, calls-Ends}

pub program : Unit {0}
unfolding new add_page finish boundary chunk_document push_tokens new_chunk valid_identifier
    normalize detect_heading shrink_loop flush_loop shrink_round flush_round emit too_long is_blank
    add_pages overlap_only
program = tt

abbrev pub env : Environment
env = record {
  encode = λ s. s;
  decode = λ s. s;
  nfc = λ s. s;
  numbered_heading = λ line. none;
  sha256 = λ s. 1;
  stable_chunk_id = λ book input policy. literal "id";
}

abbrev pub policy : Policy
policy = record {
  maximum_tokens = 4;
  overlap_tokens = 1;
  maximum_chunks = 9;
  target_pages = 1;
  maximum_pages = 2;
  identity_profile = [];
}

abbrev pub empty : Chunker
empty = record {
  policy = policy;
  next_order = 0;
  next_token = 0;
  chunk_count = 0;
  buffer = [];
  structure = no_structure;
  finished = false;
  emitted_end = 0;
}

abbrev pub pages : List Page
pages =
    record { number = 1; text = literal "abcde" } ∷ record { number = 2; text = literal "fg" } ∷ []

pub new_runs : new policy ≡ ok empty
unfolding new
new_runs = refl

abbrev left : Chunker
left = (chunk_document env (literal "b") empty pages).0

abbrev chunks : List Chunk
chunks = elim (chunk_document env (literal "b") empty pages).1 [ ok ks ↦ ks | err _ ↦ [] ]

document_runs : chunk_document env (literal "b") empty pages ≡ (left, ok chunks)
unfolding program
document_runs = refl

-- Tokens 0 to 4, 3 to 7 and 6 to 8.
ends_run :
    map {B = ℕ × ℕ} (λ (k : Chunk). (k.token_start, k.token_end)) chunks
    ≡ (0, 4) ∷ (3, 7) ∷ (6, 8) ∷ []
unfolding program
ends_run = refl

chunk_document-Chain_example :
    Chain policy origin chunks (final left) × (is_empty left.buffer ≡ true)
chunk_document-Chain_example =
    chunk_document-Chain env (literal "b") policy empty left pages chunks new_runs document_runs

calls-Ends_example :
    Ends (add_page env (literal "b") empty (record { number = 1; text = literal "abcde" }))
    × Ends (finish env (literal "b") empty)
    × Ends (boundary env (literal "b") empty)
calls-Ends_example =
    calls-Ends env (literal "b") empty (record { number = 1; text = literal "abcde" })
      (new-Ready policy empty new_runs).0
