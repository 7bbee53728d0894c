-- ===== src/Answer/Evidence/Tests.antt =====
-- Two passages of one book and their repetition.
use raglibrarian.Base.{
  ℕ, ◌≡◌, refl, [], ◌∷◌, All, trim_space, byte_len, valid_string, member, fields, join, text_eq,
  Text, literal, true, leb,
}
use raglibrarian.Answer.Evidence.{
  Evidence, SearchResult, Limits, filter_search, evidence_diversity_group, candidate_of, concat,
  evidence_candidates, context_evidence, valid_context_evidence, context_evidence_bytes,
  normalized_passage, usable, put_evidence, add, add_all, pick, select_evidence,
}
use raglibrarian.Answer.Evidence.Bounds.{Within, ids, select_evidence-Within}
use raglibrarian.Answer.Evidence.Maximal.{Left, select_evidence-could_add}

program : Unit {0}
unfolding filter_search evidence_diversity_group candidate_of concat evidence_candidates
    context_evidence valid_context_evidence context_evidence_bytes normalized_passage usable
    put_evidence add add_all pick select_evidence trim_space byte_len valid_string member fields
    join text_eq
program = tt

abbrev piece : Text → Text → ℕ → Evidence
piece id passage score = record {
  evidence_id = id;
  book = record { book_id = literal "b"; title = literal "t"; author = [] };
  chapter = [];
  section = [];
  page_start = 1;
  page_end = 1;
  passage = passage;
  score = score;
}

abbrev found : SearchResult
found = record {
  results =
      piece (literal "x") (literal "one  two") 5 ∷ piece (literal "y") (literal "one two") 4 ∷ [];
  documents =
      (piece (literal "x") (literal "three") 3 ∷ piece (literal "z") (literal "four") 2 ∷ []) ∷ [];
}

abbrev limits : Limits
limits = record {
  maximum_evidence = 3;
  maximum_context_bytes = 40;
  maximum_evidence_bytes = 20;
  maximum_segments = 2;
  maximum_answer_bytes = 200;
  maximum_summary_runes = 20;
  maximum_citations = 2;
}

-- The second repeats the passage of the first, the third its identifier.
selected_run : ids (select_evidence found limits) ≡ literal "x" ∷ literal "z" ∷ []
unfolding program
selected_run = refl

filtered_run : filter_search true (leb 4) found ≡ record { results = found.results; documents = [] }
unfolding program
filtered_run = refl

select_evidence-Within_example : Within limits (select_evidence found limits)
select_evidence-Within_example = select_evidence-Within found limits

select_evidence-could_add_example :
    All (Left limits (select_evidence found limits)) (evidence_candidates found)
select_evidence-could_add_example = select_evidence-could_add found limits
