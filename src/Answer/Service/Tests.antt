-- ===== src/Answer/Service/Tests.antt =====
-- A call whose cache has an answer that no longer holds, so that the generator is asked.
use raglibrarian.Base.{ℕ, refl, true, false, [], ◌∷◌, some, arith, Text, literal}
use raglibrarian.Answer.Evidence.{Evidence, SearchResult, filter_search}
use raglibrarian.Answer.Service.{World, leader, generated, answer}
use raglibrarian.Answer.Service.Outcomes.{IsReply, answer-IsReply}
use raglibrarian.Answer.Output.Tests.{is_format, no_ascii, limits, segments}

abbrev hit : Text → ℕ → Evidence
hit id score = record {
  evidence_id = id;
  book = record { book_id = literal "b"; title = literal "The Sea"; author = literal "Ann" };
  chapter = id;
  section = [];
  page_start = 12;
  page_end = 14;
  passage = id;
  score = score;
}

abbrev found : SearchResult
found = record { results = hit (literal "e1") 7 ∷ hit (literal "e2") 8 ∷ []; documents = [] }

abbrev world : World
world = record {
  search = some found;
  positive = false;
  reaches = λ score. true;
  cached = some [];
  flight = leader;
  permit = true;
  generation = generated segments;
}

answer-IsReply_example :
    IsReply is_format limits no_ascii
      (omega arith)
      (filter_search false (λ score. true) found)
      (answer is_format limits world)
answer-IsReply_example = answer-IsReply is_format limits no_ascii (omega arith) world found refl
