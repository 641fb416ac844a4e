-- ===== src/Chatbot/Service/Tests.antt =====
-- Runs of the answer service on a knowledge base of two passages, and the example of its theorem.
use onegov2_spatial_assistan.Prelude.{
  ◌≡◌, refl, String, true, false, none, some, List, [], ◌∷◌, chars, ◌<◌, eqb, if◌then◌else◌, map,
}
use onegov2_spatial_assistan.Floats.Thousandths.{thousandths, thousandths-IsOrdered}
use onegov2_spatial_assistan.Chatbot.Models.{Citation, Passage}
use onegov2_spatial_assistan.Chatbot.Answer.{Composer}
use onegov2_spatial_assistan.Chatbot.Retrieval.{Runtime, init, retrieve}
use onegov2_spatial_assistan.Chatbot.Retrieval.Ranking.{IsRanking, retrieve-IsRanking}
use onegov2_spatial_assistan.Chatbot.Service.{Context, Services, base_of, answer_question}
use onegov2_spatial_assistan.Chatbot.Service.Grounded.{
  IsGrounded, AreOf, answer_question-IsGrounded,
}

abbrev runtime : Runtime thousandths
runtime = record { log = λ x. x; set_order = λ xs. xs }

abbrev source : String → String → Citation
source id kind = record {
  source_id = id;
  title_nl = "Titel";
  url = "docs/x.md";
  locator = "";
  kind = kind;
}

abbrev passage : String → String → Citation → List String → Passage
passage id text citation tags = record { id = id; text_nl = text; citation = citation; tags = tags }

abbrev salt : Passage
salt = passage "b" "Verzilting bij Gouda" (source "design" "doc") ("data_limits" ∷ [])

abbrev use_per_head : Passage
use_per_head = passage "a" "Verbruik per inwoner" (source "dictionary" "dictionary") []

abbrev verdict : Passage
verdict = passage "scen:results" "Eindoordeel" (source "scenario" "scenario") []

-- No language model answers, although one is asked for.
abbrev offline : Composer
offline = record {
  number = λ n. if eqb n 1 then "1" else "n";
  single_spaces = λ text. text;
  split_after_marks = λ text. text ∷ [];
  default_llm = λ model messages. none;
  model = "qwen3";
  llm_factory = none;
  use_llm = some true;
  has_key = false;
}

abbrev services : Services thousandths
services = record {
  lever_search = λ q. false;
  default_corpus = salt ∷ use_per_head ∷ [];
  composer = offline;
}

abbrev no_card : Context
no_card = record { corpus = none; scenario_card = none; top_k = 6 }

abbrev with_card : Context
with_card = record {
  corpus = none;
  scenario_card = some (record { scenario_id = "s1"; passages = verdict ∷ [] });
  top_k = 6;
}

abbrev asked : Context → String → String × List String
asked c question =
    let a = answer_question thousandths runtime services c question in
    (a.intent, map (λ s. s.source_id) a.citations)

known_term_test : asked no_card "verzilting" ≡ ("knowledge", "design" ∷ [])
unfolding answer_question
known_term_test = refl

limits_test : asked no_card "hoe betrouwbaar is verzilting" ≡ ("data_limits", "design" ∷ [])
unfolding answer_question
limits_test = refl

unknown_term_test : asked no_card "fiets" ≡ ("knowledge", [])
unfolding answer_question
unknown_term_test = refl

run_request_test : asked no_card "bereken verzilting" ≡ ("scenario_run_request", "design" ∷ [])
unfolding answer_question
run_request_test = refl

card_test : asked with_card "waarom fiets" ≡ ("explain_scenario", "scenario" ∷ [])
unfolding answer_question
card_test = refl

text_test :
    (answer_question thousandths runtime services no_card "verzilting").answer_nl
    ≡ "Op basis van de beschikbare documentatie:\n- Verzilting bij Gouda [1]\n\nBronnen:\n[1] Titel — docs/x.md"
unfolding answer_question
text_test = refl

answer_question-IsGrounded_example :
    let a = answer_question thousandths runtime services with_card "waarom fiets" in
    let base = base_of thousandths runtime services with_card in
    IsGrounded thousandths a
    × (0 < chars a.answer_nl)
    × AreOf base a.citations
    × AreOf base a.sources_considered
answer_question-IsGrounded_example =
    answer_question-IsGrounded thousandths runtime services with_card "waarom fiets"

abbrev both : List Passage
both = salt ∷ use_per_head ∷ []

retrieve-IsRanking_example :
    IsRanking thousandths runtime both "verzilting per inwoner" 1 ("data_limits" ∷ []) [] (
      retrieve thousandths runtime
        (init thousandths runtime both)
        "verzilting per inwoner"
        1
        ("data_limits" ∷ [])
        [])
retrieve-IsRanking_example =
    retrieve-IsRanking thousandths runtime both "verzilting per inwoner" 1 ("data_limits" ∷ []) []
      thousandths-IsOrdered
