-- ===== src/Chatbot/Service.antt =====
-- services/chatbot/service.py: `answer_question`, from the intent of a question over the passages
-- found to an answer, a question back, or the hint to use the scenario engine.
-- A scenario card comes with its identifier and with the passages that scenario_context.py reads out
-- of its JSON; the default corpus is a parameter.
pub mod Grounded
mod Tests
use onegov2_spatial_assistan.Prelude.{
  ℕ, String, Bool, true, false, not, ◌&&◌, ◌||◌, Option, none, some, List, [], ◌∷◌, ◌++◌, map, take,
  ◌==◌, is_empty, if◌then◌else◌,
}
use onegov2_spatial_assistan.Filters.Queries.{◌&◌}
use onegov2_spatial_assistan.Floats.{Floats, flt, zero_float}
use onegov2_spatial_assistan.Chatbot.Models.{
  Citation, Passage, RetrievedPassage, ChatAnswer, dedupe_citations,
}
use onegov2_spatial_assistan.Chatbot.Answer.{Composer, compose_answer}
use onegov2_spatial_assistan.Chatbot.Intents.{classify_intent}
use onegov2_spatial_assistan.Chatbot.Retrieval.{
  Runtime, Retriever, init, retrieve, coverage, confidence_threshold,
}

abbrev pub low_conf_nl : String
low_conf_nl =
    "Ik heb hier in de beschikbare documentatie niet genoeg context voor om dit "
    & "met zekerheid te beantwoorden."

abbrev pub clarifying_question : String → String
clarifying_question intent =
    if intent == "data_limits"
    then "Over welke databron of beperking wil je meer weten — bijvoorbeeld verzilting "
      & "(ZOUT_CONC), de CBS-bevolkingsproxy, of de lege tabellen?"
    else "Kun je je vraag iets specifieker maken? Bedoel je bijvoorbeeld de databronnen, "
      & "de methodologie (de DrinkwaterDruk-score), of een specifiek scenario-resultaat?"

abbrev pub route_nl : String
route_nl =
    "Ik kan in deze kennis-chat (fase 1) zelf nog geen nieuw scenario doorrekenen — "
    & "dat doet de Scenario-engine, zodat de cijfers deterministisch, reproduceerbaar en "
    & "met bron blijven. Gebruik daarvoor de knop 'Scenario-engine'. Ik kan je hier wél "
    & "uitleggen welke knoppen (aannames met bron) een scenario heeft, zoals het "
    & "KNMI-scenario, bevolkingsgroei, verbruik per persoon en de weging van de deelsignalen."

abbrev pub route_followup_nl : String
route_followup_nl =
    "Wil je dat ik de aannames van een scenario uitleg, of beschrijf je scenario "
    & "(gebied, KNMI-scenario, jaartal) zodat je het in de Scenario-engine kunt doorrekenen?"

-- A scenario card in context: its identifier, and what passages_from_card yields.
pub record Card : Type 0 where
  pub scenario_id : String
  pub passages : List Passage

-- The identifier of a card, unless it is empty.
abbrev pub card_id : Option Card → Option String
card_id none = none
card_id (some card) = if card.scenario_id == "" then none else some card.scenario_id

abbrev pub has_card : Option Card → Bool
has_card none = false
has_card (some _) = true

abbrev pub card_passages : Option Card → List Passage
card_passages none = []
card_passages (some card) = card.passages

-- The arguments besides the question: a corpus in place of the default one, and how many passages
-- are asked for.
pub record Context : Type 0 where
  pub corpus : Option (List Passage)
  pub scenario_card : Option Card
  pub top_k : ℕ

-- What the service calls: the pattern of the levers, the default corpus, and the composer of the
-- text with its language model.
pub record Services (F : Floats) : Type 0 where
  pub lever_search : String → Bool
  pub default_corpus : List Passage
  pub composer : Composer

module _ (F : Floats) (R : Runtime F) (S : Services F) where
  open F use {Float}

  abbrev pub cited : List (RetrievedPassage F) → List Citation
  cited retrieved = map (λ p. p.passage.citation) retrieved

  -- The passages that the retriever is built on.
  abbrev pub base_of : Context → List Passage
  base_of c =
      elim c.corpus [ none ↦ S.default_corpus | some base ↦ base ] ++ card_passages c.scenario_card

  unfoldable pub route_to_engine : Context → String → Retriever F → String → ChatAnswer F
  unfolding retrieve coverage dedupe_citations
  route_to_engine c question r intent =
      let retrieved = retrieve F R r question 4 ("methodology" ∷ []) [] in
      let sources = dedupe_citations (cited retrieved) in
      record {
        answer_nl = route_nl;
        intent = intent;
        confidence = coverage F R r question retrieved;
        citations = take 4 sources;
        sources_considered = sources;
        followup_nl = some route_followup_nl;
        used_llm = false;
        scenario_id = card_id c.scenario_card;
      }

  abbrev pub boost_tags : String → List String
  boost_tags intent = if intent == "data_limits" then "data_limits" ∷ [] else []

  abbrev pub boost_kinds : String → List String
  boost_kinds intent = if intent == "explain_scenario" then "scenario" ∷ [] else []

  -- The passages for an answer; an explanation falls back on those of the card.
  unfoldable pub retrieved_for : Context → String → Retriever F → String → List (RetrievedPassage F)
  unfolding retrieve
  retrieved_for c question r intent =
      let retrieved = retrieve F R r question c.top_k (boost_tags intent) (boost_kinds intent) in
      if intent == "explain_scenario" && is_empty retrieved
      then map (λ p. record { passage = p; score = zero_float F })
          (take c.top_k (card_passages c.scenario_card))
      else retrieved

  -- Retrieval is too weak for an answer.
  abbrev pub is_weak : String → Float → List (RetrievedPassage F) → Bool
  is_weak intent confidence retrieved =
      is_empty retrieved
      || (flt F confidence (confidence_threshold F) && not (intent == "explain_scenario"))

  unfoldable pub answer_from :
      Context → String → String → Float → List (RetrievedPassage F) → ChatAnswer F
  unfolding dedupe_citations compose_answer
  answer_from c question intent confidence retrieved =
      let sources_considered = dedupe_citations (cited retrieved) in
      if is_weak intent confidence retrieved
      then record {
        answer_nl = low_conf_nl;
        intent = intent;
        confidence = confidence;
        citations = [];
        sources_considered = sources_considered;
        followup_nl = some (clarifying_question intent);
        used_llm = false;
        scenario_id = card_id c.scenario_card;
      }
      else let text = compose_answer S.composer F question intent retrieved in
        record {
          answer_nl = text.0;
          intent = intent;
          confidence = confidence;
          citations = dedupe_citations (cited (take 4 retrieved));
          sources_considered = sources_considered;
          followup_nl = none;
          used_llm = text.1;
          scenario_id = card_id c.scenario_card;
        }

  unfoldable pub answer_question : Context → String → ChatAnswer F
  unfolding classify_intent init route_to_engine retrieved_for coverage answer_from
  answer_question c question =
      let intent = classify_intent S.lever_search question (has_card c.scenario_card) in
      let r = init F R (base_of c) in
      if intent == "scenario_run_request"
      then route_to_engine c question r intent
      else let retrieved = retrieved_for c question r intent in
        answer_from c question intent (coverage F R r question retrieved) retrieved
