-- ===== src/Chatbot/Service/Grounded.antt =====
-- services/chatbot/service.py: every answer asks back or rests on passages that were found.
use onegov2_spatial_assistan.Prelude.{
  ◌≡◌, ◌≢◌, refl, ◌⊎◌, inl, inr, String, false, not, none, some, List, [], ◌∷◌, chars, ◌<◌, map,
  take, is_empty, ◌==◌, eq_iff, arith, Bool-cases, In, In.here, In.there, In-take, In-append_right,
  All, All-at, All-intro, false≢true, sym, ◌∙◌, Bool, ◌&&◌,
}
use onegov2_spatial_assistan.Floats.{Floats, flt}
use onegov2_spatial_assistan.Chatbot.Models.{
  Citation, Passage, RetrievedPassage, ChatAnswer, dedupe_citations,
}
use onegov2_spatial_assistan.Chatbot.Models.Citations.{In-dedupe_citations, dedupe_citations-some}
use onegov2_spatial_assistan.Chatbot.Answer.Fallback.{compose_answer-some}
use onegov2_spatial_assistan.Chatbot.Intents.{classify_intent}
use onegov2_spatial_assistan.Chatbot.Retrieval.{Runtime, init, retrieve, confidence_threshold}
use onegov2_spatial_assistan.Chatbot.Retrieval.Ranking.{retrieve-In}
use onegov2_spatial_assistan.Chatbot.Service.{
  Context, Services, card_passages, has_card, cited, base_of, route_to_engine, retrieved_for,
  is_weak, answer_from, route_followup_nl, boost_tags, boost_kinds, clarifying_question,
  answer_question,
}

-- The answer asks back and is not written by a language model; or it answers a question that is not
-- one for the engine, with citations, and with enough of the question covered or on a card.
pub data IsGrounded (F : Floats) (a : ChatAnswer F) : Type 0 where
  asks_back : (f : String) → a.followup_nl ≡ some f → a.used_llm ≡ false → IsGrounded F a
  answered :
      a.followup_nl ≡ none
      → a.intent ≢ "scenario_run_request"
      → (flt F a.confidence (confidence_threshold F) ≡ false) ⊎ (a.intent ≡ "explain_scenario")
      → is_empty a.citations ≡ false
      → IsGrounded F a

-- Every citation is that of one of the passages.
abbrev pub AreOf : List Passage → List Citation → Type 0
AreOf base = All (λ c. In c (map (λ p. p.citation) base))

citation-In :
    {p : Passage} (base : List Passage) → In p base → In p.citation (map (λ q. q.citation) base)
citation-In [] m = elim m [ ]
citation-In (q ∷ base) (here e) = here (rw e refl)
citation-In (q ∷ base) (there m) = there (citation-In base m)

module _ (F : Floats) (R : Runtime F) (S : Services F) where
  abbrev Found : List Passage → List (RetrievedPassage F) → Type 0
  Found base rs = (p : RetrievedPassage F) → In p rs → In p.passage base

  cited-In :
      (base : List Passage) (rs : List (RetrievedPassage F))
      → Found base rs
      → {c : Citation} → In c (cited F R S rs)
      → In c (map (λ q. q.citation) base)
  cited-In base [] found m = elim m [ ]
  cited-In base (p ∷ rs) found (here e) = rw e (citation-In base (found p (here refl)))
  cited-In base (p ∷ rs) found (there m) = cited-In base rs (λ q n. found q (there n)) m

  on_card :
      (ps : List Passage) {p : RetrievedPassage F}
      → In p (map (λ q. record { passage = q; score = F.decimal 0 0 }) ps)
      → In p.passage ps
  on_card [] m = elim m [ ]
  on_card (q ∷ ps) (here e) = here (rw e refl)
  on_card (q ∷ ps) (there m) = there (on_card ps m)

  module _ (c : Context) (question : String) where
    retrieved_for-Found :
        (intent : String)
        → Found
            (base_of F R S c)
            (retrieved_for F R S c question (init F R (base_of F R S c)) intent)
    unfolding retrieved_for
    retrieved_for-Found intent p m =
        let tags = boost_tags F R S intent in
        let kinds = boost_kinds F R S intent in
        let r = init F R (base_of F R S c) in
        let rs = retrieve F R r question c.top_k tags kinds in
        elim (Bool-cases ((intent == "explain_scenario") && is_empty rs)) [
          | inl e ↦
              In-append_right _
                (In-take c.top_k (card_passages c.scenario_card) (on_card _ (rw e at m)))
          | inr e ↦ (retrieve-In F R _ question c.top_k tags kinds (rw e at m)).0
        ]

    Found-AreOf :
        (rs : List (RetrievedPassage F))
        → Found (base_of F R S c) rs
        → AreOf (base_of F R S c) (dedupe_citations (cited F R S rs))
    Found-AreOf rs found = All-intro _ _ (λ x m. cited-In _ rs found (In-dedupe_citations _ m))

    IsAnswer : ChatAnswer F → Type 0
    IsAnswer a =
        IsGrounded F a
        × (0 < chars a.answer_nl)
        × AreOf (base_of F R S c) a.citations
        × AreOf (base_of F R S c) a.sources_considered

    route_to_engine-IsAnswer :
        (intent : String)
        → IsAnswer (route_to_engine F R S c question (init F R (base_of F R S c)) intent)
    unfolding route_to_engine IsAnswer
    route_to_engine-IsAnswer intent =
        let rs = retrieve F R (init F R (base_of F R S c)) question 4 ("methodology" ∷ []) [] in
        let sources =
          Found-AreOf rs (λ p m. (retrieve-In F R _ question 4 ("methodology" ∷ []) [] m).0) in
        (
          asks_back route_followup_nl refl refl,
          omega arith,
          All-intro _ _ (λ x m. All-at _ (In-take 4 _ m) sources),
          sources,
        )

    cited-some :
        (rs : List (RetrievedPassage F))
        → is_empty rs ≡ false
        → is_empty (cited F R S (take 4 rs)) ≡ false
    cited-some [] h = h
    cited-some (p ∷ rs) h = refl

    answer_from-IsAnswer :
        (intent : String) (confidence : F.Float) (rs : List (RetrievedPassage F))
        → intent ≢ "scenario_run_request"
        → Found (base_of F R S c) rs
        → IsAnswer (answer_from F R S c question intent confidence rs)
    unfolding answer_from IsAnswer
    answer_from-IsAnswer intent confidence rs other found =
        elim (Bool-cases (is_weak F R S intent confidence rs)) [
          | inl e ↦ rw e (
            asks_back (clarifying_question intent) refl refl,
            omega arith,
            tt,
            Found-AreOf rs found,
          )
          | inr e ↦ rw e (
            answered refl other (strong (flt F confidence (confidence_threshold F)) (ground arith))
                (dedupe_citations-some _ (cited-some rs (ground arith))),
            compose_answer-some S.composer F question intent rs,
            Found-AreOf (take 4 rs) (λ p m. found p (In-take 4 rs m)),
            Found-AreOf rs found,
          )
        ]
      where
        strong :
            (b : Bool)
            → (b && not (intent == "explain_scenario")) ≡ false
            → (b ≡ false) ⊎ (intent ≡ "explain_scenario")
        strong b h = ground (arith, eq_iff intent "explain_scenario")

    -- Every answer asks the user back without a language model, or answers with at least one
    -- citation a question that is no request for a new scenario, either with the confidence at or
    -- above its threshold or about a scenario card. Each citation, also of the sources considered,
    -- is that of a passage of the corpus or of the card in context, and the text is not empty.
    pub answer_question-IsGrounded :
        let a = answer_question F R S c question in
        IsGrounded F a
        × (0 < chars a.answer_nl)
        × AreOf (base_of F R S c) a.citations
        × AreOf (base_of F R S c) a.sources_considered
    unfolding answer_question IsAnswer
    answer_question-IsGrounded =
        let intent = classify_intent S.lever_search question (has_card c.scenario_card) in
        elim (Bool-cases (intent == "scenario_run_request")) [
          | inl e ↦ rw e (route_to_engine-IsAnswer intent)
          | inr e ↦ rw e (
              answer_from-IsAnswer intent _ _
                (λ same. false≢true (sym e ∙ (eq_iff intent "scenario_run_request").1 same))
                (retrieved_for-Found intent))
        ]
