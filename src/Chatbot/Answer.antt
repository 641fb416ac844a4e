-- ===== src/Chatbot/Answer.antt =====
-- services/chatbot/answer.py, and split_sentences_nl of text.py: the text of an answer, by a
-- language model or, when that fails, by the best sentence of each passage.
-- Python's `re` with the two patterns of the sentence splitter, the text of a number, and the call
-- of a language model are parameters; an exception of the call is `none`.
pub mod Fallback
use Prim.Native.Char.{code}
use onegov2_spatial_assistan.Prelude.{
  ℕ, suc, String, Bool, true, false, not, Option, none, some, List, [], ◌∷◌, map, keep, take, ◌==◌,
  eqb, ltb, chars, text_take, strip, join, one_of, count_if, distinct, if◌then◌else◌,
}
use onegov2_spatial_assistan.Filters.Queries.{◌&◌}
use onegov2_spatial_assistan.Floats.{Floats}
use onegov2_spatial_assistan.Chatbot.Models.{RetrievedPassage}
use onegov2_spatial_assistan.Chatbot.Text.{content_tokens}

-- A model, by its name and the messages with their roles: the text of its reply.
abbrev pub LanguageModel : Type 0
LanguageModel = String → List (String × String) → Option String

pub record Composer : Type 0 where
  -- `str(i)`
  pub number : ℕ → String
  -- `re.sub` of white space, and `re.split` after the end of a sentence
  pub single_spaces : String → String
  pub split_after_marks : String → List String
  pub default_llm : LanguageModel
  pub model : String
  -- `llm_factory`, `use_llm`, and whether GREENPT_KEY is set
  pub llm_factory : Option LanguageModel
  pub use_llm : Option Bool
  pub has_key : Bool

abbrev pub intro_of : String → String
intro_of intent =
    if intent == "data_limits"
    then "Let op de volgende databeperkingen:"
    else if intent == "explain_scenario"
    then "Uitleg van dit scenario-resultaat:"
    else "Op basis van de beschikbare documentatie:"

abbrev pub system_base : String
system_base =
    "Je bent een behulpzame assistent voor het OneGov #2-systeem over "
    & "drinkwaterzekerheid in Zuid-Holland. Beantwoord de vraag UITSLUITEND op basis "
    & "van de meegegeven genummerde context. Schrijf in eenvoudig Nederlands op "
    & "B1-niveau: korte zinnen, weinig jargon, leg vaktermen kort uit. Verwijs bij "
    & "elke bewering naar de bron met [nummer]. Verzin niets en noem geen getallen "
    & "die niet in de context staan. Als de context onvoldoende is, zeg dat eerlijk "
    & "en stel één verduidelijkende vraag. Sluit af met een korte 'Bronnen:'-lijst."

abbrev pub system_of : String → String
system_of intent =
    if intent == "data_limits"
    then system_base & " De vraag gaat over betrouwbaarheid of beperkingen: benoem de relevante "
      & "kanttekeningen expliciet en overschat de data niet."
    else if intent == "explain_scenario"
    then system_base & " De context bevat de redeneerstappen en het resultaat van een al berekend "
      & "scenario. Leg het eindoordeel en de stappen uit; herbereken niets."
    else system_base

-- What stands before the last space, if there is one.
abbrev pub before_space : String → Option String
before_space String.[] = none
before_space (String.◌∷◌ c s) = elim (before_space s) [
  | some t ↦ some (String.◌∷◌ c t)
  | none ↦ if eqb (code c) 32 then some String.[] else none
]

-- `text[:n].rsplit(" ", 1)[0] + "…"` for a longer text
abbrev pub shortened : ℕ → String → String
shortened n text =
    let cut = text_take n text in
    if ltb n (chars text)
    then elim (before_space cut) [ none ↦ cut & "…" | some t ↦ t & "…" ]
    else text

-- `"sep".join` over what is numbered from `i` on
abbrev pub numbered {ℓ} : {A : Type ℓ} → (ℕ → A → String) → ℕ → List A → List String
numbered f i [] = []
numbered f i (x ∷ xs) = f i x ∷ numbered f (suc i) xs

-- The stripped text of a reply; an empty one is an error.
abbrev pub stripped_reply : Option String → Option String
stripped_reply none = none
stripped_reply (some reply) =
    let content = strip reply in if content == "" then none else some content

module _ (C : Composer) where
  open C use {number, single_spaces, split_after_marks}

  unfoldable pub split_sentences_nl : String → List String
  split_sentences_nl text =
      let whole = single_spaces (strip text) in
      if whole == "" then [] else keep (λ p. not (p == "")) (map strip (split_after_marks whole))

  -- How many words of the question stand in a sentence.
  unfoldable pub overlap : String → String → ℕ
  unfolding content_tokens distinct
  overlap question s =
      let tokens = content_tokens s in
      count_if (λ t. one_of t tokens) (distinct (content_tokens question))

  -- The first sentence with the most words of the question, from a best one so far on.
  unfoldable pub best_from : String → String → List String → String
  unfolding overlap
  best_from question best [] = best
  best_from question best (s ∷ sentences) =
      best_from question (if ltb (overlap question best) (overlap question s) then s else best)
        sentences

  unfoldable pub best_sentence : String → String → String
  unfolding split_sentences_nl best_from
  best_sentence question text = elim (split_sentences_nl text) [
    | [] ↦ text_take 320 text
    | s ∷ sentences ↦ shortened 320 (best_from question s sentences)
  ]

  module _ (F : Floats) where
    abbrev pub context_line : ℕ → RetrievedPassage F → String
    context_line i p =
        "["
        & number i
        & "] "
        & shortened 600 (strip p.passage.text_nl)
        & " (Bron: "
        & p.passage.citation.title_nl
        & ")"

    abbrev pub format_context : List (RetrievedPassage F) → String
    format_context retrieved = join "\n" (numbered context_line 1 retrieved)

    abbrev pub user_message : String → List (RetrievedPassage F) → String
    user_message question retrieved =
        "Vraag: "
        & question
        & "\n\nContext (genummerde bronnen):\n"
        & format_context retrieved
        & "\n\nGeef een kort, feitelijk antwoord in B1-Nederlands met bronverwijzingen [nummer]."

    abbrev pub model_reply : String → String → List (RetrievedPassage F) → Option String
    model_reply question intent retrieved =
        let llm : LanguageModel = elim C.llm_factory [ none ↦ C.default_llm | some f ↦ f ] in
        let messages =
          ("system", system_of intent) ∷ ("user", user_message question retrieved) ∷ [] in
        llm C.model messages

    unfoldable pub compose_llm : String → String → List (RetrievedPassage F) → Option String
    compose_llm question intent retrieved = stripped_reply (model_reply question intent retrieved)

    abbrev pub answer_line : String → ℕ → RetrievedPassage F → String
    answer_line question i p =
        "- " & best_sentence question p.passage.text_nl & " [" & number i & "]"

    abbrev pub source_line : ℕ → RetrievedPassage F → String
    source_line i p =
        "[" & number i & "] " & p.passage.citation.title_nl & " — " & p.passage.citation.url

    unfoldable pub compose_extractive : String → String → List (RetrievedPassage F) → String
    unfolding best_sentence
    compose_extractive question intent [] =
        "Ik heb hier niet genoeg informatie voor in de beschikbare documentatie. "
        & "Kun je je vraag iets specifieker maken?"
    compose_extractive question intent (p ∷ retrieved) =
        let top = take 4 (p ∷ retrieved) in
        intro_of intent
        & "\n"
        & join "\n" (numbered (answer_line question) 1 top)
        & "\n\nBronnen:\n"
        & join "\n" (numbered source_line 1 top)

    abbrev pub want_llm : Bool
    want_llm = elim C.use_llm [
      | some use_it ↦ use_it
      | none ↦ elim C.llm_factory [ some _ ↦ true | none ↦ C.has_key ]
    ]

    abbrev pub or_extractive : Option String → String → String × Bool
    or_extractive (some text) extractive = (text, true)
    or_extractive none extractive = (extractive, false)

    -- The text, and whether a language model wrote it.
    unfoldable pub compose_answer : String → String → List (RetrievedPassage F) → String × Bool
    unfolding compose_llm compose_extractive
    compose_answer question intent retrieved =
        or_extractive (if want_llm then compose_llm question intent retrieved else none)
          (compose_extractive question intent retrieved)
