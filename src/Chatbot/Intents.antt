-- ===== src/Chatbot/Intents.antt =====
-- services/chatbot/intents.py: the intent of a question, by the terms that stand in it. The search of
-- the pattern `_LEVER_RE`, whose `\b` and `\d` are those of Python's `re`, is an argument.
use onegov2_spatial_assistan.Prelude.{
  String, Bool, not, ◌&&◌, ◌||◌, List, [], ◌∷◌, any, contains_text, lower, strip, if◌then◌else◌,
}

abbrev pub data_limit_terms : List String
data_limit_terms =
    "beperking" ∷ "beperkingen" ∷ "betrouwbaar" ∷ "betrouwbaarheid" ∷ "onzeker" ∷ "onzekerheid"
    ∷ "nauwkeurig" ∷ "nauwkeurigheid" ∷ "marge" ∷ "foutmarge" ∷ "leeg" ∷ "lege" ∷ "ontbreek"
    ∷ "ontbreekt" ∷ "ontbreken" ∷ "mist" ∷ "missen" ∷ "aanname" ∷ "aannames" ∷ "proxy"
    ∷ "benadering" ∷ "schatting" ∷ "geschat" ∷ "kwaliteit van de data" ∷ "datakwaliteit" ∷ "klopt"
    ∷ "vals" ∷ "nadeel" ∷ "zwakte" ∷ "kanttekening" ∷ "kanttekeningen" ∷ "voorbehoud" ∷ "caveat"
    ∷ "hoe zeker" ∷ "hoe betrouwbaar" ∷ "wat weet" ∷ "niet weet" ∷ "weet niet" ∷ "verzadigd"
    ∷ "verzadigde" ∷ "headcount" ∷ "headcounts" ∷ "absolute" ∷ "relatief" ∷ "relatieve"
    ∷ "limitation" ∷ "limitations" ∷ []

abbrev pub explain_terms : List String
explain_terms =
    "leg uit" ∷ "uitleg" ∷ "verklaar" ∷ "verklaring" ∷ "waarom" ∷ "hoe komt" ∷ "wat betekent"
    ∷ "betekenis" ∷ "dit resultaat" ∷ "deze uitkomst" ∷ "dit scenario" ∷ "deze score"
    ∷ "dit verdict" ∷ "dit oordeel" ∷ "toelichting" ∷ "onderbouw" ∷ "hoezo" ∷ "waardoor" ∷ []

abbrev pub run_terms : List String
run_terms =
    "bereken" ∷ "reken" ∷ "doorreken" ∷ "doorrekenen" ∷ "run" ∷ "draai" ∷ "simuleer" ∷ "simulatie"
    ∷ "modelleer" ∷ "voer uit" ∷ "voer een" ∷ "stel dat" ∷ "wat als" ∷ "wat gebeurt er als"
    ∷ "scenario voor" ∷ "nieuw scenario" ∷ "maak een scenario" ∷ "kan er een" ∷ "kan een"
    ∷ "wat zou er gebeuren" ∷ []

abbrev pub contains_any : String → List String → Bool
contains_any haystack needles = any (contains_text haystack) needles

-- `wants_run and not explanatory`, with a lever or a word for a scenario in it
abbrev pub wants_scenario : (String → Bool) → String → Bool
wants_scenario lever_search q =
    contains_any q run_terms
    && (lever_search q || contains_any q ("scenario" ∷ "bereken" ∷ "simuleer" ∷ "doorreken" ∷ []))

unfoldable pub classify_intent : (String → Bool) → String → Bool → String
classify_intent lever_search question has_scenario_card =
    let q = strip (lower question) in
    let explanatory = contains_any q explain_terms in
    if has_scenario_card && explanatory
    then "explain_scenario"
    else if contains_any q data_limit_terms
    then "data_limits"
    else if not explanatory && wants_scenario lever_search q
    then "scenario_run_request"
    else "knowledge"
