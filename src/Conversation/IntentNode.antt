-- ===== src/Conversation/IntentNode.antt =====
-- services/nodes/intent.py: the analysis of the question by a language model, the correction of the
-- column names that it returns, and the guard against asking the same question twice.
pub mod Columns
use onegov2_spatial_assistan.Prelude.{
  String, Bool, true, false, not, ◌&&◌, Option, none, some, List, [], ◌∷◌, ◌++◌, ◌==◌, Dict,
  lookup_or, map, any, is_empty, one_of, split, contains_text, has_prefix, text_take, chars, ltb,
  sorted_set, if◌then◌else◌,
}
use onegov2_spatial_assistan.Dictionary.{
  DataDictionary, Theme, TableInfo, ColumnInfo, all_tables, all_columns,
}
use onegov2_spatial_assistan.Filters.Model.{Filter, Intent, IntentAnalysis}
use onegov2_spatial_assistan.Filters.Queries.{append_under, no_table}
use onegov2_spatial_assistan.Filters.Candidates.{CloseMatches}
use onegov2_spatial_assistan.Conversation.State.{
  ConversationState, Message, BaseMessage, to_langchain_history, CustomEvent, Ran, Called,
  call_step,
}

-- The intent model on the model's name, the themes and the history: its analysis, or an exception.
abbrev pub Analyst : Type 0
Analyst = String → List Theme → List BaseMessage → Option IntentAnalysis

abbrev pub spatial_column : String
spatial_column = "h3_spatial_filter"

-- A set of names, sorted.
unfoldable pub get_valid_column_names : DataDictionary → List String
unfolding sorted_set
get_valid_column_names dictionary = sorted_set (map (λ col. col.name) (all_columns dictionary))

abbrev column_entries : String → List ColumnInfo → Dict (List String) → Dict (List String)
column_entries table [] out = out
column_entries table (col ∷ cols) out = column_entries table cols (append_under col.name table out)

abbrev table_entries : List TableInfo → Dict (List String) → Dict (List String)
table_entries [] out = out
table_entries (t ∷ tables) out = table_entries tables (column_entries t.name t.columns out)

unfoldable pub column_to_tables : DataDictionary → Dict (List String)
column_to_tables dictionary = table_entries (all_tables dictionary) []

unfoldable pub needs_spatial_resolution : IntentAnalysis → Bool
needs_spatial_resolution result = if not result.is_clear then false else elim result.intent [
  | none ↦ false
  | some intent ↦ elim intent.spatial_query [
    | none ↦ false
    | some q ↦
        any (λ f. (f.column == spatial_column) && not (has_prefix f.value "LATLON:"))
          q.origin_filters
  ]
]

-- The words of the first sixty characters of a question that have more than four.
abbrev pub key_words : String → List String
key_words question = long_words (split (text_take 60 question))
  where
    long_words : List String → List String
    long_words [] = []
    long_words (w ∷ ws) = let rest = long_words ws in if ltb 4 (chars w) then w ∷ rest else rest

abbrev said_by_assistant : Message → Bool
said_by_assistant m = elim m.role [ none ↦ false | some role ↦ role == "assistant" ]

-- Whether `prior_followups` is not empty.
unfoldable pub has_prior_followup : List Message → Option String → Bool
has_prior_followup messages none = false
has_prior_followup messages (some question) =
    not (question == "")
    && any (λ m. said_by_assistant m && any (contains_text m.content) (key_words question)) messages

abbrev pub ask_differently : String
ask_differently =
    "Ik heb uw antwoord gezien. Kunt u uw vraag iets specifieker stellen, bijvoorbeeld door de exacte kolomnaam of eenheid te noemen?"

unfoldable pub follow_up_events : List Message → IntentAnalysis → List CustomEvent
follow_up_events messages result =
    if result.is_clear
    then []
    else if has_prior_followup messages result.follow_up_question
    then CustomEvent.follow_up_text (some ask_differently) ∷ []
    else CustomEvent.follow_up_text result.follow_up_question ∷ []

module _ (get_close_matches : CloseMatches) where
  unfoldable pub correct_column_names : List String → List String → List String
  correct_column_names valid_names [] = []
  correct_column_names valid_names (col ∷ columns) =
      let corrected = correct_column_names valid_names columns in
      if one_of col valid_names
      then col ∷ corrected
      else elim (get_close_matches col valid_names 1 6) [
        | [] ↦ corrected
        | (best ∷ _) ↦ best ∷ corrected
      ]

  -- `corrected[0]`, or the column as it is
  abbrev pub corrected_column : List String → String → String
  corrected_column valid_names column = elim (correct_column_names valid_names (column ∷ [])) [
    | [] ↦ column
    | (c ∷ _) ↦ c
  ]

  abbrev pub filled_table : Dict (List String) → String → Option String → Option String
  filled_table col_to_tables column table =
      if no_table table
      then elim (lookup_or column col_to_tables []) [ [] ↦ table | (t ∷ _) ↦ some t ]
      else table

  unfoldable pub correct_filter : List String → Dict (List String) → Filter → Filter
  correct_filter valid_names col_to_tables f = if f.column == spatial_column then f else record f {
    column = corrected_column valid_names f.column;
    table = filled_table col_to_tables (corrected_column valid_names f.column) f.table;
  }

  unfoldable pub correct_intent : DataDictionary → Intent → Intent
  correct_intent dictionary intent = record intent {
    relevant_columns =
        correct_column_names (get_valid_column_names dictionary) intent.relevant_columns;
    filters =
        map (correct_filter (get_valid_column_names dictionary) (column_to_tables dictionary))
          intent.filters;
  }

  unfoldable pub correct_analysis : DataDictionary → IntentAnalysis → IntentAnalysis
  unfolding correct_intent
  correct_analysis dictionary result =
      if result.is_clear
      then elim result.intent [
        | none ↦ result
        | some intent ↦ record result { intent = some (correct_intent dictionary intent) }
      ]
      else result

  module _ (analyse : Analyst) where
    unfoldable pub run : ConversationState → Ran
    run state =
        elim (analyse state.model state.dictionary.themes (to_langchain_history state.messages)) [
          | none ↦ ([], none)
          | some answer ↦
              let result = correct_analysis state.dictionary answer in
              (
                CustomEvent.step_thinking_summary "intentie" answer.thinking_summary
                    ∷ follow_up_events state.messages result,
                some (record state {
                  intent_analysis = some result;
                  needs_spatial_resolution = needs_spatial_resolution result;
                  pdok_used = false;
                }),
              )
        ]

    abbrev pub fallback : ConversationState → ConversationState
    fallback state = record state {
      intent_analysis = none;
      needs_spatial_resolution = false;
      pdok_used = false;
    }

    unfoldable pub check_intent : ConversationState → Called
    unfolding call_step run
    check_intent state = call_step "intentie" true (run state) (fallback state)
