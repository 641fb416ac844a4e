-- ===== src/Conversation/MapNode.antt =====
-- services/nodes/plan_visualization.py and services/nodes/describe_results.py: a language model plans
-- the map of the results, and one describes them. Both models are parameters.
use onegov2_spatial_assistan.Prelude.{
  ℕ, String, Bool, true, false, ◌||◌, Option, none, some, List, [], ◌∷◌, ◌==◌, map, take, eqb, join,
  if◌then◌else◌,
}
use onegov2_spatial_assistan.Filters.Model.{Intent, YearComparison}
use onegov2_spatial_assistan.Conversation.State.{
  ConversationState, QueryResult, Row, MapPlan, CustomEvent, Ran, Called, call_step, or_empty,
}
use onegov2_spatial_assistan.Conversation.Prompts.{
  Formats, format_intent_section, format_results_section, columns_block, has_text,
}

-- `state["intent_analysis"].intent`, or an exception
abbrev pub intent_in : ConversationState → Option Intent
intent_in state = elim state.intent_analysis [ none ↦ none | some analysis ↦ analysis.intent ]

-- `sample if qr else None`, and its first row's keys
abbrev pub sample_in : Option QueryResult → Option (List Row)
sample_in none = none
sample_in (some qr) = qr.sample

abbrev pub result_columns : Option (List Row) → List String
result_columns (some (row ∷ rows)) = map (λ p. p.0) row
result_columns _ = []

-- `sample[:10] if sample else None`
abbrev pub first_ten : Option (List Row) → Option (List Row)
first_ten (some (row ∷ rows)) = some (take 10 (row ∷ rows))
first_ten _ = none

abbrev summary_section : Formats → Option QueryResult → String
summary_section fmt none = format_results_section fmt none none none none
summary_section fmt (some qr) =
    format_results_section fmt (first_ten qr.sample) none qr.summary none

abbrev full_section : Formats → Option QueryResult → String
full_section fmt none = format_results_section fmt none none none none
full_section fmt (some qr) = format_results_section fmt qr.sample qr.count qr.summary qr.error

pub record PlanContext : Type 0 where
  pub intent_section : String
  pub sql_query : Option String
  pub result_columns : String
  pub col_metadata : String
  pub results_section : String

pub record DescribeContext : Type 0 where
  pub description : String
  pub sql_query : Option String
  pub map_plan : Option MapPlan
  pub limit : Option ℕ
  pub year_comparison : Option YearComparison
  pub col_metadata : String
  pub results_section : String

-- A planner may answer with nothing; a describer answers with its text.
abbrev pub Planner : Type 0
Planner = String → PlanContext → Option (Option MapPlan)

abbrev pub Describer : Type 0
Describer = String → DescribeContext → Option String

-- `not count`
abbrev no_count : Option ℕ → Bool
no_count none = true
no_count (some n) = eqb n 0

abbrev no_sample : Option (List Row) → Bool
no_sample (some (row ∷ rows)) = false
no_sample _ = true

unfoldable pub nothing_to_plan : ConversationState → Bool
nothing_to_plan state = elim state.query_result [
  | none ↦ true
  | some qr ↦
      has_text qr.error
      || or_empty state.sql_query == ""
      || no_count qr.count
      || no_sample qr.sample
]

-- A planner without an answer: the summary is "", and `plan.model_dump` raises.
abbrev pub with_plan : ConversationState → Option (Option MapPlan) → Ran
with_plan state none = ([], none)
with_plan state (some none) = (CustomEvent.step_thinking_summary "kaart" "" ∷ [], none)
with_plan state (some (some p)) = (
  CustomEvent.step_thinking_summary "kaart" p.thinking_summary ∷ CustomEvent.map_block p ∷ [],
  some (record state { map_plan = some p }),
)

module _ (fmt : Formats) where
  unfoldable pub plan_context : ConversationState → Intent → PlanContext
  plan_context state intent = record {
    intent_section = format_intent_section fmt intent false;
    sql_query = state.sql_query;
    result_columns = join ", " (result_columns (sample_in state.query_result));
    col_metadata = columns_block state.dictionary (result_columns (sample_in state.query_result));
    results_section = summary_section fmt state.query_result;
  }

  unfoldable pub describe_context : ConversationState → Intent → DescribeContext
  describe_context state intent = record {
    description = intent.description;
    sql_query = state.sql_query;
    map_plan = state.map_plan;
    limit = intent.limit;
    year_comparison = intent.year_comparison;
    col_metadata = columns_block state.dictionary (result_columns (sample_in state.query_result));
    results_section = full_section fmt state.query_result;
  }

  unfoldable pub run_plan : Planner → ConversationState → Ran
  run_plan plan state =
      if nothing_to_plan state
      then ([], some (record state { map_plan = none }))
      else elim (intent_in state) [
        | none ↦ ([], none)
        | some intent ↦ with_plan state (plan state.model (plan_context state intent))
      ]

  unfoldable pub plan_visualization : Planner → ConversationState → Called
  unfolding call_step run_plan
  plan_visualization plan state =
      call_step "kaart" true (run_plan plan state) (record state { map_plan = none })

  unfoldable pub run_describe : Describer → ConversationState → Ran
  run_describe describe state = elim (intent_in state) [
    | none ↦ ([], none)
    | some intent ↦ elim (describe state.model (describe_context state intent)) [
      | none ↦ ([], none)
      | some content ↦ ([], some (record state { explanation = some content }))
    ]
  ]

  unfoldable pub describe_results : Describer → ConversationState → Called
  unfolding call_step run_describe
  describe_results describe state =
      call_step "beschrijving" true (run_describe describe state)
        (record state { explanation = none })
