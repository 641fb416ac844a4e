-- ===== src/Conversation/SqlNode.antt =====
-- services/nodes/sql_generation.py: a language model writes the SQL of an intent. The model is a
-- parameter: an exception, no parsed answer, or an answer.
use onegov2_spatial_assistan.Prelude.{
  String, true, Option, none, some, List, [], ◌∷◌, ◌==◌, if◌then◌else◌,
}
use onegov2_spatial_assistan.Dictionary.{Theme}
use onegov2_spatial_assistan.Conversation.State.{
  ConversationState, SqlGenerationOutput, CustomEvent, Ran, Called, call_step,
}
use onegov2_spatial_assistan.Conversation.Prompts.{Formats, format_intent_section}

-- The model on its name, the themes and the section of the intent.
abbrev pub SqlWriter : Type 0
SqlWriter = String → List Theme → String → Option (Option SqlGenerationOutput)

abbrev pub with_parsed : ConversationState → Option SqlGenerationOutput → Ran
with_parsed state none =
    (CustomEvent.step_thinking_summary "sql" "" ∷ [], some (record state { sql_query = none }))
with_parsed state (some parsed) = (
  CustomEvent.step_thinking_summary "sql" parsed.thinking_summary
      ∷ (if parsed.sql_query == "" then [] else CustomEvent.sql_block parsed.sql_query ∷ []),
  some (record state { sql_query = some parsed.sql_query }),
)

module _ (fmt : Formats) (write : SqlWriter) where
  -- The context of the prompt needs an intent; without one it raises.
  unfoldable pub run : ConversationState → Ran
  run state = elim state.intent_analysis [
    | none ↦ ([], none)
    | some analysis ↦ elim analysis.intent [
      | none ↦ ([], none)
      | some intent ↦
          elim (write state.model state.dictionary.themes (format_intent_section fmt intent true)) [
            | none ↦ ([], none)
            | some parsed ↦ with_parsed state parsed
          ]
    ]
  ]

  unfoldable pub generate_sql : ConversationState → Called
  unfolding call_step run
  generate_sql state = call_step "sql" true (run state) (record state { sql_query = none })
