-- ===== src/Conversation/Graph/Later.antt =====
-- The nodes behind the filters leave the analysis alone, and the last but one explains the results.
use onegov2_spatial_assistan.Prelude.{
  String, ◌≡◌, refl, inl, inr, Bool, true, Option, none, some, ◌==◌, Bool-cases, Option-cases,
  In.here, In.there,
}
use onegov2_spatial_assistan.Conversation.State.{
  ConversationState, Ran, SqlGenerationOutput, MapPlan, call_step, or_empty,
}
use onegov2_spatial_assistan.Conversation.Prompts.{format_intent_section}
use onegov2_spatial_assistan.Conversation.SqlNode
use onegov2_spatial_assistan.Conversation.ExecuteNode
use onegov2_spatial_assistan.Conversation.MapNode
use onegov2_spatial_assistan.Conversation.MapNode.{intent_in}
use onegov2_spatial_assistan.Conversation.SourcesNode
use onegov2_spatial_assistan.Conversation.Graph.{Services}
use onegov2_spatial_assistan.Conversation.Graph.Answers.{IsExplained}

-- A node that leaves the analysis and the dictionary alone.
pub record IsKept (s t : ConversationState) : Type 0 where
  pub same_analysis : t.intent_analysis ≡ s.intent_analysis
  pub same_dictionary : t.dictionary ≡ s.dictionary

kept : (s : ConversationState) → IsKept s s
kept s = record { same_analysis = refl; same_dictionary = refl }

-- What a run leaves, if it leaves a state.
abbrev RunKept : ConversationState → Ran → Type 0
RunKept s (events, none) = Unit
RunKept s (events, some t) = IsKept s t

call_step-IsKept :
    (s : ConversationState) (step : String) (auto : Bool) (r : Ran) (fallback : ConversationState)
    → IsKept s fallback
    → RunKept s r
    → IsKept s (call_step step auto r fallback).1
unfolding call_step
call_step-IsKept s step auto (events, none) fallback base h = base
call_step-IsKept s step auto (events, some t) fallback base h = h

with_parsed-RunKept :
    (s : ConversationState) (parsed : Option SqlGenerationOutput)
    → RunKept s (SqlNode.with_parsed s parsed)
with_parsed-RunKept s none = record { same_analysis = refl; same_dictionary = refl }
with_parsed-RunKept s (some parsed) = record { same_analysis = refl; same_dictionary = refl }

module _ (S : Services) (s : ConversationState) where
  sql_run-RunKept : RunKept s (SqlNode.run S.fmt S.write s)
  unfolding SqlNode.run
  sql_run-RunKept = elim (Option-cases s.intent_analysis) [
    | inl e ↦ simp (e, SqlNode.run) tt
    | inr (a, e) ↦ elim (Option-cases a.intent) [
      | inl f ↦ simp (e, SqlNode.run, f) tt
      | inr (i, f) ↦
          elim (Option-cases
            (S.write s.model s.dictionary.themes (format_intent_section S.fmt i true))) [
              | inl g ↦ simp (e, SqlNode.run, f, g) tt
              | inr (parsed, g) ↦ simp (e, SqlNode.run, f, g) (with_parsed-RunKept s parsed)
            ]
    ]
  ]

  pub generate_sql-IsKept : IsKept s (SqlNode.generate_sql S.fmt S.write s).1
  unfolding SqlNode.generate_sql
  generate_sql-IsKept =
      call_step-IsKept s "sql" true (SqlNode.run S.fmt S.write s) (record s { sql_query = none })
        (record { same_analysis = refl; same_dictionary = refl }) sql_run-RunKept

  execute_run-RunKept : RunKept s (ExecuteNode.run S.db S.entries (S.exc s) s)
  unfolding ExecuteNode.run
  execute_run-RunKept = elim (Bool-cases (or_empty s.sql_query == "")) [
    | inl e ↦ rw (ExecuteNode.run, e) (record { same_analysis = refl; same_dictionary = refl })
    | inr e ↦
        elim (Option-cases (
          ExecuteNode.execute_sql S.db S.entries (or_empty s.sql_query)
            (ExecuteNode.intent_of s.intent_analysis))) [
              | inl f ↦
                  rw (ExecuteNode.run, e, f)
                    (record { same_analysis = refl; same_dictionary = refl })
              | inr (x, f) ↦
                  rw (ExecuteNode.run, e, f)
                    (record { same_analysis = refl; same_dictionary = refl })
            ]
  ]

  pub execute_query-IsKept : IsKept s (ExecuteNode.execute_query S.db S.entries (S.exc s) s).1
  unfolding ExecuteNode.execute_query
  execute_query-IsKept =
      call_step-IsKept s "execute" true (ExecuteNode.run S.db S.entries (S.exc s) s) _
        (record { same_analysis = refl; same_dictionary = refl }) execute_run-RunKept

  plan_run-RunKept : RunKept s (MapNode.run_plan S.fmt S.plan s)
  unfolding MapNode.run_plan
  plan_run-RunKept = elim (Bool-cases (MapNode.nothing_to_plan s)) [
    | inl e ↦ rw (e, MapNode.run_plan) (record { same_analysis = refl; same_dictionary = refl })
    | inr e ↦ elim (Option-cases (intent_in s)) [
      | inl f ↦ rw (e, MapNode.run_plan, f) tt
      | inr (i, f) ↦
          rw (e, MapNode.run_plan, f) (planned (S.plan s.model (MapNode.plan_context S.fmt s i)))
    ]
  ]
    where
      planned : (answer : Option (Option MapPlan)) → RunKept s (MapNode.with_plan s answer)
      planned none = tt
      planned (some none) = tt
      planned (some (some p)) = record { same_analysis = refl; same_dictionary = refl }

  pub plan_visualization-IsKept : IsKept s (MapNode.plan_visualization S.fmt S.plan s).1
  unfolding MapNode.plan_visualization
  plan_visualization-IsKept =
      call_step-IsKept s "kaart" true (MapNode.run_plan S.fmt S.plan s)
        (record s { map_plan = none }) (record { same_analysis = refl; same_dictionary = refl })
        plan_run-RunKept

  -- The results are explained, or an error tells why not; the analysis is left alone.
  pub describe_results-IsExplained :
      IsExplained
        (MapNode.describe_results S.fmt S.describe s).1
        (MapNode.describe_results S.fmt S.describe s).0
      × IsKept s (MapNode.describe_results S.fmt S.describe s).1
  unfolding MapNode.describe_results MapNode.run_describe call_step
  describe_results-IsExplained = elim (Option-cases (intent_in s)) [
    | inl e ↦
        rw (e, MapNode.run_describe)
          (
            inr ("beschrijving", there (here refl)),
            record { same_analysis = refl; same_dictionary = refl },
          )
    | inr (i, e) ↦ elim (Option-cases (S.describe s.model (MapNode.describe_context S.fmt s i))) [
      | inl f ↦
          rw (e, MapNode.run_describe, f)
            (
              inr ("beschrijving", there (here refl)),
              record { same_analysis = refl; same_dictionary = refl },
            )
      | inr (t, f) ↦
          rw (e, MapNode.run_describe, f)
            (inl (t, refl), record { same_analysis = refl; same_dictionary = refl })
    ]
  ]

  -- The sources are dispatched; the state is left alone.
  pub cite_sources_same : (SourcesNode.cite_sources S.env s).1 ≡ s
  unfolding SourcesNode.cite_sources SourcesNode.run call_step
  cite_sources_same = refl
