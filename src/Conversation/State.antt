-- ===== src/Conversation/State.antt =====
-- models/state.py, services/nodes/base.py and services/helpers/messages.py: the state that flows
-- through the graph, the events that a node dispatches, and the call of a node.
use onegov2_spatial_assistan.Prelude.{
  ℕ, String, Bool, Option, none, some, List, [], ◌∷◌, ◌++◌, ◌==◌, Dict, if◌then◌else◌,
}
use onegov2_spatial_assistan.Dictionary.{DataDictionary}
use onegov2_spatial_assistan.Filters.Model.{IntentAnalysis}

-- A value of a result row: NULL, a whole number, or any other value by its text.
pub data Cell : Type 0 where
  null : Cell
  whole : ℕ → Cell
  value : String → Cell

abbrev pub Row : Type 0
Row = Dict Cell

-- A column of `_build_summary`.
pub data ColumnSummary : Type 0 where
  numeric : (min max avg : Cell) → ColumnSummary
  categorical : (non_null_count distinct_count : ℕ) (top_values : Dict ℕ) → ColumnSummary

pub record SqlGenerationOutput : Type 0 where
  pub sql_query : String
  pub thinking_summary : String

pub data ColorKind : Type 0 where
  numeric_color categorical_color : ColorKind

pub record ColorRole : Type 0 where
  pub column : String
  pub label : String
  pub kind : ColorKind

pub record HeightRole : Type 0 where
  pub column : String
  pub label : String

pub record IconRole : Type 0 where
  pub column : String
  pub label : String

pub record MapPlan : Type 0 where
  pub h3_column : String
  pub color : Option ColorRole
  pub height : Option HeightRole
  pub icons : List IconRole
  pub thinking_summary : String

pub record QueryResult : Type 0 where
  pub sample : Option (List Row)
  pub count : Option ℕ
  pub summary : Option (Dict ColumnSummary)
  pub error : Option String

-- A message of the history; a missing content reads as "".
pub record Message : Type 0 where
  pub role : Option String
  pub content : String

pub record ConversationState : Type 0 where
  pub messages : List Message
  pub dictionary : DataDictionary
  pub model : String
  pub intent_analysis : Option IntentAnalysis
  pub needs_spatial_resolution : Bool
  pub pdok_used : Bool
  pub sql_query : Option String
  pub query_result : Option QueryResult
  pub map_plan : Option MapPlan
  pub explanation : Option String

pub data BaseMessage : Type 0 where
  human_message ai_message system_message : String → BaseMessage

abbrev to_langchain : Message → BaseMessage
to_langchain m = elim m.role [
  | none ↦ system_message m.content
  | some role ↦
      if role == "user"
      then human_message m.content
      else if role == "assistant"
      then ai_message m.content
      else system_message m.content
]

unfoldable pub to_langchain_history : List Message → List BaseMessage
to_langchain_history [] = []
to_langchain_history (m ∷ messages) = to_langchain m ∷ to_langchain_history messages

-- `text or ""`
abbrev pub or_empty : Option String → String
or_empty none = ""
or_empty (some t) = t

-- A source under an answer, as `source_for_theme` builds it, with the tables that it covers.
pub record SourceEntry : Type 0 where
  pub theme : String
  pub publisher : String
  pub url : String
  pub licence : String
  pub tables : List String

-- The events by name, with their data. The text of an error is left out but for its step.
pub data CustomEvent : Type 0 where
  status_active error : (step : String) → CustomEvent
  step_thinking_summary : (step summary : String) → CustomEvent
  follow_up_text : Option String → CustomEvent
  sql_block : String → CustomEvent
  map_data : List Row → CustomEvent
  map_block : MapPlan → CustomEvent
  sources_block : List SourceEntry → CustomEvent

-- What a node's `run` did: the events dispatched, and the state with its update, or an exception.
abbrev pub Ran : Type 0
Ran = List CustomEvent × Option ConversationState

-- A called node always leaves a state.
abbrev pub Called : Type 0
Called = List CustomEvent × ConversationState

abbrev pub activation : String → Bool → List CustomEvent
activation step auto_activate = if auto_activate then status_active step ∷ [] else []

-- `BaseNode.__call__`: `fallback` is the state with the fallback update.
unfoldable pub call_step : String → Bool → Ran → ConversationState → Called
call_step step auto_activate (events, none) fallback =
    (activation step auto_activate ++ events ++ error step ∷ [], fallback)
call_step step auto_activate (events, some state) fallback =
    (activation step auto_activate ++ events, state)
