-- ===== src/Conversation/Graph.antt =====
-- services/workflow.py: the graph of the nodes, as a step function, a step relation and a run. What a
-- node calls outside the program is in `Services`; the rule that merges a node's update into the state
-- is that of the graph library.
pub mod Reachability
pub mod Termination
pub mod Answers
pub mod Later
pub mod Unresolved
mod Tests
use onegov2_spatial_assistan.Prelude.{
  ℕ, zero, suc, String, Bool, true, false, Option, none, some, List, [], ◌∷◌, ◌++◌, map,
  if◌then◌else◌,
}
use onegov2_spatial_assistan.Dictionary.{all_columns}
use onegov2_spatial_assistan.Filters.Model.{Intent, IntentAnalysis}
use onegov2_spatial_assistan.Filters.Queries.{Connection}
use onegov2_spatial_assistan.Filters.Candidates.{CloseMatches}
use onegov2_spatial_assistan.Filters.Node.{
  Event, Update, Corrector, get_categorical_columns, call_node,
}
use onegov2_spatial_assistan.Conversation.State.{ConversationState, CustomEvent, Called}
use onegov2_spatial_assistan.Conversation.IntentNode.{Analyst, check_intent}
use onegov2_spatial_assistan.Conversation.SpatialNode.{Degrees, Response, resolve_spatial}
use onegov2_spatial_assistan.Conversation.Prompts.{Formats}
use onegov2_spatial_assistan.Conversation.SqlNode.{SqlWriter, generate_sql}
use onegov2_spatial_assistan.Conversation.Database.{Database, TableEntry}
use onegov2_spatial_assistan.Conversation.ExecuteNode.{execute_query}
use onegov2_spatial_assistan.Conversation.MapNode.{
  Planner, Describer, intent_in, plan_visualization, describe_results,
}
use onegov2_spatial_assistan.Conversation.SourcesNode.{Environment, cite_sources}

-- The models, the servers and the databases that the nodes call. `exc` is the text of the exception
-- of a failed query.
pub record Services : Type 1 where
  pub analyse : Analyst
  pub get_close_matches : CloseMatches
  pub degrees : Degrees
  pub urlopen : String → Response
  pub con : Connection
  pub correct : String → Corrector
  pub fmt : Formats
  pub write : SqlWriter
  pub db : Database
  pub entries : List TableEntry
  pub exc : ConversationState → String
  pub plan : Planner
  pub describe : Describer
  pub env : Environment

pub data Node : Type 0 where
  check_intent_node resolve_spatial_node validate_filters_node generate_sql_node : Node
  execute_query_node plan_visualization_node describe_results_node cite_sources_node : Node

abbrev pub as_custom : Event → CustomEvent
as_custom (Event.step_thinking_summary summary) =
    CustomEvent.step_thinking_summary "validatie" summary
as_custom (Event.follow_up_text question) = CustomEvent.follow_up_text question
as_custom Event.status_active = CustomEvent.status_active "validatie"
as_custom Event.error = CustomEvent.error "validatie"

abbrev pub updated : ConversationState → Update → ConversationState
updated state Update.unchanged = state
updated state (Update.intent_analysis a) = record state { intent_analysis = some a }

abbrev pub validated : ConversationState → List Event × Update → Called
validated state (events, update) = (map as_custom events, updated state update)

abbrev pub categorical_pairs : ConversationState → List (String × String)
categorical_pairs state = get_categorical_columns (all_columns state.dictionary)

-- `analysis and analysis.is_clear`
abbrev pub is_clear_analysis : Option IntentAnalysis → Bool
is_clear_analysis none = false
is_clear_analysis (some analysis) = analysis.is_clear

-- The end of the graph is `none`.
unfoldable pub route_after_intent : ConversationState → Option Node
route_after_intent state =
    if is_clear_analysis state.intent_analysis
    then some
        (if state.needs_spatial_resolution then resolve_spatial_node else validate_filters_node)
    else none

unfoldable pub route_after_validation : ConversationState → Option Node
route_after_validation state =
    if is_clear_analysis state.intent_analysis then some generate_sql_node else none

-- The edges of `create_workflow`.
unfoldable pub next_node : Node → ConversationState → Option Node
unfolding route_after_intent route_after_validation
next_node check_intent_node state = route_after_intent state
next_node resolve_spatial_node state = some validate_filters_node
next_node validate_filters_node state = route_after_validation state
next_node generate_sql_node state = some execute_query_node
next_node execute_query_node state = some plan_visualization_node
next_node plan_visualization_node state = some describe_results_node
next_node describe_results_node state = some cite_sources_node
next_node cite_sources_node state = none

module _ (S : Services) where
  unfoldable pub validate_filters : ConversationState → Called
  validate_filters state = validated state (
      call_node S.con S.get_close_matches (categorical_pairs state) (S.correct state.model)
        (intent_in state))

  unfoldable pub call : Node → ConversationState → Called
  unfolding validate_filters
  call check_intent_node state = check_intent S.get_close_matches S.analyse state
  call resolve_spatial_node state = resolve_spatial S.degrees S.urlopen state
  call validate_filters_node state = validate_filters state
  call generate_sql_node state = generate_sql S.fmt S.write state
  call execute_query_node state = execute_query S.db S.entries (S.exc state) state
  call plan_visualization_node state = plan_visualization S.fmt S.plan state
  call describe_results_node state = describe_results S.fmt S.describe state
  call cite_sources_node state = cite_sources S.env state

  -- What a run has come to: the node to call next, or the end; the state; the events so far.
  pub data Reached (start : ConversationState)
      : Option Node → ConversationState → List CustomEvent → Type 0 where
    begin : Reached start (some check_intent_node) start []
    step :
        {node : Node} {state : ConversationState} {events : List CustomEvent}
        → Reached start (some node) state events
        → Reached start
            (next_node node (call node state).1)
            (call node state).1
            (events ++ (call node state).0)

  -- A run of at most `fuel` calls: the nodes called, the events, the state, and the node that was
  -- still to be called.
  pub record Run : Type 0 where
    pub visited : List Node
    pub events : List CustomEvent
    pub state : ConversationState
    pub pending : Option Node

  abbrev pub after_call : Node → Called → Run → Run
  after_call node (events, state) rest = record {
    visited = node ∷ rest.visited;
    events = events ++ rest.events;
    state = rest.state;
    pending = rest.pending;
  }

  unfoldable pub run : ℕ → Option Node → ConversationState → Run
  unfolding call next_node
  run fuel none state = record { visited = []; events = []; state = state; pending = none }
  run zero (some node) state = record {
    visited = [];
    events = [];
    state = state;
    pending = some node;
  }
  run (suc fuel) (some node) state =
      let called = call node state in
      after_call node called (run fuel (next_node node called.1) called.1)

  unfoldable pub run_workflow : ConversationState → Run
  unfolding run
  run_workflow state = run 8 (some check_intent_node) state
