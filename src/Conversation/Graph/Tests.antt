-- ===== src/Conversation/Graph/Tests.antt =====
-- The graph on small questions: one that is answered, and one about a place that is not found.
use onegov2_spatial_assistan.Prelude.{
  String, ◌≡◌, refl, true, false, none, some, List, [], ◌∷◌, ◌++◌, arith,
}
use onegov2_spatial_assistan.Dictionary.{DataDictionary}
use onegov2_spatial_assistan.Filters.Model.{Filter, SpatialQuery, Intent, IntentAnalysis}
use onegov2_spatial_assistan.Filters.Node
use onegov2_spatial_assistan.Conversation.State.{ConversationState, CustomEvent, Cell}
use onegov2_spatial_assistan.Conversation.IntentNode
use onegov2_spatial_assistan.Conversation.SpatialNode
use onegov2_spatial_assistan.Conversation.SpatialNode.{Degrees, Response, Resolution, unresolved}
use onegov2_spatial_assistan.Conversation.Database.{Database, Table}
use onegov2_spatial_assistan.Conversation.Graph.{
  Services, Node, Reached, run, run_workflow, call, next_node, validate_filters,
}
use onegov2_spatial_assistan.Conversation.Graph.Termination.{IsFinished, run_workflow-IsFinished}
use onegov2_spatial_assistan.Conversation.Graph.Answers.{IsChecked}
use onegov2_spatial_assistan.Conversation.Graph.Reachability.{reached-IsChecked}
use onegov2_spatial_assistan.Conversation.Graph.Unresolved.{unresolved_place_fails}

abbrev no_tables : DataDictionary
no_tables = record { total_rows = 0; total_columns = 0; themes = [] }

abbrev plain_intent : Intent
plain_intent = record {
  description = "woningen";
  relevant_columns = [];
  filters = [];
  aggregation = none;
  limit = none;
  spatial_query = none;
  year_comparison = none;
}

abbrev plain_analysis : IntentAnalysis
plain_analysis = record {
  is_clear = true;
  intent = some plain_intent;
  follow_up_question = none;
  thinking_summary = "";
}

abbrev as_text : Degrees
as_text = record { Float = String; float = λ s. some s; fixed6 = λ s. s }

abbrev two_rows : Table
two_rows = record {
  columns = "h3_id" ∷ [];
  rows = (Cell.value "a" ∷ []) ∷ (Cell.value "b" ∷ []) ∷ [];
}

abbrev small_database : Database
small_database = record {
  execute = λ con statement params. some two_rows;
  cell_str = λ c. "";
  str = λ n. "";
}

abbrev services : Services
services = record {
  analyse = λ model themes history. some plain_analysis;
  get_close_matches = λ word choices n cutoff. [];
  degrees = as_text;
  urlopen = λ query. Response.answered [];
  con = record { fetch_texts = λ query params. []; raises = λ filters origin. false };
  correct = λ model intent invalid final. none;
  fmt = record { str = λ n. ""; comma = λ n. ""; cell_str = λ c. ""; dumps = λ rows. "" };
  write = λ model themes section. none;
  db = small_database;
  entries = [];
  exc = λ state. "fout";
  plan = λ model context. none;
  describe = λ model context. some "Er is niets gevonden.";
  env = record { appears_in = λ sql table. false; theme_metadata = none };
}

abbrev question : ConversationState
question = record {
  messages = record { role = some "user"; content = "Hoeveel woningen zijn er?" } ∷ [];
  dictionary = no_tables;
  model = "gpt";
  intent_analysis = none;
  needs_spatial_resolution = false;
  pdok_used = false;
  sql_query = none;
  query_result = none;
  map_plan = none;
  explanation = none;
}

run_workflow-IsFinished_example : IsFinished services 8 (run_workflow services question)
run_workflow-IsFinished_example = run_workflow-IsFinished services question

abbrev analysed : ConversationState
analysed = (call services Node.check_intent_node question).1

abbrev checked : ConversationState
checked = (call services Node.validate_filters_node analysed).1

abbrev events : List CustomEvent
events =
    []
    ++ (call services Node.check_intent_node question).0
    ++ (call services Node.validate_filters_node analysed).0

reached : Reached services question (some Node.generate_sql_node) checked events
unfolding call next_node IntentNode.check_intent IntentNode.correct_analysis
    IntentNode.needs_spatial_resolution validate_filters Node.call_node
    Node.get_origin_categorical_filters
reached = Reached.step (Reached.step Reached.begin)

reached-IsChecked_example : IsChecked services checked events
reached-IsChecked_example =
    reached-IsChecked services question checked events Node.generate_sql_node (omega arith) reached

abbrev place : Filter
place = record {
  table = none;
  column = "h3_spatial_filter";
  operator = "=";
  value = "PLACE:Nergenshuizen";
}

abbrev near : SpatialQuery
near = record { origin_filters = place ∷ []; k_rings = 2 }

abbrev place_intent : Intent
place_intent = record plain_intent { spatial_query = some near }

abbrev place_analysis : IntentAnalysis
place_analysis = record plain_analysis { intent = some place_intent }

abbrev about_place : ConversationState
about_place = record question {
  intent_analysis = some place_analysis;
  needs_spatial_resolution = true;
}

place_not_found :
    SpatialNode.resolve_origins as_text services.urlopen (place ∷ [])
    ≡ Resolution.not_found "Nergenshuizen"
unfolding SpatialNode.resolve_origins SpatialNode.pdok_locatie_search SpatialNode.parse_best_match
    SpatialNode.search_coord
place_not_found = refl

unresolved_place_fails_example :
    run services 7 (some Node.resolve_spatial_node) about_place ≡ record {
      visited = Node.resolve_spatial_node ∷ Node.validate_filters_node ∷ [];
      events =
          CustomEvent.follow_up_text (unresolved "Nergenshuizen").follow_up_question
          ∷ CustomEvent.status_active "validatie"
          ∷ CustomEvent.error "validatie"
          ∷ [];
      state = record about_place {
        intent_analysis = some (unresolved "Nergenshuizen");
        needs_spatial_resolution = false;
        pdok_used = true;
      };
      pending = none;
    }
unresolved_place_fails_example =
    unresolved_place_fails services about_place place_analysis place_intent near "Nergenshuizen"
      refl refl refl refl place_not_found
