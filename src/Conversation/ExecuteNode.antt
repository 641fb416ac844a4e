-- ===== src/Conversation/ExecuteNode.antt =====
-- services/nodes/execute_query.py: the SQL is run once into a temporary table, which is counted,
-- sampled and summarised.
pub mod Sampling
use onegov2_spatial_assistan.Prelude.{
  ℕ, String, Bool, true, false, not, ◌&&◌, ◌||◌, Option, none, some, List, [], ◌∷◌, ◌++◌, ◌==◌,
  Dict, insert, map, one_of, leb, eqb, max, is_space, if◌then◌else◌, ◌>>=◌,
}
use onegov2_spatial_assistan.Filters.Model.{Intent, IntentAnalysis}
use onegov2_spatial_assistan.Filters.Queries.{◌&◌}
use onegov2_spatial_assistan.Conversation.State.{
  ConversationState, or_empty, QueryResult, Cell, null, whole, Row, ColumnSummary, numeric,
  categorical, CustomEvent, Ran, Called, call_step,
}
use onegov2_spatial_assistan.Conversation.Prompts.{truthy_level}
use onegov2_spatial_assistan.Conversation.Database.{
  Table, Database, TableEntry, materialize, rows_to_dicts, first_columns, count_in, perform,
}
use onegov2_spatial_assistan.Conversation.Summary.{build_summary, categorical_types}

abbrev pub sample_threshold : ℕ
sample_threshold = 100

abbrev pub sample_size : ℕ
sample_size = 10

abbrev pub agg_sample_size : ℕ
agg_sample_size = 10

unfoldable pub pick_aggregation_value_column : List String → String → Option String
pick_aggregation_value_column [] level_col = none
pick_aggregation_value_column (col ∷ cols) level_col =
    let later = pick_aggregation_value_column cols level_col in
    if col == "h3_id" || col == "year_int" || col == level_col then later else some col

-- What `_execute_query` returns.
pub record Executed : Type 0 where
  pub sample : List Row
  pub count : ℕ
  pub summary : Option (Dict ColumnSummary)
  pub all_rows : List Row

abbrev pub intent_of : Option IntentAnalysis → Option Intent
intent_of none = none
intent_of (some analysis) = analysis.intent

abbrev pub agg_level : Option Intent → Option (List String)
agg_level none = none
agg_level (some intent) = elim intent.aggregation [ none ↦ none | some a ↦ truthy_level a.level ]

abbrev pub limit_asked : Option Intent → Option ℕ
limit_asked none = none
limit_asked (some intent) = intent.limit

abbrev pub failed_with : String → QueryResult
failed_with message = record { sample = none; count = none; summary = none; error = some message }

abbrev pub executed_result : Executed → QueryResult
executed_result e = record {
  sample = some e.sample;
  count = some e.count;
  summary = e.summary;
  error = none;
}

abbrev pub map_events : List Row → List CustomEvent
map_events [] = []
map_events (row ∷ rows) = CustomEvent.map_data (row ∷ rows) ∷ []

abbrev pub columns_sql : String
columns_sql = "SELECT column_name FROM information_schema.columns WHERE table_name = '_results'"

-- `max(AGG_SAMPLE_SIZE, limit if limit is not None else 0)`
abbrev pub limit_of : Option ℕ → ℕ
limit_of limit = max agg_sample_size (elim limit [ none ↦ 0 | some n ↦ n ])

module _ (db : Database) where
  module _ (con : List String) where
    abbrev query : String → Option Table
    query sql = db.execute con sql []

    unfoldable pub is_column_categorical : String → Option Bool
    is_column_categorical column = do
      t ←
          db.execute con
            "SELECT data_type FROM information_schema.columns WHERE table_name = '_results' AND column_name = ?"
            (column ∷ [])
      some (elim (first_columns db t.rows) [
        | [] ↦ false
        | (first ∷ _) ↦ one_of first categorical_types
      ])

    abbrev pub categorical_sample_sql : String → String → ℕ → String
    categorical_sample_sql level_col value_col n =
        "SELECT DISTINCT \""
        & level_col
        & "\", \""
        & value_col
        & "\" FROM _results ORDER BY \""
        & level_col
        & "\" LIMIT "
        & db.str n

    abbrev pub ranked_sql : String → String → String → ℕ → String
    ranked_sql level_col value_col direction n =
        "  SELECT DISTINCT \""
        & level_col
        & "\", ROUND(CAST(\""
        & value_col
        & "\" AS DOUBLE), 2) AS \""
        & value_col
        & "\"  FROM _results ORDER BY \""
        & value_col
        & "\" "
        & direction
        & " LIMIT "
        & db.str n

    abbrev pub numeric_sample_sql : String → String → ℕ → String
    numeric_sample_sql level_col value_col n =
        "WITH top_n AS ("
        & ranked_sql level_col value_col "DESC" n
        & "), bottom_n AS ("
        & ranked_sql level_col value_col "ASC" n
        & ") SELECT * FROM top_n UNION SELECT * FROM bottom_n"

    unfoldable pub sample_aggregation : String → String → Bool → Option ℕ → Option (List Row)
    unfolding rows_to_dicts
    sample_aggregation level_col value_col is_categorical limit = do
      t ← query (
          if is_categorical
          then categorical_sample_sql level_col value_col (limit_of limit)
          else numeric_sample_sql level_col value_col (limit_of limit))
      some (rows_to_dicts t)

    -- The rows of the sample, with all rows, when the question groups by a level.
    unfoldable pub grouped_sample :
        List String → Option (List String) → Option ℕ → Option (Option (List Row))
    unfolding sample_aggregation is_column_categorical pick_aggregation_value_column
    grouped_sample result_cols (some (level_col ∷ levels)) limit =
        elim (pick_aggregation_value_column result_cols level_col) [
          | none ↦ some none
          | some value_col ↦ (do
            is_categorical ← is_column_categorical value_col
            sample ← sample_aggregation level_col value_col is_categorical limit
            some (some sample))
        ]
    grouped_sample result_cols _ limit = some none

    abbrev pub summarised : List Row → ℕ → List Row → Option Executed
    summarised sample total_count all_rows = do
      summary ← build_summary db con
      some (record { sample = sample; count = total_count; summary = summary; all_rows = all_rows })

    -- The sample when the question groups by nothing.
    unfoldable pub plain_sample : ℕ → List Row → Option Executed
    unfolding rows_to_dicts build_summary
    plain_sample total_count all_rows =
        if leb total_count sample_threshold
        then some
            (record { sample = all_rows; count = total_count; summary = none; all_rows = all_rows })
        else (do
          t ← query ("SELECT * FROM _results USING SAMPLE " & db.str sample_size & " ROWS")
          summarised (rows_to_dicts t) total_count all_rows)

    abbrev pub sampled_by : ℕ → List Row → Option (List Row) → Option Executed
    sampled_by total_count all_rows (some rows) = summarised rows total_count all_rows
    sampled_by total_count all_rows none = plain_sample total_count all_rows

    unfoldable pub sampled : List String → Option (List String) → Option ℕ → ℕ → Option Executed
    unfolding rows_to_dicts grouped_sample plain_sample
    sampled result_cols level limit total_count = do
      all_rows ← query "SELECT * FROM _results"
      sample ← grouped_sample result_cols level limit
      sampled_by total_count (rows_to_dicts all_rows) sample

    unfoldable pub read_counted :
        List String → Option (List String) → Option ℕ → ℕ → Option Executed
    unfolding sampled
    read_counted result_cols level limit total_count =
        if eqb total_count 0
        then some (record { sample = []; count = 0; summary = none; all_rows = [] })
        else sampled result_cols level limit total_count

    -- The reading of the materialised results.
    unfoldable pub read_results : Option (List String) → Option ℕ → Option Executed
    unfolding read_counted
    read_results level limit = do
      names ← query columns_sql
      counted ← query "SELECT COUNT(*) FROM _results"
      total_count ← count_in counted.rows
      read_counted (first_columns db names.rows) level limit total_count

  unfoldable pub execute_sql : List TableEntry → String → Option Intent → Option Executed
  unfolding materialize read_results
  execute_sql entries sql_query intent = do
    con ← materialize db entries sql_query
    read_results con (agg_level intent) (limit_asked intent)

  -- The text of the exception, `str(exc)`, is an argument.
  unfoldable pub run : List TableEntry → String → ConversationState → Ran
  unfolding execute_sql
  run entries exc state =
      let sql = or_empty state.sql_query in
      if sql == ""
      then (
        [],
        some (record state { query_result = some (failed_with "Geen SQL query gegenereerd") }),
      )
      else elim (execute_sql entries sql (intent_of state.intent_analysis)) [
        | none ↦ ([], some (record state { query_result = some (failed_with exc) }))
        | some e ↦
            (map_events e.all_rows, some (record state { query_result = some (executed_result e) }))
      ]

  unfoldable pub execute_query : List TableEntry → String → ConversationState → Called
  unfolding call_step run
  execute_query entries exc state = call_step "execute" true (run entries exc state) (record state {
    query_result = some (failed_with "Onverwachte fout bij uitvoeren van de query");
  })
