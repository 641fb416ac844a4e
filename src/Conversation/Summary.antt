-- ===== src/Conversation/Summary.antt =====
-- `_build_summary` of services/nodes/execute_query.py: the statistics of the result columns.
use onegov2_spatial_assistan.Prelude.{
  ℕ, String, Bool, true, false, not, ◌&&◌, Option, none, some, List, [], ◌∷◌, ◌==◌, Dict, insert,
  one_of, eqb, if◌then◌else◌, ◌>>=◌,
}
use onegov2_spatial_assistan.Filters.Queries.{◌&◌}
use onegov2_spatial_assistan.Conversation.State.{
  Cell, null, whole, ColumnSummary, numeric, categorical,
}
use onegov2_spatial_assistan.Conversation.Database.{Table, Database, count_in}

abbrev pub categorical_top_n : ℕ
categorical_top_n = 5

abbrev pub categorical_types : List String
categorical_types = "VARCHAR" ∷ "TEXT" ∷ "BLOB" ∷ "STRING" ∷ []

abbrev pub numeric_types : List String
numeric_types =
    "INTEGER" ∷ "BIGINT" ∷ "DOUBLE" ∷ "FLOAT" ∷ "DECIMAL" ∷ "HUGEINT" ∷ "SMALLINT" ∷ "TINYINT" ∷ []

abbrev is_null : Cell → Bool
is_null null = true
is_null _ = false

module _ (db : Database) (con : List String) where
  abbrev query : String → Option Table
  query sql = db.execute con sql []

  abbrev numeric_sql : String → String
  numeric_sql c =
      "SELECT MIN(\"" & c & "\"), MAX(\"" & c & "\"), ROUND(AVG(\"" & c & "\"), 2) FROM _results"

  abbrev non_null_sql : String → String
  non_null_sql c = "SELECT COUNT(*) FROM _results WHERE \"" & c & "\" IS NOT NULL"

  abbrev distinct_sql : String → String
  distinct_sql c =
      "SELECT COUNT(DISTINCT \"" & c & "\") FROM _results WHERE \"" & c & "\" IS NOT NULL"

  abbrev top_sql : String → String
  top_sql c =
      "SELECT \""
      & c
      & "\", COUNT(*) AS cnt FROM _results WHERE \""
      & c
      & "\" IS NOT NULL GROUP BY \""
      & c
      & "\" ORDER BY cnt DESC LIMIT "
      & db.str categorical_top_n

  abbrev top_values : List (List Cell) → Dict ℕ → Dict ℕ
  top_values ((v ∷ whole n ∷ cells) ∷ rows) found = top_values rows (insert (db.cell_str v) n found)
  top_values _ found = found

  abbrev numeric_of : List (List Cell) → Option ColumnSummary
  numeric_of ((low ∷ high ∷ avg ∷ cells) ∷ rows) =
      if is_null low then none else some (numeric low high avg)
  numeric_of _ = none

  -- One column: an exception, no summary, or its summary.
  abbrev column_summary : String → String → Option (Option ColumnSummary)
  column_summary col_name col_type =
      if one_of col_type numeric_types
      then (do t ← query (numeric_sql col_name); some (numeric_of t.rows))
      else if one_of col_type categorical_types && not (col_name == "h3_id")
      then (do
        t ← query (non_null_sql col_name)
        non_null_count ← count_in t.rows
        if eqb non_null_count 0 then some none else (do
          u ← query (distinct_sql col_name)
          distinct_count ← count_in u.rows
          v ← query (top_sql col_name)
          some (some (categorical non_null_count distinct_count (top_values v.rows [])))))
      else some none

  abbrev summary_of : List (List Cell) → Dict ColumnSummary → Option (Dict ColumnSummary)
  summary_of [] summary = some summary
  summary_of ((name ∷ type ∷ cells) ∷ rows) summary = do
    column ← column_summary (db.cell_str name) (db.cell_str type)
    summary_of rows (elim column [ none ↦ summary | some s ↦ insert (db.cell_str name) s summary ])
  summary_of (_ ∷ rows) summary = none

  -- `summary or None`
  abbrev nonempty : Dict ColumnSummary → Option (Dict ColumnSummary)
  nonempty [] = none
  nonempty (s ∷ ss) = some (s ∷ ss)

  unfoldable pub build_summary : Option (Option (Dict ColumnSummary))
  build_summary = do
    cols ←
        query
          "SELECT column_name, data_type FROM information_schema.columns WHERE table_name = '_results'"
    summary ← summary_of cols.rows []
    some (nonempty summary)
