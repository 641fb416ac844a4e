-- ===== src/Conversation/Prompts.antt =====
-- services/helpers/prompt_helpers.py and the `_columns_block` of services/nodes/describe_results.py:
-- the parts of a prompt. `str` and the format `:,` of numbers, the text of a value and `json.dumps`
-- are parameters. `build_columns_text` and `build_all_column_names` are called nowhere.
use onegov2_spatial_assistan.Prelude.{
  ℕ, String, Bool, true, false, Option, none, some, List, [], ◌∷◌, ◌++◌, ◌==◌, Dict, map, join,
  length, leb, eqb, keep, is_empty, one_of, if◌then◌else◌,
}
use Prim.Native.Char.{code}
use onegov2_spatial_assistan.Dictionary.{DataDictionary, TableInfo, ColumnInfo, all_tables}
use onegov2_spatial_assistan.Filters.Model.{
  Filter, Aggregation, YearComparison, SpatialQuery, Intent,
}
use onegov2_spatial_assistan.Filters.Queries.{◌&◌}
use onegov2_spatial_assistan.Conversation.State.{Cell, Row, ColumnSummary, numeric, categorical}

pub record Formats : Type 0 where
  pub str : ℕ → String
  pub comma : ℕ → String
  pub cell_str : Cell → String
  pub dumps : List Row → String

-- `v.replace("'", "''")`
abbrev pub double_quotes : String → String
double_quotes String.[] = String.[]
double_quotes (String.◌∷◌ c s) =
    if eqb (code c) b'\'' then "''" & double_quotes s else String.◌∷◌ c (double_quotes s)

-- `if text` on an optional text
abbrev pub has_text : Option String → Bool
has_text none = false
has_text (some t) = if t == "" then false else true

abbrev pub truthy_level : Option (List String) → Option (List String)
truthy_level (some (l ∷ ls)) = some (l ∷ ls)
truthy_level _ = none

abbrev fmt_value : Bool → String → String
fmt_value for_sql v = if for_sql then double_quotes v else v

abbrev fmt_filter : Bool → Filter → String
fmt_filter for_sql f = f.column & " " & f.operator & " \"" & fmt_value for_sql f.value & "\""

module _ (fmt : Formats) where
  open fmt use {str, comma, cell_str, dumps}

  abbrev aggregation_lines : Option Aggregation → String
  aggregation_lines none = ""
  aggregation_lines (some a) =
      "\n    - Aggregation: " & a.function & "(" & a.column & ")" & elim (truthy_level a.level) [
        | none ↦ ""
        | some level ↦ "\n    - Aggregation level (GROUP BY): " & join ", " level
      ]

  abbrev limit_line : Option ℕ → String
  limit_line none = ""
  limit_line (some n) = if eqb n 0 then "" else "\n    - Limit (top-N): " & str n

  abbrev spatial_lines : Bool → Option SpatialQuery → String
  spatial_lines for_sql none = ""
  spatial_lines for_sql (some q) =
      "\n    - Spatial proximity query (spatial_query):"
      & "\n      - Origin area filters (origin_filters): "
      & join ", " (map (fmt_filter for_sql) q.origin_filters)
      & "\n      - Number of H3 rings (k_rings): "
      & str q.k_rings

  abbrev year_line : Option YearComparison → String
  year_line none = ""
  year_line (some yc) =
      "\n    - Year comparison: "
      & yc.column
      & " — from "
      & str yc.year_from
      & " to "
      & str yc.year_to

  unfoldable pub format_intent_section : Intent → Bool → String
  format_intent_section intent for_sql =
      "\n    - Description: "
      & intent.description
      & "\n    - Relevant columns: "
      & join ", " intent.relevant_columns
      & "\n    - Filters: "
      & join ", " (map (fmt_filter for_sql) intent.filters)
      & aggregation_lines intent.aggregation
      & limit_line intent.limit
      & spatial_lines for_sql intent.spatial_query
      & year_line intent.year_comparison

  abbrev summary_line : String × ColumnSummary → String
  summary_line (col_name, categorical non_null_count distinct_count top_values) =
      "- **"
      & col_name
      & "**: "
      & comma non_null_count
      & " non-null values, "
      & comma distinct_count
      & " distinct values. Most common: "
      & join ", " (map (λ p. "\"" & p.0 & "\" (" & comma p.1 & "×)") top_values)
  summary_line (col_name, numeric low high avg) =
      "- **"
      & col_name
      & "**\n  min: "
      & cell_str low
      & "\n  max: "
      & cell_str high
      & "\n  avg: "
      & cell_str avg

  abbrev summary_parts : Option (Dict ColumnSummary) → List String
  summary_parts none = []
  summary_parts (some []) = []
  summary_parts (some (entry ∷ entries)) =
      "\n### Summary Statistics per Column" ∷ map summary_line (entry ∷ entries)

  abbrev sample_parts : ℕ → Option (List Row) → List String
  sample_parts count none = []
  sample_parts count (some []) = []
  sample_parts count (some (row ∷ rows)) =
      ("\n### "
        & (if leb count 100
            then "All rows"
            else "Sample (" & str (length (row ∷ rows)) & " of " & comma count & " rows)"))
      ∷ "```json"
      ∷ dumps (row ∷ rows)
      ∷ "```"
      ∷ []

  abbrev pub no_results : String
  no_results = "## Query Results\nThe query returned no results (0 rows)."

  abbrev counted_section : Option (List Row) → ℕ → Option (Dict ColumnSummary) → String
  counted_section sample count summary =
      if eqb count 0
      then no_results
      else join "\n" (
          ("## Query Results\nTotal rows: " & comma count) ∷ summary_parts summary
          ++ sample_parts count sample)

  unfoldable pub format_results_section :
      Option (List Row) → Option ℕ → Option (Dict ColumnSummary) → Option String → String
  format_results_section sample count summary (some error) =
      if error == ""
      then elim count [ none ↦ no_results | some n ↦ counted_section sample n summary ]
      else "## Query Execution Error\n" & error
  format_results_section sample none summary none = no_results
  format_results_section sample (some n) summary none = counted_section sample n summary

abbrev unit_part : Option String → List String
unit_part none = []
unit_part (some u) = if u == "" then [] else ("[" & u & "]") ∷ []

abbrev range_part : Option String → Option String → List String
range_part (some low) (some high) = (". Range: " & low & "-" & high) ∷ []
range_part _ _ = []

abbrev column_line : ColumnInfo → String
column_line c = join " " (
    ("- " & c.name & " (" & c.type & ")") ∷ unit_part c.unit
    ++ (if c.description == "" then [] else (": " & c.description) ∷ [])
    ++ range_part c.min c.max)

abbrev sections_of : List String → List TableInfo → List String
sections_of names [] = []
sections_of names (t ∷ tables) =
    let rest = sections_of names tables in
    let cols = keep (λ c. one_of c.name names) t.columns in
    if is_empty cols then rest else join "\n" (("### " & t.name) ∷ map column_line cols) ∷ rest

unfoldable pub columns_block : DataDictionary → List String → String
columns_block dictionary names = join "\n\n" (sections_of names (all_tables dictionary))
