-- ===== src/Filters/Queries.antt =====
-- services/helpers/filter_queries.py: the SQL that validates filters. The connection is a parameter:
-- a query text with its values gives the first column of the rows, as texts. Opening it or one of the
-- statements may raise; which validations that happens to is a parameter too, since the exception
-- leaves the whole validation (Filters.Node).
use onegov2_spatial_assistan.Prelude.{
  String, Bool, true, false, not, Option, none, some, List, [], ◌∷◌, ◌++◌, ◌==◌, Dict, lookup_or,
  insert, values, map, join, keep, is_empty, strip, upper, if◌then◌else◌,
}
use Prim.Native.String.{◌++◌ as text_append}
use onegov2_spatial_assistan.Filters.Model.{Filter}

pub record Connection : Type 0 where
  pub fetch_texts : String → List String → List String
  -- whether the validation of these categorical and these origin filters raises
  pub raises : List Filter → List Filter → Bool

infixr 66 ◌&◌
abbrev pub ◌&◌ : String → String → String
s & t = text_append s t

-- `d.setdefault(k, []).append(v)`
abbrev pub append_under {ℓ} : {V : Type ℓ} → String → V → Dict (List V) → Dict (List V)
append_under k v d = insert k (lookup_or k d [] ++ v ∷ []) d

abbrev pub is_like : Filter → Bool
is_like f = upper (strip f.operator) == "LIKE"

unfoldable pub predicate_for_filter : Filter → String
predicate_for_filter f =
    if is_like f then "\"" & f.column & "\" LIKE ?" else "\"" & f.column & "\" = ?"

unfoldable pub group_from : Dict (List Filter) → List Filter → Dict (List Filter)
group_from grouped [] = grouped
group_from grouped (f ∷ fs) = group_from (append_under f.column f grouped) fs

-- The clauses and the values, group by group.
pub where_groups : List (List Filter) → List String × List String
unfolding predicate_for_filter
where_groups [] = ([], [])
where_groups (group ∷ groups) =
    let (clauses, params) = where_groups groups in
    (
      ("(" & join " OR " (map predicate_for_filter group) & ")") ∷ clauses,
      map (λ f. f.value) group ++ params,
    )

unfoldable pub build_grouped_where_clause : List Filter → String × List String
unfolding group_from where_groups
build_grouped_where_clause [] = ("", [])
build_grouped_where_clause (f ∷ fs) =
    let (clauses, params) = where_groups (values (group_from [] (f ∷ fs))) in
    (join " AND " clauses, params)

-- `(f.table or table) == table`
abbrev pub table_or : Option String → String → String
table_or none t = t
table_or (some u) t = if u == "" then t else u

-- `not table`
abbrev pub no_table : Option String → Bool
no_table none = true
no_table (some t) = t == ""

abbrev pub table_text : Option String → String
table_text none = ""
table_text (some t) = t

unfoldable pub same_table_scope : Option String → List Filter → String × List String
unfolding build_grouped_where_clause
same_table_scope table scope_filters =
    let relevant =
      keep (λ f. table_or f.table (table_text table) == table_text table) scope_filters in
    if is_empty scope_filters
    then ("", [])
    else if no_table table
    then ("", [])
    else if is_empty relevant
    then ("", [])
    else (let (clause, params) = build_grouped_where_clause relevant in
        if clause == "" then ("", []) else (" AND " & clause, params))

module _ (con : Connection) where
  -- `con.execute(query, params).fetchone() is not None`
  abbrev pub has_row : String → List String → Bool
  has_row query params = not (is_empty (con.fetch_texts query params))

  unfoldable pub check_value_exists : Filter → List Filter → Bool
  unfolding same_table_scope
  check_value_exists f scope_filters =
      let (scope_sql, scope_params) = same_table_scope f.table scope_filters in
      let clause =
        if is_like f then "\"" & f.column & "\" LIKE ?" else "\"" & f.column & "\" = ?" in
      if no_table f.table
      then true
      else has_row
          ("SELECT 1 FROM " & table_text f.table & " WHERE " & clause & scope_sql & " LIMIT 1")
          (f.value ∷ scope_params)

  unfoldable pub fetch_distinct_values : Filter → List Filter → List String
  unfolding same_table_scope
  fetch_distinct_values f scope_filters =
      let (scope_sql, scope_params) = same_table_scope f.table scope_filters in
      if no_table f.table
      then []
      else con.fetch_texts
          ("SELECT DISTINCT \""
            & f.column
            & "\" FROM "
            & table_text f.table
            & " WHERE \""
            & f.column
            & "\" IS NOT NULL"
            & scope_sql
            & " ORDER BY \""
            & f.column
            & "\"")
          scope_params

  pub tables_from : Dict (List Filter) → List Filter → Dict (List Filter)
  tables_from by_table [] = by_table
  tables_from by_table (f ∷ fs) =
      tables_from
        (if no_table f.table then by_table else append_under (table_text f.table) f by_table) fs

  pub check_tables : Dict (List Filter) → Bool
  unfolding build_grouped_where_clause
  check_tables [] = true
  check_tables ((table, group) ∷ rest) =
      let others = check_tables rest in
      let (clause, params) = build_grouped_where_clause group in
      if clause == ""
      then others
      else if has_row ("SELECT 1 FROM " & table & " WHERE " & clause & " LIMIT 1") params
      then others
      else false

  unfoldable pub check_combination_has_results : List Filter → Bool
  unfolding tables_from check_tables
  check_combination_has_results [] = true
  check_combination_has_results (f ∷ fs) = check_tables (tables_from [] (f ∷ fs))
