-- ===== src/Conversation/Database.antt =====
-- services/helpers/db.py and the views of services/helpers/tables.py: a connection to DuckDB, as the
-- statements executed on it so far. DuckDB is a parameter: a statement with its values, after those
-- statements, gives a table, or an exception.
use onegov2_spatial_assistan.Prelude.{
  ℕ, String, Bool, ◌&&◌, Option, none, some, List, [], ◌∷◌, ◌++◌, ◌==◌, insert, map, eqb, is_space,
  if◌then◌else◌, ◌>>=◌,
}
use Prim.Native.Char.{Char, code}
use onegov2_spatial_assistan.Filters.Queries.{◌&◌}
use onegov2_spatial_assistan.Conversation.State.{Cell, whole, Row}

pub record Table : Type 0 where
  pub columns : List String
  pub rows : List (List Cell)

pub record Database : Type 0 where
  pub execute : List String → String → List String → Option Table
  -- `str(v)` of a value and `str(n)` of a number
  pub cell_str : Cell → String
  pub str : ℕ → String

pub record TableEntry : Type 0 where
  pub theme : String
  pub table_name : String
  pub group : String
  pub parquet_glob : String
  pub is_cbs : Bool

-- `sql_query.rstrip().rstrip(";")`
abbrev trim_end : (Char → Bool) → String → String
trim_end p String.[] = ""
trim_end p (String.◌∷◌ c s) =
    let rest = trim_end p s in if rest == "" && p c then "" else String.◌∷◌ c rest

unfoldable pub without_semicolon : String → String
without_semicolon sql = trim_end (λ c. eqb (code c) b';') (trim_end (λ c. is_space (code c)) sql)

unfoldable pub view_of : TableEntry → String
view_of entry =
    if entry.is_cbs
    then "CREATE OR REPLACE VIEW " & entry.table_name
      & " AS SELECT * EXCLUDE (h3_index), LOWER(h3_index) AS h3_id FROM read_parquet('"
      & entry.parquet_glob & "')"
    else "CREATE OR REPLACE VIEW " & entry.table_name
      & " AS SELECT * EXCLUDE (h3_id), LOWER(h3_id) AS h3_id FROM read_parquet('"
      & entry.parquet_glob & "')"

-- `dict(zip(columns, row))`
abbrev zipped : Row → List String → List Cell → Row
zipped found [] cells = found
zipped found (c ∷ columns) [] = found
zipped found (c ∷ columns) (v ∷ cells) = zipped (insert c v found) columns cells

unfoldable pub rows_to_dicts : Table → List Row
rows_to_dicts t = map (zipped [] t.columns) t.rows

-- `fetchone()[0]`, of a count
abbrev pub count_in : List (List Cell) → Option ℕ
count_in ((whole n ∷ cells) ∷ rows) = some n
count_in _ = none

abbrev pub first_columns : Database → List (List Cell) → List String
first_columns db [] = []
first_columns db ([] ∷ rows) = first_columns db rows
first_columns db ((v ∷ cells) ∷ rows) = db.cell_str v ∷ first_columns db rows

module _ (db : Database) where
  -- A statement that changes the connection: the statements executed with it.
  abbrev pub perform : String → List String → Option (List String)
  perform statement before = elim (db.execute before statement []) [
    | none ↦ none
    | some table ↦ some (before ++ statement ∷ [])
  ]

  -- `try: con.execute(a) except: con.execute(b)`
  abbrev pub perform_or : String → String → List String → Option (List String)
  perform_or a b before = elim (perform a before) [
    | none ↦ perform b before
    | some after ↦ some after
  ]

  pub register_tables : List TableEntry → List String → Option (List String)
  unfolding view_of
  register_tables [] before = some before
  register_tables (entry ∷ entries) before = do
    after ← perform (view_of entry) before
    register_tables entries after

  -- The connection on which the results stand in `_results`.
  unfoldable pub materialize : List TableEntry → String → Option (List String)
  unfolding without_semicolon register_tables
  materialize entries sql_query = do
    a ← perform_or "LOAD delta;" "INSTALL delta; LOAD delta;" []
    b ← perform_or "LOAD h3;" "INSTALL h3 FROM community; LOAD h3;" a
    c ← register_tables entries b
    perform ("CREATE TEMP TABLE _results AS " & without_semicolon sql_query) c
