-- ===== src/Dictionary.antt =====
-- models/dictionary.py: the data dictionary, by theme, table and column.
use onegov2_spatial_assistan.Prelude.{ℕ, String, Bool, Option, List, [], ◌∷◌, ◌++◌}

pub record ColumnInfo : Type 0 where
  pub name : String
  pub type : String
  pub table : String
  pub group : String
  pub min : Option String
  pub max : Option String
  pub mean : Option String
  pub sample_values : List String
  pub description : String
  pub unit : Option String
  pub categorical : Bool

pub record TableInfo : Type 0 where
  pub name : String
  pub group : String
  pub columns : List ColumnInfo

pub record Theme : Type 0 where
  pub name : String
  pub label : String
  pub example_questions : List String
  pub tables : List TableInfo

pub record DataDictionary : Type 0 where
  pub total_rows : ℕ
  pub total_columns : ℕ
  pub themes : List Theme

abbrev pub tables_of : List Theme → List TableInfo
tables_of [] = []
tables_of (theme ∷ themes) = theme.tables ++ tables_of themes

abbrev pub columns_of : List TableInfo → List ColumnInfo
columns_of [] = []
columns_of (t ∷ tables) = t.columns ++ columns_of tables

unfoldable pub all_tables : DataDictionary → List TableInfo
all_tables d = tables_of d.themes

unfoldable pub all_columns : DataDictionary → List ColumnInfo
unfolding all_tables
all_columns d = columns_of (all_tables d)
