-- ===== src/Conversation/Tests.antt =====
-- The nodes on small inputs: the correction of a column name, coordinates read back from the text of a
-- search, the sample of a result, and the sources of a query.
use onegov2_spatial_assistan.Prelude.{
  ◌==◌, String, ◌≡◌, refl, false, none, some, [], ◌∷◌, In.here, In.there, arith, if◌then◌else◌, inl,
  inr, sym, ap, ◌∙◌, Bool-cases, text_take, chars, text_take-append, eq_iff,
}
use onegov2_spatial_assistan.Dictionary.{ColumnInfo, DataDictionary}
use onegov2_spatial_assistan.Filters.Model.{Intent}
use onegov2_spatial_assistan.Filters.Queries.{◌&◌}
use onegov2_spatial_assistan.Filters.Candidates.{CloseMatches}
use onegov2_spatial_assistan.Conversation.State.{Cell, whole}
use onegov2_spatial_assistan.Conversation.IntentNode.{
  get_valid_column_names, correct_intent, correct_column_names,
}
use onegov2_spatial_assistan.Conversation.IntentNode.Columns.{
  IsAmongChoices, IsGrounded, correct_intent-IsGrounded,
}
use onegov2_spatial_assistan.Conversation.SpatialNode.{search_coord, match_wkt_point}
use onegov2_spatial_assistan.Conversation.Database.{Database, Table, without_semicolon}
use onegov2_spatial_assistan.Conversation.ExecuteNode.{Executed, execute_sql}
use onegov2_spatial_assistan.Conversation.ExecuteNode.Sampling.{
  IsDuckDb, IsBounded, execute_sql-IsBounded,
}
use onegov2_spatial_assistan.Conversation.SourcesNode.{theme_for_table}

abbrev column : String → ColumnInfo
column name = record {
  name = name;
  type = "VARCHAR";
  table = "woning";
  group = "woning";
  min = none;
  max = none;
  mean = none;
  sample_values = [];
  description = "";
  unit = none;
  categorical = false;
}

abbrev dictionary : DataDictionary
dictionary = record {
  total_rows = 2;
  total_columns = 1;
  themes =
      record {
        name = "woondeals";
        label = "Woondeals";
        example_questions = [];
        tables =
            record { name = "woning"; group = "woning"; columns = column "bouwjaar" ∷ [] } ∷ [];
      }
      ∷ [];
}

-- Matches with the first possibility.
abbrev first_choice : CloseMatches
first_choice word [] n cutoff = []
first_choice word (c ∷ choices) n cutoff = c ∷ []

first_choice-IsAmongChoices : IsAmongChoices first_choice
first_choice-IsAmongChoices word [] n cutoff best m = m
first_choice-IsAmongChoices word (c ∷ choices) n cutoff best (here e) = here e
first_choice-IsAmongChoices word (c ∷ choices) n cutoff best (there m) = elim m [ ]

abbrev misspelt : Intent
misspelt = record {
  description = "oude woningen";
  relevant_columns = "bouwjar" ∷ [];
  filters = record { table = none; column = "bouwjar"; operator = "="; value = "1900" } ∷ [];
  aggregation = none;
  limit = none;
  spatial_query = none;
  year_comparison = none;
}

correct_intent-IsGrounded_example :
    IsGrounded first_choice
      (get_valid_column_names dictionary)
      (correct_intent first_choice dictionary misspelt)
correct_intent-IsGrounded_example =
    correct_intent-IsGrounded first_choice first_choice-IsAmongChoices dictionary misspelt

correct_column_names_test :
    correct_column_names first_choice ("bouwjaar" ∷ []) ("bouwjar" ∷ []) ≡ "bouwjaar" ∷ []
unfolding correct_column_names
correct_column_names_test = refl

search_coord_test :
    search_coord "- Delft (type: gemeente) → lat=52.011600, lon=4.357100\n"
    ≡ some ("52.011600", "4.357100")
unfolding search_coord
search_coord_test = refl

match_wkt_point_test : match_wkt_point "POINT(4.3571 52.0116)" ≡ some ("4.3571", "52.0116")
unfolding match_wkt_point
match_wkt_point_test = refl

without_semicolon_test : without_semicolon "SELECT 1 ; \n" ≡ "SELECT 1 "
unfolding without_semicolon
without_semicolon_test = refl

theme_for_table_test : theme_for_table "CBS_buurten" [] ≡ some "cbs"
unfolding theme_for_table
theme_for_table_test = refl

abbrev one_count : Table
one_count = record { columns = "count" ∷ []; rows = (whole 1 ∷ []) ∷ [] }

abbrev one_row : Table
one_row = record { columns = "h3_id" ∷ []; rows = (Cell.value "89196" ∷ []) ∷ [] }

abbrev nothing : Table
nothing = record { columns = []; rows = [] }

abbrev answer_to : String → Table
answer_to statement =
    if statement == "SELECT COUNT(*) FROM _results"
    then one_count
    else if statement == "SELECT * FROM _results"
    then one_row
    else nothing

-- A result of one row, whatever the query.
abbrev one_row_database : Database
one_row_database = record {
  execute = λ con statement params. some (answer_to statement);
  cell_str = λ c. "h3_id";
  str = λ n. "n";
}

some-inj {ℓ} : {A : Type ℓ} {a b : A} → some a ≡ some b → a ≡ b
some-inj q = cc

differs : (s t u : String) → (s == text_take (chars s) u) ≡ false → (s & t == u) ≡ false
differs s t u h = elim (Bool-cases (s & t == u)) [
  | inl e ↦
      let same = sym (text_take-append s t) ∙ ap (text_take (chars s)) ((eq_iff (s & t) u).0 e) in
      absurd (cc (h, (eq_iff s (text_take (chars s) u)).1 same))
  | inr e ↦ e
]

-- A statement that starts otherwise than the two reads finds nothing.
answer_to-nothing :
    (s t : String)
    → (s == text_take (chars s) "SELECT COUNT(*) FROM _results") ≡ false
    → (s == text_take (chars s) "SELECT * FROM _results") ≡ false
    → answer_to (s & t) ≡ nothing
answer_to-nothing s t h k = rw (differs s t _ h, differs s t _ k) refl

one_row_database-IsDuckDb : IsDuckDb one_row_database
one_row_database-IsDuckDb = record {
  counts = λ con counted all n p q r.
      let c = some-inj p in let a = some-inj r in rw (← a) (some-inj (rw (← c) at q));
  samples = λ con t p. let a = some-inj p in rw (← a) (omega arith);
  limits = λ con level_col value_col n t p.
      let a = some-inj p in
      rw (← a, answer_to-nothing "SELECT DISTINCT \"" _ refl refl) (omega arith);
  unites = λ con level_col value_col n t p.
      let a = some-inj p in rw (← a, answer_to-nothing "WITH top_n AS (" _ refl refl) (omega arith);
}

abbrev executed : Executed
executed = record {
  sample = (("h3_id", Cell.value "89196") ∷ []) ∷ [];
  count = 1;
  summary = none;
  all_rows = (("h3_id", Cell.value "89196") ∷ []) ∷ [];
}

executed_lem : execute_sql one_row_database [] "SELECT h3_id FROM woning;" none ≡ some executed
unfolding execute_sql
executed_lem = refl

execute_sql-IsBounded_example : IsBounded none executed
execute_sql-IsBounded_example =
    execute_sql-IsBounded one_row_database [] "SELECT h3_id FROM woning;" none executed
      one_row_database-IsDuckDb executed_lem
