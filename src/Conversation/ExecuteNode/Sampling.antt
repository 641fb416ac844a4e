-- ===== src/Conversation/ExecuteNode/Sampling.antt =====
-- How much of a result goes to the describing model.
use onegov2_spatial_assistan.Prelude.{
  ℕ, ◌≤◌, ◌+◌, String, ◌≡◌, refl, Bool, inl, inr, true, false, Option, none, some, List, [], ◌∷◌,
  arith, map, length, max, eqb, leb, leb→le, Bool-cases, Option-cases, if◌then◌else◌,
}
use onegov2_spatial_assistan.Filters.Model.{Intent}
use onegov2_spatial_assistan.Filters.Queries.{◌&◌}
use onegov2_spatial_assistan.Conversation.State.{Row}
use onegov2_spatial_assistan.Conversation.Database.{
  Table, Database, TableEntry, materialize, rows_to_dicts, count_in, first_columns,
}
use onegov2_spatial_assistan.Conversation.Summary.{build_summary}
use onegov2_spatial_assistan.Conversation.ExecuteNode.{
  Executed, sample_size, sample_threshold, limit_of, limit_asked, agg_level, sampled_by,
  categorical_sample_sql, numeric_sample_sql, sample_aggregation, is_column_categorical,
  grouped_sample, plain_sample, summarised, sampled, read_counted, read_results, execute_sql,
  columns_sql, pick_aggregation_value_column,
}

-- What the documentation of DuckDB says of the statements that are run: a count is the number of the
-- rows, `USING SAMPLE n ROWS` and `LIMIT n` give at most `n` rows, and a union at most those of both.
pub record IsDuckDb (db : Database) : Type 0 where
  pub counts :
      (con : List String) (counted all : Table) (n : ℕ)
      → db.execute con "SELECT COUNT(*) FROM _results" [] ≡ some counted
      → count_in counted.rows ≡ some n
      → db.execute con "SELECT * FROM _results" [] ≡ some all
      → length all.rows ≡ n
  pub samples :
      (con : List String) (t : Table)
      → db.execute con ("SELECT * FROM _results USING SAMPLE " & db.str sample_size & " ROWS") []
        ≡ some t
      → length t.rows ≤ sample_size
  pub limits :
      (con : List String) (level_col value_col : String) (n : ℕ) (t : Table)
      → db.execute con (categorical_sample_sql db con level_col value_col n) [] ≡ some t
      → length t.rows ≤ n
  pub unites :
      (con : List String) (level_col value_col : String) (n : ℕ) (t : Table)
      → db.execute con (numeric_sample_sql db con level_col value_col n) [] ≡ some t
      → length t.rows ≤ n + n

-- The most rows that a sample can have.
abbrev pub sample_bound : Option ℕ → ℕ
sample_bound limit = max sample_threshold (limit_of limit + limit_of limit)

pub record IsBounded (limit : Option ℕ) (e : Executed) : Type 0 where
  pub counted : length e.all_rows ≡ e.count
  pub small : length e.sample ≤ sample_bound limit

length-map {ℓ κ} :
    {A : Type ℓ} {B : Type κ} (f : A → B) (xs : List A) → length (map f xs) ≡ length xs
length-map f [] = refl
length-map f (x ∷ xs) = omega (arith, length-map f xs)

length-rows_to_dicts : (t : Table) → length (rows_to_dicts t) ≡ length t.rows
unfolding rows_to_dicts
length-rows_to_dicts t = length-map _ t.rows

some-eq {ℓ} : {A : Type ℓ} {a b : A} → some a ≡ some b → a ≡ b
some-eq q = cc

module _ (db : Database) (d : IsDuckDb db) (con : List String) (limit : Option ℕ) where
  abbrev aggregation_sql : String → String → Bool → String
  aggregation_sql level_col value_col is_categorical =
      if is_categorical
      then categorical_sample_sql db con level_col value_col (limit_of limit)
      else numeric_sample_sql db con level_col value_col (limit_of limit)

  aggregation_rows :
      (level_col value_col : String) (is_categorical : Bool) (t : Table)
      → db.execute con (aggregation_sql level_col value_col is_categorical) [] ≡ some t
      → length t.rows ≤ limit_of limit + limit_of limit
  aggregation_rows level_col value_col true t asked =
      omega (arith, d.limits con level_col value_col (limit_of limit) t asked)
  aggregation_rows level_col value_col false t asked =
      d.unites con level_col value_col (limit_of limit) t asked

  sample_aggregation-length :
      (level_col value_col : String) (is_categorical : Bool) (rows : List Row)
      → sample_aggregation db con level_col value_col is_categorical limit ≡ some rows
      → length rows ≤ limit_of limit + limit_of limit
  unfolding sample_aggregation
  sample_aggregation-length level_col value_col is_categorical rows h =
      elim (Option-cases (db.execute con (aggregation_sql level_col value_col is_categorical) [])) [
        | inl e ↦ absurd (cc (rw (e, sample_aggregation) at h))
        | inr (t, e) ↦
            let same : rows_to_dicts t ≡ rows = some-eq (rw (e, sample_aggregation) at h) in
            rw (← same, length-rows_to_dicts t)
              (aggregation_rows level_col value_col is_categorical t e)
      ]

  grouped_sample-length :
      (cols : List String) (level : Option (List String)) (rows : List Row)
      → grouped_sample db con cols level limit ≡ some (some rows)
      → length rows ≤ limit_of limit + limit_of limit
  unfolding grouped_sample
  grouped_sample-length cols none rows h = absurd (cc (some-eq h))
  grouped_sample-length cols (some []) rows h = absurd (cc (some-eq h))
  grouped_sample-length cols (some (level_col ∷ levels)) rows h =
      elim (Option-cases (pick_aggregation_value_column cols level_col)) [
        | inl e ↦ absurd (cc (rw (e, grouped_sample) at h))
        | inr (value_col, e) ↦ elim (Option-cases (is_column_categorical db con value_col)) [
          | inl f ↦ absurd (cc (rw (e, f, grouped_sample) at h))
          | inr (is_categorical, f) ↦
              elim (Option-cases
                (sample_aggregation db con level_col value_col is_categorical limit)) [
                  | inl g ↦ absurd (cc (rw (e, f, g, grouped_sample) at h))
                  | inr (sample, g) ↦
                      let same : sample ≡ rows =
                        some-eq (some-eq (rw (e, f, g, grouped_sample) at h)) in
                      rw (← same)
                        (sample_aggregation-length level_col value_col is_categorical sample g)
                ]
        ]
      ]

  summarised-IsBounded :
      (sample all_rows : List Row) (total : ℕ) (e : Executed)
      → length all_rows ≡ total
      → length sample ≤ sample_bound limit
      → summarised db con sample total all_rows ≡ some e
      → IsBounded limit e
  summarised-IsBounded sample all_rows total e c b h = elim (Option-cases (build_summary db con)) [
    | inl f ↦ absurd (cc (rw f at h))
    | inr (summary, f) ↦
        let same = some-eq (rw f at h) in rw (← same) (record { counted = c; small = b })
  ]

  plain_sample-IsBounded :
      (all_rows : List Row) (total : ℕ) (e : Executed)
      → length all_rows ≡ total
      → plain_sample db con total all_rows ≡ some e
      → IsBounded limit e
  unfolding plain_sample
  plain_sample-IsBounded all_rows total e c h = elim (Bool-cases (leb total sample_threshold)) [
    | inl f ↦
        let same = some-eq (rw (f, plain_sample) at h) in
        rw (← same)
          (record { counted = c; small = omega (arith, leb→le total sample_threshold f, c) })
    | inr f ↦
        elim (Option-cases (
          db.execute con ("SELECT * FROM _results USING SAMPLE " & db.str sample_size & " ROWS")
            [])) [
              | inl g ↦ absurd (cc (rw (f, g, plain_sample) at h))
              | inr (t, g) ↦
                  summarised-IsBounded (rows_to_dicts t) all_rows total e c
                    (omega (arith, d.samples con t g, length-rows_to_dicts t))
                    (rw (f, g, plain_sample) at h)
            ]
  ]

  sampled_by-IsBounded :
      (cols : List String) (level : Option (List String)) (all_rows : List Row) (total : ℕ)
      (by : Option (List Row)) (e : Executed)
      → length all_rows ≡ total
      → grouped_sample db con cols level limit ≡ some by
      → sampled_by db con total all_rows by ≡ some e
      → IsBounded limit e
  sampled_by-IsBounded cols level all_rows total none e c g h =
      plain_sample-IsBounded all_rows total e c h
  sampled_by-IsBounded cols level all_rows total (some rows) e c g h =
      summarised-IsBounded rows all_rows total e c
        (omega (arith, grouped_sample-length cols level rows g)) h

  sampled-IsBounded :
      (cols : List String) (level : Option (List String)) (counted : Table) (total : ℕ)
      (e : Executed)
      → db.execute con "SELECT COUNT(*) FROM _results" [] ≡ some counted
      → count_in counted.rows ≡ some total
      → sampled db con cols level limit total ≡ some e
      → IsBounded limit e
  unfolding sampled
  sampled-IsBounded cols level counted total e q n h =
      elim (Option-cases (db.execute con "SELECT * FROM _results" [])) [
        | inl f ↦ absurd (cc (rw (f, sampled) at h))
        | inr (all, f) ↦ elim (Option-cases (grouped_sample db con cols level limit)) [
          | inl g ↦ absurd (cc (rw (f, g, sampled) at h))
          | inr (by, g) ↦
              sampled_by-IsBounded cols level (rows_to_dicts all) total by e
                (omega (arith, d.counts con counted all total q n f, length-rows_to_dicts all)) g
                (rw (f, g, sampled) at h)
        ]
      ]

  read_counted-IsBounded :
      (cols : List String) (level : Option (List String)) (counted : Table) (total : ℕ)
      (e : Executed)
      → db.execute con "SELECT COUNT(*) FROM _results" [] ≡ some counted
      → count_in counted.rows ≡ some total
      → read_counted db con cols level limit total ≡ some e
      → IsBounded limit e
  unfolding read_counted
  read_counted-IsBounded cols level counted total e q n h = elim (Bool-cases (eqb total 0)) [
    | inl f ↦
        let same = some-eq (rw (f, read_counted) at h) in
        rw (← same) (record { counted = refl; small = omega arith })
    | inr f ↦ sampled-IsBounded cols level counted total e q n (rw (f, read_counted) at h)
  ]

  read_results-IsBounded :
      (level : Option (List String)) (e : Executed)
      → read_results db con level limit ≡ some e
      → IsBounded limit e
  unfolding read_results
  read_results-IsBounded level e h = elim (Option-cases (db.execute con columns_sql [])) [
    | inl f ↦ absurd (cc (rw (f, read_results) at h))
    | inr (names, f) ↦ elim (Option-cases (db.execute con "SELECT COUNT(*) FROM _results" [])) [
      | inl g ↦ absurd (cc (rw (f, g, read_results) at h))
      | inr (counted, g) ↦ elim (Option-cases (count_in counted.rows)) [
        | inl k ↦ absurd (cc (rw (f, g, k, read_results) at h))
        | inr (total, k) ↦
            read_counted-IsBounded (first_columns db names.rows) level counted total e g k
              (rw (f, g, k, read_results) at h)
      ]
    ]
  ]

-- On a database that counts, samples and limits as DuckDB documents: when a query is executed, its
-- count is the number of rows for the map, and the sample for the describing model has at most a
-- hundred rows, or twice the larger of ten and the limit that was asked, whichever is more.
pub execute_sql-IsBounded :
    (db : Database) (entries : List TableEntry) (sql_query : String) (intent : Option Intent)
    (e : Executed)
    → IsDuckDb db
    → execute_sql db entries sql_query intent ≡ some e
    → IsBounded (limit_asked intent) e
unfolding execute_sql
execute_sql-IsBounded db entries sql_query intent e d h =
    elim (Option-cases (materialize db entries sql_query)) [
      | inl f ↦ absurd (cc (rw (f, execute_sql) at h))
      | inr (con, f) ↦
          read_results-IsBounded db d con (limit_asked intent) (agg_level intent) e
            (rw (f, execute_sql) at h)
    ]
