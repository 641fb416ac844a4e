-- ===== src/Conversation/IntentNode/Columns.antt =====
-- What the correction makes of the relevant columns and of the filters of an intent. The columns of an
-- aggregation, of the spatial origin and of a year comparison are not corrected.
use onegov2_spatial_assistan.Prelude.{
  ℕ, String, ◌≡◌, refl, ◌⊎◌, inl, inr, true, List, [], ◌∷◌, ◌==◌, eq_iff, one_of, In-one_of, map,
  Bool-cases, All, In, In.here,
}
use onegov2_spatial_assistan.Dictionary.{DataDictionary}
use onegov2_spatial_assistan.Filters.Model.{Filter, Intent}
use onegov2_spatial_assistan.Filters.Candidates.{CloseMatches}
use onegov2_spatial_assistan.Conversation.IntentNode.{
  correct_column_names, corrected_column, correct_filter, correct_intent, get_valid_column_names,
  column_to_tables, spatial_column,
}

-- What the documentation of `get_close_matches` says: the matches are among the possibilities.
abbrev pub IsAmongChoices : CloseMatches → Type 0
IsAmongChoices m =
    (word : String) (choices : List String) (n cutoff : ℕ) (best : String)
    → In best (m word choices n cutoff)
    → In best choices

-- `get_close_matches(...)` as an equation, by its two outcomes
matches : (xs : List String) → (xs ≡ []) ⊎ ((b : String) × (bs : List String) × (xs ≡ b ∷ bs))
matches [] = inl refl
matches (b ∷ bs) = inr (b, bs, refl)

module _ (m : CloseMatches) where
  abbrev pub IsKnown : List String → String → Type 0
  IsKnown names column = one_of column names ≡ true

  -- The filter on the grid cells, a known column, or a column that nothing comes close to.
  abbrev pub IsCorrected : List String → Filter → Type 0
  IsCorrected names f =
      (f.column ≡ spatial_column) ⊎ IsKnown names f.column ⊎ (m f.column names 1 6 ≡ [])

  pub record IsGrounded (names : List String) (i : Intent) : Type 0 where
    pub known_columns : All (IsKnown names) i.relevant_columns
    pub known_filters : All (IsCorrected names) i.filters

  best-IsKnown :
      IsAmongChoices m
      → (column : String) (names : List String) (b : String) (bs : List String)
      → m column names 1 6 ≡ b ∷ bs
      → IsKnown names b
  best-IsKnown among column names b bs e =
      In-one_of b names (among column names 1 6 b (rw e (here refl)))

  correct_column_names-IsKnown :
      IsAmongChoices m
      → (names columns : List String) → All (IsKnown names) (correct_column_names m names columns)
  unfolding correct_column_names
  correct_column_names-IsKnown among names [] = tt
  correct_column_names-IsKnown among names (column ∷ columns) =
      let rest = correct_column_names-IsKnown among names columns in
      elim (Bool-cases (one_of column names)) [
        | inl e ↦ rw e (e, rest)
        | inr e ↦ elim (matches (m column names 1 6)) [
          | inl f ↦ rw (e, f) rest
          | inr (b, bs, f) ↦ rw (e, f) (best-IsKnown among column names b bs f, rest)
        ]
      ]

  corrected_column-IsKnown :
      IsAmongChoices m
      → (names : List String) (column : String)
      → IsKnown names (corrected_column m names column)
        ⊎ ((corrected_column m names column ≡ column) × (m column names 1 6 ≡ []))
  unfolding correct_column_names
  corrected_column-IsKnown among names column = elim (Bool-cases (one_of column names)) [
    | inl e ↦ rw (corrected_column, e) (inl e)
    | inr e ↦ elim (matches (m column names 1 6)) [
      | inl f ↦ rw (corrected_column, e, f) (inr (refl, refl))
      | inr (b, bs, f) ↦ rw (corrected_column, e, f) (inl (best-IsKnown among column names b bs f))
    ]
  ]

  correct_filter-IsCorrected :
      IsAmongChoices m
      → (d : DataDictionary) (names : List String) (f : Filter)
      → IsCorrected names (correct_filter m names (column_to_tables d) f)
  unfolding correct_filter
  correct_filter-IsCorrected among d names f = elim (Bool-cases (f.column == spatial_column)) [
    | inl e ↦ rw e (inl ((eq_iff f.column spatial_column).0 e))
    | inr e ↦ rw e (elim (corrected_column-IsKnown among names f.column) [
      | inl k ↦ inr (inl k)
      | inr (same, n) ↦ inr (inr (rw same n))
    ])
  ]

  correct_filters-IsCorrected :
      IsAmongChoices m
      → (d : DataDictionary) (names : List String) (fs : List Filter)
      → All (IsCorrected names) (map (correct_filter m names (column_to_tables d)) fs)
  correct_filters-IsCorrected among d names [] = tt
  correct_filters-IsCorrected among d names (f ∷ fs) =
      (correct_filter-IsCorrected among d names f, correct_filters-IsCorrected among d names fs)

  -- Where the close matches of a name are among the possibilities: after the correction every
  -- relevant column of the intent is a column of the dictionary, and every filter is on the grid
  -- cells, on a column of the dictionary, or on a column that no column of the dictionary is close to.
  pub correct_intent-IsGrounded :
      IsAmongChoices m
      → (d : DataDictionary) (i : Intent)
      → IsGrounded (get_valid_column_names d) (correct_intent m d i)
  unfolding correct_intent
  correct_intent-IsGrounded among d i = record {
    known_columns =
        correct_column_names-IsKnown among (get_valid_column_names d) i.relevant_columns;
    known_filters = correct_filters-IsCorrected among d (get_valid_column_names d) i.filters;
  }
