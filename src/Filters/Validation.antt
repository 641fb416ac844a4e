-- ===== src/Filters/Validation.antt =====
-- services/helpers/filter_validation.py: the check of each value in the scope of the validated
-- location filters, then the check that all the filters go together.
pub mod Order
pub mod Combination
pub mod Soundness
use onegov2_spatial_assistan.Prelude.{
  ℕ, String, Bool, true, false, not, ◌||◌, List, [], ◌∷◌, ◌++◌, Dict, lookup_or, map, keep,
  contains_text, upper, length, leb, is_empty, if◌then◌else◌,
}
use onegov2_spatial_assistan.Filters.Model.{
  Filter, InvalidFilter, invalid_of, is_location_column, get_parent_columns,
  sort_filters_by_hierarchy,
}
use onegov2_spatial_assistan.Filters.Queries.{
  Connection, append_under, check_value_exists, check_combination_has_results,
}
use onegov2_spatial_assistan.Filters.Candidates.{CloseMatches, build_candidates_for_filter}

unfoldable pub is_not_null_filter : Filter → Bool
is_not_null_filter f =
    contains_text (upper f.operator) "IS NOT NULL" || contains_text (upper f.value) "IS NOT NULL"

-- The validated filters of the parents, one after the other.
abbrev pub scoped_parents : List String → Dict (List Filter) → List Filter
scoped_parents [] validated = []
scoped_parents (col ∷ cols) validated = lookup_or col validated [] ++ scoped_parents cols validated

-- The validated location filters, column by column.
abbrev pub scoped_locations : Dict (List Filter) → List Filter
scoped_locations [] = []
scoped_locations ((col, fs) ∷ validated) =
    if is_location_column col then fs ++ scoped_locations validated else scoped_locations validated

unfoldable pub build_scope : Filter → Dict (List Filter) → List Filter
build_scope f validated =
    if is_location_column f.column
    then scoped_parents (get_parent_columns f.column) validated
    else scoped_locations validated

module _ (con : Connection) (get_close_matches : CloseMatches) where
  unfoldable pub validate_individual_phase : List Filter → Dict (List Filter) → List InvalidFilter
  validate_individual_phase [] validated = []
  validate_individual_phase (f ∷ fs) validated =
      let scope = build_scope f validated in
      let exists = check_value_exists con f scope in
      let rest =
        validate_individual_phase fs
          (if exists then append_under f.column f validated else validated) in
      if exists
      then rest
      else invalid_of f (build_candidates_for_filter get_close_matches con f scope) scope ∷ rest

  unfoldable pub find_conflicting_filter : List Filter → List Filter → List InvalidFilter
  find_conflicting_filter accumulated [] = []
  find_conflicting_filter accumulated (f ∷ fs) =
      let rest = find_conflicting_filter (accumulated ++ f ∷ []) fs in
      if check_combination_has_results con (accumulated ++ f ∷ [])
      then rest
      else invalid_of f (build_candidates_for_filter get_close_matches con f accumulated)
          accumulated
        ∷ []

  unfoldable pub validate_combination_phase : List Filter → List InvalidFilter
  validate_combination_phase sorted_filters =
      if leb (length sorted_filters) 1
      then []
      else if check_combination_has_results con sorted_filters
      then []
      else find_conflicting_filter [] sorted_filters

  unfoldable pub collect_invalid_filters : List Filter → List InvalidFilter
  collect_invalid_filters filters =
      let validatable = keep (λ f. not (is_not_null_filter f)) filters in
      let sorted_filters = sort_filters_by_hierarchy validatable in
      let invalid = validate_individual_phase sorted_filters [] in
      if is_empty invalid then validate_combination_phase sorted_filters else invalid
