-- ===== src/Filters/Tests.antt =====
-- The filter checks on a small table: a query with one value finds it, with several it finds nothing.
use onegov2_spatial_assistan.Prelude.{
  ◌≡◌, refl, ◌↔◌, false, none, some, [], ◌∷◌, ◌++◌, length, leb, arith, if◌then◌else◌,
}
use onegov2_spatial_assistan.Filters.Model.{Filter, Intent, sort_filters_by_hierarchy}
use onegov2_spatial_assistan.Filters.Queries.{Connection, check_combination_has_results}
use onegov2_spatial_assistan.Filters.Candidates.{CloseMatches}
use onegov2_spatial_assistan.Filters.Validation.{
  validate_combination_phase, collect_invalid_filters,
}
use onegov2_spatial_assistan.Filters.Validation.Order.{
  locations, others, sort_filters_by_hierarchy_lem,
}
use onegov2_spatial_assistan.Filters.Validation.Combination.{
  IsFirstConflict, validate_combination_phase_lem,
}
use onegov2_spatial_assistan.Filters.Validation.Soundness.{
  IsValid, validatable, collect_invalid_filters_lem,
}
use onegov2_spatial_assistan.Filters.Node.{Corrector, call_node}
use onegov2_spatial_assistan.Filters.Node.Outcome.{IsOutcome, call_node-IsOutcome}

abbrev one_at_a_time : Connection
one_at_a_time = record {
  fetch_texts = λ query params. if leb (length params) 1 then params else [];
  raises = λ filters origin. false;
}

abbrev no_match : CloseMatches
no_match value choices n cutoff = []

abbrev use_filter : Filter
use_filter = record { table = some "woning"; column = "gebruik"; operator = "="; value = "wonen" }

abbrev town_filter : Filter
town_filter = record {
  table = some "gemeente";
  column = "gemeente_Gemeentenaam";
  operator = "=";
  value = "Delft";
}

abbrev old_filter : Filter
old_filter = record { table = some "woning"; column = "bouwjaar"; operator = "="; value = "1900" }

abbrev town_intent : Intent
town_intent = record {
  description = "woningen in Delft";
  relevant_columns = [];
  filters = use_filter ∷ town_filter ∷ [];
  aggregation = none;
  limit = none;
  spatial_query = none;
  year_comparison = none;
}

abbrev gives_up : Corrector
gives_up intent invalid final = none

sort_filters_by_hierarchy_lem_example :
    sort_filters_by_hierarchy (use_filter ∷ town_filter ∷ old_filter ∷ [])
    ≡ locations (use_filter ∷ town_filter ∷ old_filter ∷ [])
      ++ others (use_filter ∷ town_filter ∷ old_filter ∷ [])
sort_filters_by_hierarchy_lem_example =
    sort_filters_by_hierarchy_lem (use_filter ∷ town_filter ∷ old_filter ∷ [])

use_and_old : check_combination_has_results one_at_a_time (use_filter ∷ old_filter ∷ []) ≡ false
unfolding check_combination_has_results
use_and_old = refl

validate_combination_phase_lem_example :
    IsFirstConflict one_at_a_time no_match
      (use_filter ∷ old_filter ∷ [])
      (validate_combination_phase one_at_a_time no_match (use_filter ∷ old_filter ∷ []))
validate_combination_phase_lem_example =
    validate_combination_phase_lem one_at_a_time no_match (use_filter ∷ old_filter ∷ [])
      (omega arith) use_and_old

collect_invalid_filters_lem_example :
    collect_invalid_filters one_at_a_time no_match (use_filter ∷ town_filter ∷ []) ≡ []
    ↔ IsValid one_at_a_time no_match
        (validatable one_at_a_time no_match (use_filter ∷ town_filter ∷ []))
collect_invalid_filters_lem_example =
    collect_invalid_filters_lem one_at_a_time no_match (use_filter ∷ town_filter ∷ [])

call_node-IsOutcome_example :
    IsOutcome one_at_a_time no_match
      (("woning", "gebruik") ∷ [])
      (some town_intent)
      (call_node one_at_a_time no_match (("woning", "gebruik") ∷ []) gives_up (some town_intent))
call_node-IsOutcome_example =
    call_node-IsOutcome one_at_a_time no_match (("woning", "gebruik") ∷ []) gives_up
      (some town_intent)
