-- ===== src/Filters/Model.antt =====
-- models/state.py, models/validation.py and services/helpers/location_hierarchy.py: the filters of an
-- intent, and the order in which they are validated.
use onegov2_spatial_assistan.Prelude.{
  ℕ, String, ◌≡◌, Bool, Option, none, List, [], ◌∷◌, arith, Dict, lookup_or, has_key, leb, sort_by,
}

pub record Filter : Type 0 where
  pub table : Option String
  pub column : String
  pub operator : String
  pub value : String

-- InvalidFilter.source
pub data Source : Type 0 where
  filter spatial_origin : Source

pub record InvalidFilter : Type 0 where
  pub column : String
  pub operator : String
  pub attempted_value : String
  pub candidates : List String
  pub scope_filters : List Filter
  pub sibling_match : Option String
  pub source : Source

abbrev pub invalid_of : Filter → List String → List Filter → InvalidFilter
invalid_of f candidates scope = record {
  column = f.column;
  operator = f.operator;
  attempted_value = f.value;
  candidates = candidates;
  scope_filters = scope;
  sibling_match = none;
  source = filter;
}

pub record Aggregation : Type 0 where
  pub column : String
  pub function : String
  pub level : Option (List String)

pub record YearComparison : Type 0 where
  pub column : String
  pub year_from : ℕ
  pub year_to : ℕ

pub record SpatialQuery : Type 0 where
  pub origin_filters : List Filter
  pub k_rings : ℕ

-- `limit` is not negative.
pub record Intent : Type 0 where
  pub description : String
  pub relevant_columns : List String
  pub filters : List Filter
  pub aggregation : Option Aggregation
  pub limit : Option ℕ
  pub spatial_query : Option SpatialQuery
  pub year_comparison : Option YearComparison

pub record IntentAnalysis : Type 0 where
  pub is_clear : Bool
  pub intent : Option Intent
  pub follow_up_question : Option String
  pub thinking_summary : String

-- LOCATION_HIERARCHY
abbrev pub location_hierarchy : Dict (List String)
location_hierarchy = ("gemeente_Gemeentenaam", []) ∷ ("gemeente_Code", []) ∷ []

-- _HIERARCHY_ORDER, _NON_LOCATION_ORDER
abbrev pub hierarchy_order : Dict ℕ
hierarchy_order = ("gemeente_Gemeentenaam", 0) ∷ ("gemeente_Code", 0) ∷ []

abbrev pub non_location_order : ℕ
non_location_order = 3

unfoldable pub is_location_column : String → Bool
is_location_column column = has_key column location_hierarchy

unfoldable pub get_parent_columns : String → List String
get_parent_columns column = lookup_or column location_hierarchy []

abbrev pub order_of : Filter → ℕ
order_of f = lookup_or f.column hierarchy_order non_location_order

unfoldable pub sort_filters_by_hierarchy : List Filter → List Filter
unfolding sort_by
sort_filters_by_hierarchy = sort_by (λ f g. leb (order_of f) (order_of g))

-- No column of the hierarchy has a parent in it.
pub get_parent_columns-nil : (column : String) → get_parent_columns column ≡ []
unfolding get_parent_columns
get_parent_columns-nil column = ground arith
