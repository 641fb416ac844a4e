-- ===== src/Filters/Candidates.antt =====
-- services/helpers/filter_candidates.py, with the settings of config.py. The standard library's
-- `difflib.get_close_matches` is a parameter: value, choices, `n`, and the cutoff in tenths.
use onegov2_spatial_assistan.Prelude.{
  ℕ, String, List, [], ◌∷◌, length, take, map, join, leb, ltb, if◌then◌else◌,
}
use onegov2_spatial_assistan.Filters.Model.{Filter, InvalidFilter}
use onegov2_spatial_assistan.Filters.Queries.{Connection, fetch_distinct_values, ◌&◌}

abbrev pub CloseMatches : Type 0
CloseMatches = String → List String → ℕ → ℕ → List String

abbrev pub filter_max_fuzzy_candidates : ℕ
filter_max_fuzzy_candidates = 20

abbrev pub filter_fuzzy_cutoff : ℕ
filter_fuzzy_cutoff = 3

abbrev pub filter_all_values_threshold : ℕ
filter_all_values_threshold = 200

module _ (get_close_matches : CloseMatches) where
  unfoldable pub build_candidate_list : String → List String → List String
  build_candidate_list attempted_value all_values =
      let fuzzy_matches =
        get_close_matches attempted_value all_values filter_max_fuzzy_candidates
          filter_fuzzy_cutoff in
      if leb 3 (length fuzzy_matches)
      then fuzzy_matches
      else if ltb (length all_values) filter_all_values_threshold
      then all_values
      else get_close_matches attempted_value all_values 50 2

  unfoldable pub build_candidates_for_filter : Connection → Filter → List Filter → List String
  unfolding build_candidate_list
  build_candidates_for_filter con f scope_filters =
      build_candidate_list f.value (fetch_distinct_values con f scope_filters)

abbrev quoted : String → String
quoted v = "\"" & v & "\""

abbrev scope_text : List Filter → String
scope_text [] = ""
scope_text (f ∷ fs) =
    " (binnen " & join ", " (map (λ sf. sf.column & "=\"" & sf.value & "\"") (f ∷ fs)) & ")"

abbrev question_part : InvalidFilter → String
question_part inv =
    "De waarde '"
    & inv.attempted_value
    & "' bestaat niet in kolom '"
    & inv.column
    & "'"
    & scope_text inv.scope_filters
    & ". Beschikbare waarden zijn o.a.: "
    & join ", " (map quoted (take 10 inv.candidates))
    & "."

unfoldable pub build_fallback_question : List InvalidFilter → String
build_fallback_question invalid_filters = join " " (map question_part invalid_filters)
