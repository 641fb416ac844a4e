-- ===== src/Scenario/Store.antt =====
-- services/scenario/scenario_store.py: the table of saved scenarios, its rows in the order of
-- insertion. JSON payloads are texts here, `json.dumps` and the clock being arguments; rows with
-- equal times come in the order of insertion.
pub mod Saved
mod Tests
use onegov2_spatial_assistan.Prelude.{
  ℕ, String, Bool, true, false, not, ◌&&◌, Option, none, some, List, [], ◌∷◌, ◌++◌, ◌==◌, Dict,
  lookup, keep, map, take, sort_by, text_le, concat, if◌then◌else◌,
}

pub record Row : Type 0 where
  pub scenario_id : String
  pub scenario_hash : String
  pub params_json : String
  pub result_json : String
  pub dataset_versions : Dict String
  pub git_commit : String
  pub created_at : String
  pub stable_url : String
  pub is_citizen_mode : Bool

abbrev pub first_of : List Row → Option Row
first_of [] = none
first_of (r ∷ rows) = some r

-- `ORDER BY created_at DESC`
abbrev pub newer : Row → Row → Bool
newer r s = text_le s.created_at r.created_at

unfoldable pub get_by_hash : String → List Row → Option Row
get_by_hash scenario_hash rows =
    first_of (sort_by newer (keep (λ r. r.scenario_hash == scenario_hash) rows))

unfoldable pub get_by_id : String → List Row → Option Row
get_by_id scenario_id [] = none
get_by_id scenario_id (r ∷ rows) =
    let later = get_by_id scenario_id rows in if r.scenario_id == scenario_id then some r else later

unfoldable pub list_recent_rows : ℕ → List Row → List Row
list_recent_rows limit rows = take limit (sort_by newer rows)

abbrev pub url_of : String → String → String
url_of base scenario_id = concat (base ∷ "/scenario/" ∷ scenario_id ∷ [])

abbrev pub known_id : String → List Row → Bool
known_id scenario_id rows = elim (get_by_id scenario_id rows) [ none ↦ false | some r ↦ true ]

-- The row that is written: the given values, with the URL built from its base.
abbrev pub new_row : String → Row → Row
new_row stable_url_base given = record given {
  stable_url = url_of stable_url_base given.scenario_id;
}

-- The insert; a row whose identifier is taken is not written. The URL is given back in any case.
unfoldable pub set : String → Row → List Row → List Row × String
set stable_url_base given rows =
    let row = new_row stable_url_base given in
    ((if known_id row.scenario_id rows then rows else rows ++ row ∷ []), row.stable_url)

pub record Drift : Type 0 where
  pub table : String
  pub cached_version : String
  pub current_version : String

-- `current and current != cached`
abbrev pub drift_of : String → String → Option String → List Drift
drift_of table cached none = []
drift_of table cached (some current) =
    if not (current == "") && not (current == cached)
    then record { table = table; cached_version = cached; current_version = current } ∷ []
    else []

unfoldable pub detect_version_drift : Dict String → Dict String → List Drift
detect_version_drift [] current = []
detect_version_drift ((table, cached) ∷ versions) current =
    drift_of table cached (lookup table current) ++ detect_version_drift versions current
