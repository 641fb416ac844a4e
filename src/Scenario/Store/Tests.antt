-- ===== src/Scenario/Store/Tests.antt =====
-- The table with one saved scenario.
use onegov2_spatial_assistan.Prelude.{String, ◌≡◌, refl, false, [], ◌∷◌, In, In.here}
use onegov2_spatial_assistan.Scenario.Store.{
  Row, get_by_hash, get_by_id, set, new_row, Drift, detect_version_drift,
}
use onegov2_spatial_assistan.Scenario.Store.Saved.{
  found_or, get_by_id-set, IsNewest, get_by_hash-IsNewest, IsDrift, detect_version_drift-IsDrift,
}

abbrev row : String → Row
row id = record {
  scenario_id = id;
  scenario_hash = "h1";
  params_json = "{}";
  result_json = "{}";
  dataset_versions = ("verzilting", "2026-01-01") ∷ [];
  git_commit = "abc";
  created_at = "2026-02-01";
  stable_url = "/scenario/s1";
  is_citizen_mode = false;
}

get_by_id-set_example :
    get_by_id "s2" (set "" (row "s2") (row "s1" ∷ [])).0
    ≡ found_or (get_by_id "s2" (row "s1" ∷ [])) (new_row "" (row "s2")) "s2"
get_by_id-set_example = get_by_id-set "" "s2" (row "s2") (row "s1" ∷ [])

get_by_hash-IsNewest_example : IsNewest "h1" (row "s1" ∷ []) (get_by_hash "h1" (row "s1" ∷ []))
get_by_hash-IsNewest_example = get_by_hash-IsNewest "h1" (row "s1" ∷ [])

abbrev salt_drift : Drift
salt_drift = record {
  table = "verzilting";
  cached_version = "2026-01-01";
  current_version = "2026-03-01";
}

salt_reported :
    In salt_drift
      (detect_version_drift (("verzilting", "2026-01-01") ∷ []) (("verzilting", "2026-03-01") ∷ []))
unfolding detect_version_drift
salt_reported = here refl

detect_version_drift-IsDrift_example :
    IsDrift (("verzilting", "2026-01-01") ∷ []) (("verzilting", "2026-03-01") ∷ []) salt_drift
detect_version_drift-IsDrift_example =
    detect_version_drift-IsDrift (("verzilting", "2026-01-01") ∷ [])
      (("verzilting", "2026-03-01") ∷ []) salt_drift salt_reported
