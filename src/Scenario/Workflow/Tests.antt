-- ===== src/Scenario/Workflow/Tests.antt =====
-- A scenario on given parameters, in thousandths, over one cell, and its band under the presets.
use onegov2_spatial_assistan.Prelude.{◌≡◌, refl, true, none, some, [], ◌∷◌}
use onegov2_spatial_assistan.Floats.Thousandths.{thousandths, thousandths-IsOrdered}
use onegov2_spatial_assistan.Scenario.Scoring.{Joined, setting, full_assumptions}
use onegov2_spatial_assistan.Scenario.Params.{ScenarioParams, params_to_assumptions}
use onegov2_spatial_assistan.Scenario.Workflow.{Engine, Ended, ScenarioCard, run_scenario}
use onegov2_spatial_assistan.Scenario.Uncertainty.{Band, run_uncertainty}
use onegov2_spatial_assistan.Scenario.Uncertainty.Spread.{IsSpread, run_uncertainty-IsSpread}
use onegov2_spatial_assistan.Scenario.Workflow.Cards.{IsCard, run_scenario-IsCard}

abbrev salty : Joined
salty = record {
  h = "8919698";
  relevant = true;
  risico = some "Meer dan 2 m";
  protected = true;
  pop = some 20;
}

abbrev failure : ScenarioParams thousandths
failure = record {
  scenario_type = "multi_hazard";
  knmi_preset = "Hd";
  time_horizon = 2040;
  growth_preset = "middel";
  location_name = none;
  development_type = none;
  development_mw = none;
  development_units = none;
  intake_id = none;
  outage_weeks = none;
  interventions = [];
  assumption_overrides = [];
}

abbrev engine : Engine thousandths
engine = record {
  extract_scenario_params = λ question. (failure, (0, 0));
  region = record {
    geocode_pdok = λ name. none;
    zones_of = none;
    all_zones = [];
    grid_disk = λ place k. [];
    str = λ n. "n";
  };
  rows = λ a cells base. salty ∷ [];
  compute_scenario_hash = λ p a. "hash";
  git_commit = "unknown";
  fixed = λ k x. "";
  comma_float = λ x. "";
  show = λ x. "";
  str = λ n. "";
  comma = λ n. "";
}

thresholds_in_order :
    thousandths.le
      (setting thousandths
        (full_assumptions thousandths (params_to_assumptions thousandths failure []))
        "verdict_caution")
      (setting thousandths
        (full_assumptions thousandths (params_to_assumptions thousandths failure []))
        "verdict_stop")
    ≡ true
unfolding params_to_assumptions
thresholds_in_order = refl

run_scenario-IsCard_example :
    (c : ScenarioCard thousandths) × (run_scenario thousandths engine "Droogte?" "id" "t" []
        (some failure)
        none
      ≡ Ended.card c)
    × IsCard thousandths thousandths-IsOrdered engine failure [] none c
run_scenario-IsCard_example =
    run_scenario-IsCard thousandths thousandths-IsOrdered engine "Droogte?" "id" "t" [] failure none
      refl thresholds_in_order

run_uncertainty-IsSpread_example :
    (b : Band thousandths) × (run_uncertainty thousandths engine "Droogte?"
        (some failure)
        (λ preset. (preset, "t"))
      ≡ some b)
    × IsSpread thousandths b
run_uncertainty-IsSpread_example =
    run_uncertainty-IsSpread thousandths engine "Droogte?" failure refl (λ preset. (preset, "t"))
