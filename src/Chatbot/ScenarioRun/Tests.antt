-- ===== src/Chatbot/ScenarioRun/Tests.antt =====
-- The gate on concrete requests, in thousandths.
use onegov2_spatial_assistan.Prelude.{ℕ, String, ◌≡◌, refl, true, none, some, List, [], ◌∷◌}
use onegov2_spatial_assistan.Floats.Thousandths.{thousandths}
use onegov2_spatial_assistan.Scenario.Params.{ScenarioParams}
use onegov2_spatial_assistan.Chatbot.ScenarioRun.{
  is_known_intake, validate_params, prepare_scenario_request, execute_plan, detect_comparison,
}
use onegov2_spatial_assistan.Chatbot.ScenarioRun.Gate.{IsSafeCall, execute_plan-IsSafeCall}

abbrev lek_failure : ScenarioParams thousandths
lek_failure = record {
  scenario_type = "intake_failure";
  knmi_preset = "Hd";
  time_horizon = 2040;
  growth_preset = "middel";
  location_name = none;
  development_type = none;
  development_mw = none;
  development_units = none;
  intake_id = some "Lek";
  outage_weeks = none;
  interventions = [];
  assumption_overrides = ("weight_flood", (500, 0)) ∷ [];
}

abbrev always_lek : String → ScenarioParams thousandths × (ℕ × ℕ)
always_lek question = (lek_failure, (800, 0))

abbrev two_presets : String → List String
two_presets question = "B" ∷ "Hd" ∷ []

lek_failure_test : validate_params thousandths lek_failure (800, 0) ≡ none
unfolding validate_params is_known_intake
lek_failure_test = refl

-- A known intake is looked for inside any word.
elektriciteit_test : is_known_intake (some "Elektriciteitscentrale") ≡ true
unfolding is_known_intake
elektriciteit_test = refl

comparison_test : detect_comparison thousandths two_presets "vergelijk KNMI B met Hd" ≡ (
  true,
  some (("knmi_dryness_multiplier", (1000, 0)) ∷ []),
  some (("knmi_dryness_multiplier", (1800, 0)) ∷ []),
)
unfolding detect_comparison
comparison_test = refl

execute_plan-IsSafeCall_example : IsSafeCall thousandths (
    execute_plan thousandths (
      prepare_scenario_request thousandths always_lek two_presets "wat als de Lek uitvalt?"
        (("added_homes", (500, 0)) ∷ [])))
execute_plan-IsSafeCall_example =
    execute_plan-IsSafeCall thousandths always_lek two_presets "wat als de Lek uitvalt?"
      (("added_homes", (500, 0)) ∷ [])
