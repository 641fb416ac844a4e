-- ===== src/Chatbot/Recipe.antt =====
-- services/chatbot/recipe.py: a recipe of signal weights, validated before the engine runs it. The
-- values of the request are untyped: `to_float` and `to_year` stand for Python's float() and int(),
-- `none` when they raise. Python iterates the set ALLOWED_SIGNALS in an order that it does not fix;
-- here it is the order of SIGNALS. The Dutch texts are left out.
pub mod Accepted
mod Tests
use onegov2_spatial_assistan.Prelude.{
  ℕ, String, Bool, true, false, not, ◌&&◌, ◌||◌, Option, none, some, List, [], ◌∷◌, ◌==◌, ◌++◌,
  Dict, lookup, all, any, map, one_of, has_key, leb, is_empty, if◌then◌else◌,
}
use onegov2_spatial_assistan.Floats.{Floats, flt, zero_float, neg}
use onegov2_spatial_assistan.Scenario.Params.{ScenarioParams}
use onegov2_spatial_assistan.Chatbot.ScenarioRun.{
  allowed_knmi, allowed_growth, horizon_min, horizon_max, is_known_intake, text_or_empty,
}

-- signal and weight key
abbrev pub signals : Dict String
signals =
    ("salinity", "weight_salinity")
    ∷ ("demand", "weight_demand")
    ∷ ("flood", "weight_flood")
    ∷ ("protection", "weight_protection")
    ∷ []

abbrev pub allowed_base : List String
allowed_base = "salinity" ∷ "populated" ∷ []

pub data RecipeReason : Type 0 where
  unknown_signal weight_not_number weight_out_of_range weights_sum bad_knmi bad_growth bad_base
        bad_horizon bad_added_homes unknown_intake :
      RecipeReason

-- `x or d` for a value that may be missing
abbrev pub given {ℓ} : {A : Type ℓ} → Option A → A → A
given none d = d
given (some a) d = a

-- An early return, or what comes after it.
abbrev pub first_reason : Option RecipeReason → Option RecipeReason → Option RecipeReason
first_reason (some reason) later = some reason
first_reason none later = later

module _ (F : Floats) (Value : Type 0) (to_float : Value → Option F.Float) (is_falsy : Value → Bool)
    (to_year : Value → Option ℕ) where
  open F use {Float, le, add, sub, decimal}

  pub record Spec : Type 0 where
    pub weights : Dict Value
    pub knmi_preset : Option String
    pub growth_preset : Option String
    pub base : Option String
    pub time_horizon : Option Value
    pub added_homes : Option Value
    pub intake_id : Option String
    pub location_name : Option String

  -- A weight that is a number from 0 to 1, or what is wrong with it.
  abbrev pub weight_reason : Value → Option RecipeReason
  weight_reason v = elim (to_float v) [
    | none ↦ some weight_not_number
    | some x ↦ if le (zero_float F) x && le x (decimal 1 0) then none else some weight_out_of_range
  ]

  -- The first weight that is wrong.
  unfoldable pub check_weights : Dict Value → Option RecipeReason
  check_weights [] = none
  check_weights ((k, v) ∷ weights) =
      let later = check_weights weights in
      elim (weight_reason v) [ some reason ↦ some reason | none ↦ later ]

  -- `float(weights.get(k, 0.0))`, which cannot raise once the weights were checked
  abbrev pub weight_of : Dict Value → String → Float
  weight_of weights k = elim (lookup k weights) [
    | none ↦ zero_float F
    | some v ↦ given (to_float v) (zero_float F)
  ]

  abbrev pub total_of : Dict Value → Float
  total_of weights =
      add
        (add (add (add (zero_float F) (weight_of weights "salinity")) (weight_of weights "demand"))
          (weight_of weights "flood"))
        (weight_of weights "protection")

  -- `abs(total - 1.0) <= WEIGHT_SUM_TOL`
  abbrev pub is_balanced : Float → Bool
  is_balanced total =
      let d = sub total (decimal 1 0) in
      le (if le (zero_float F) d then d else neg F d) (decimal 1 2)

  abbrev pub year_in_range : Option ℕ → Bool
  year_in_range none = false
  year_in_range (some y) = leb horizon_min y && leb y horizon_max

  abbrev pub year_of : Spec → Option ℕ
  year_of spec = elim spec.time_horizon [ none ↦ some 2040 | some v ↦ to_year v ]

  -- `float(spec.get("added_homes", 0) or 0)`
  abbrev pub homes_of : Spec → Option Float
  homes_of spec = elim spec.added_homes [
    | none ↦ some (zero_float F)
    | some v ↦ if is_falsy v then some (zero_float F) else to_float v
  ]

  abbrev pub not_negative : Option Float → Bool
  not_negative none = false
  not_negative (some x) = le (zero_float F) x

  -- What is wrong beside the single weights: the tests in their order.
  unfoldable pub preset_reason : Spec → Option RecipeReason
  preset_reason spec =
      if not (is_balanced (total_of spec.weights))
      then some weights_sum
      else if not (one_of (given spec.knmi_preset "Hd") allowed_knmi)
      then some bad_knmi
      else if not (one_of (given spec.growth_preset "middel") allowed_growth)
      then some bad_growth
      else if not (one_of (given spec.base "salinity") allowed_base)
      then some bad_base
      else if not (year_in_range (year_of spec))
      then some bad_horizon
      else if not (not_negative (homes_of spec))
      then some bad_added_homes
      else if not (text_or_empty spec.intake_id == "") && not (is_known_intake spec.intake_id)
      then some unknown_intake
      else none

  -- The reason to ask again, or none.
  unfoldable pub recipe_reason : Spec → Option RecipeReason
  unfolding check_weights preset_reason
  recipe_reason spec =
      if not (all (λ w. has_key w.0 signals) spec.weights)
      then some unknown_signal
      else first_reason (check_weights spec.weights) (preset_reason spec)

  abbrev pub scenario_type_of : Spec → String
  scenario_type_of spec =
      if not (text_or_empty spec.intake_id == "")
      then "intake_failure"
      else if not (text_or_empty spec.location_name == "")
      then "drop_pin"
      else "multi_hazard"

  -- The weights under their keys, and the homes unless there are none.
  abbrev pub overrides_of : Spec → Dict Float
  overrides_of spec =
      let homes = given (homes_of spec) (zero_float F) in
      map (λ s. (s.1, weight_of spec.weights s.0)) signals
      ++ (if le (zero_float F) homes && le homes (zero_float F)
          then []
          else ("added_homes", homes) ∷ [])

  pub record RecipePlan : Type 0 where
    pub runnable : Bool
    pub params : Option (ScenarioParams F)
    pub base : String
    pub reason : Option RecipeReason

  abbrev pub params_of : Spec → ScenarioParams F
  params_of spec = record {
    scenario_type = scenario_type_of spec;
    knmi_preset = given spec.knmi_preset "Hd";
    time_horizon = given (year_of spec) 0;
    growth_preset = given spec.growth_preset "middel";
    location_name = spec.location_name;
    development_type = none;
    development_mw = none;
    development_units = none;
    intake_id = spec.intake_id;
    outage_weeks = none;
    interventions = [];
    assumption_overrides = overrides_of spec;
  }

  unfoldable pub validate_recipe : Spec → RecipePlan
  unfolding recipe_reason
  validate_recipe spec = elim (recipe_reason spec) [
    | some reason ↦ record {
      runnable = false;
      params = none;
      base = "salinity";
      reason = some reason;
    }
    | none ↦ record {
      runnable = true;
      params = some (params_of spec);
      base = given spec.base "salinity";
      reason = none;
    }
  ]

  -- The scenario that the engine is run on, or `none` for the ValueError.
  unfoldable pub execute_recipe : RecipePlan → Option (ScenarioParams F × String)
  execute_recipe plan = elim plan.params [
    | none ↦ none
    | some params ↦ if plan.runnable then some (params, plan.base) else none
  ]
