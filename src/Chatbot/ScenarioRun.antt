-- ===== src/Chatbot/ScenarioRun.antt =====
-- services/chatbot/scenario_run.py: the gate between a free-text request and the scenario engine.
-- The extraction of parameters, the pattern for KNMI presets and the two engine calls are arguments;
-- the Dutch texts of the follow-up questions are left out, their machine-readable reasons kept.
pub mod Gate
mod Tests
use onegov2_spatial_assistan.Prelude.{
  ℕ, String, Bool, true, false, not, ◌&&◌, ◌||◌, Option, none, some, List, [], ◌∷◌, ◌==◌, ◌++◌,
  Dict, lookup_or, merge, keep, map, any, all, one_of, contains_text, lower, leb, length, is_empty,
  sort_by, if◌then◌else◌,
}
use onegov2_spatial_assistan.Floats.{Floats, flt}
use onegov2_spatial_assistan.Scenario.Params.{ScenarioParams, knmi_dryness}

abbrev pub allowed_scenario_types : List String
allowed_scenario_types = "drop_pin" ∷ "intake_failure" ∷ "multi_hazard" ∷ "intervention" ∷ []

abbrev pub allowed_knmi : List String
allowed_knmi = "B" ∷ "Hd" ∷ "Hn" ∷ "Ld" ∷ "Ln" ∷ []

abbrev pub allowed_growth : List String
allowed_growth = "laag" ∷ "middel" ∷ "hoog" ∷ []

abbrev pub weight_keys : List String
weight_keys = "weight_salinity" ∷ "weight_demand" ∷ "weight_flood" ∷ "weight_protection" ∷ []

abbrev pub allowed_lever_keys : List String
allowed_lever_keys =
    "knmi_dryness_multiplier" ∷ "population_growth_pct" ∷ "added_homes" ∷ "weight_salinity"
    ∷ "weight_demand" ∷ "weight_flood" ∷ "weight_protection" ∷ "demand_ref_m3_per_cell" ∷ []

abbrev pub known_intakes : List String
known_intakes = "ijssel" ∷ "lek" ∷ "maas" ∷ "hollandse ijssel" ∷ "nieuwe maas" ∷ []

abbrev pub horizon_min : ℕ
horizon_min = 2025

abbrev pub horizon_max : ℕ
horizon_max = 2100

abbrev pub compare_terms : List String
compare_terms =
    "vergelijk" ∷ "vergelijking" ∷ "met en zonder" ∷ "met of zonder" ∷ "met vs zonder"
    ∷ "met versus zonder" ∷ "verschil tussen" ∷ "zonder schok" ∷ "met schok" ∷ "baseline"
    ∷ "voor en na" ∷ "scenario-delta" ∷ "delta" ∷ []

pub data Reason : Type 0 where
  low_confidence bad_scenario_type bad_knmi bad_growth bad_horizon unknown_intake missing_location
        unknown_lever weight_out_of_range :
      Reason

-- `s or ""`
abbrev pub text_or_empty : Option String → String
text_or_empty none = ""
text_or_empty (some t) = t

unfoldable pub is_known_intake : Option String → Bool
is_known_intake intake = any (λ k. contains_text (lower (text_or_empty intake)) k) known_intakes

module _ (F : Floats) where
  open F use {Float, le, decimal}

  abbrev pub min_confidence : Float
  min_confidence = decimal 5 1

  -- A weight between 0 and 1; any number for another lever.
  abbrev pub weight_in_range : String × Float → Bool
  weight_in_range (k, v) =
      if one_of k weight_keys
      then (if le (decimal 0 0) v then le v (decimal 1 0) else false)
      else true

  -- The reason to ask again, or none.
  unfoldable pub validate_params : ScenarioParams F → Float → Option Reason
  validate_params params confidence =
      if flt F confidence min_confidence
      then some low_confidence
      else if not (one_of params.scenario_type allowed_scenario_types)
      then some bad_scenario_type
      else if not (one_of params.knmi_preset allowed_knmi)
      then some bad_knmi
      else if not (one_of params.growth_preset allowed_growth)
      then some bad_growth
      else if not (leb horizon_min params.time_horizon && leb params.time_horizon horizon_max)
      then some bad_horizon
      else if params.scenario_type == "intake_failure" && not (is_known_intake params.intake_id)
      then some unknown_intake
      else if params.scenario_type == "drop_pin" && text_or_empty params.location_name == ""
      then some missing_location
      else if not (all (λ o. one_of o.0 allowed_lever_keys) params.assumption_overrides)
      then some unknown_lever
      else if not (all weight_in_range params.assumption_overrides)
      then some weight_out_of_range
      else none

  -- A lever setting for one side of a comparison.
  abbrev pub Extra : Type 0
  Extra = Option (Dict Float)

  pub record ScenarioPlan : Type 0 where
    pub runnable : Bool
    pub params : Option (ScenarioParams F)
    pub compare : Bool
    pub baseline_extra : Extra
    pub shock_extra : Extra
    pub confidence : Float
    pub reason : Option Reason

  abbrev pub clarify : Reason → Float → ScenarioPlan
  clarify reason confidence = record {
    runnable = false;
    params = none;
    compare = false;
    baseline_extra = none;
    shock_extra = none;
    confidence = confidence;
    reason = some reason;
  }

  abbrev pub dryness : String → Float
  dryness p = lookup_or p (knmi_dryness F) (decimal 10 1)

  abbrev pub dryness_extra : String → Extra
  dryness_extra p = some (("knmi_dryness_multiplier", dryness p) ∷ [])

  -- The allowed presets among the mentions, each once.
  unfoldable pub presets_from : List String → List String → List String
  presets_from presets [] = presets
  presets_from presets (p ∷ mentions) =
      presets_from
        (if one_of p allowed_knmi && not (one_of p presets) then presets ++ p ∷ [] else presets)
        mentions

  abbrev pub last_of : String → List String → String
  last_of p [] = p
  last_of p (q ∷ ps) = last_of q ps

  -- The mildest and the harshest of several presets.
  abbrev pub extremes : List String → Bool × Extra × Extra
  extremes [] = (true, none, none)
  extremes (mild ∷ ranked) = (true, dryness_extra mild, dryness_extra (last_of mild ranked))

  -- `knmi_mentions` gives the capitalised matches of the pattern in the question.
  unfoldable pub detect_comparison : (String → List String) → String → Bool × Extra × Extra
  unfolding presets_from sort_by
  detect_comparison knmi_mentions question =
      let presets = presets_from [] (knmi_mentions question) in
      let wants =
        any (λ t. contains_text (lower question) t) compare_terms || leb 2 (length presets) in
      if not wants
      then (false, none, none)
      else if leb 2 (length presets)
      then extremes (sort_by (λ p q. le (dryness p) (dryness q)) presets)
      else (true, none, none)

  abbrev pub with_overrides : Dict Float → ScenarioParams F → ScenarioParams F
  with_overrides overrides p = record p {
    assumption_overrides = merge p.assumption_overrides overrides;
  }

  module _ (extract_scenario_params : String → ScenarioParams F × Float)
      (knmi_mentions : String → List String) where
    unfoldable pub prepare_scenario_request : String → Dict Float → ScenarioPlan
    unfolding detect_comparison validate_params
    prepare_scenario_request question overrides =
        let (extracted, confidence) = extract_scenario_params question in
        let params = with_overrides overrides extracted in
        let (compare, baseline_extra, shock_extra) = detect_comparison knmi_mentions question in
        elim (validate_params params confidence) [
          | some reason ↦ clarify reason confidence
          | none ↦ record {
            runnable = true;
            params = some params;
            compare = compare;
            baseline_extra = baseline_extra;
            shock_extra = shock_extra;
            confidence = confidence;
            reason = none;
          }
        ]

  -- The engine call that a plan leads to; `refuse` stands for the ValueError.
  pub data EngineCall : Type 0 where
    refuse : EngineCall
    run_comparison : Extra → Extra → ScenarioParams F → EngineCall
    run_scenario : ScenarioParams F → EngineCall

  unfoldable pub execute_plan : ScenarioPlan → EngineCall
  execute_plan plan = elim plan.params [
    | none ↦ EngineCall.refuse
    | some params ↦
        if not plan.runnable
        then EngineCall.refuse
        else if plan.compare
        then EngineCall.run_comparison plan.baseline_extra plan.shock_extra params
        else EngineCall.run_scenario params
  ]
